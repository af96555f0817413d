-- ===== src/AutoReply/Dispatcher.antt =====
-- backend/app/services/auto_reply_scheduler.py: the dispatcher of one robot, its workers and the
-- wake-ups, as steps. A step is what runs between two awaits; which conversation the tables offer at
-- a look is an argument of the step, so that the tables may change in between in any way.
use wecom_ai_agent.Prelude.{
  ℕ, suc, ◌-◌, ◌<◌, ◌≡◌, Bool, true, false, Option, none, some, List, [], ◌∷◌, ◌==◌, ◌&&◌, not,
  if◌then◌else◌, count, keep, max,
}
use wecom_ai_agent.Store.{Conversation, Settings, Db}
use wecom_ai_agent.AutoReply.{Turns, next_pending_conversation}

-- Where the coroutine `_run_robot` stands.
pub data Phase : Type 0 where
  -- there is none, or it is done
  idle : Phase
  -- about to look for a conversation
  looking : Phase
  -- it waits for the semaphore, for this conversation
  acquiring : ℕ → Phase
  -- it waits for the event or the timeout
  waiting : Phase

-- `_RobotState`, with the value of the semaphore and the dispatcher's `seen_wake`. `workers` are the
-- tasks that have not been reaped, by their conversation.
pub record RobotState : Type 0 where
  pub phase : Phase
  pub workers : List ℕ
  pub active_conv_ids : List ℕ
  pub turns : Turns
  pub wake_count : ℕ
  pub wake_event : Option Bool
  pub free : ℕ
  pub seen_wake : ℕ

-- `max(1, auto_reply_concurrency_per_robot)`
abbrev pub permits : Settings → ℕ
permits settings = max 1 settings.auto_reply_concurrency_per_robot

-- `_RobotState()`
abbrev pub new_state : Settings → RobotState
new_state settings = record {
  phase = Phase.idle;
  workers = [];
  active_conv_ids = [];
  turns = record { last_conv_id = none; same_conv_turns = 0 };
  wake_count = 0;
  wake_event = none;
  free = permits settings;
  seen_wake = 0;
}

-- `wake_event.set()`, if the event is there
unfoldable pub set_event : Option Bool → Option Bool
set_event none = none
set_event (some b) = some true

-- The dispatcher starts if it is not running; its semaphore is new.
unfoldable pub start_dispatcher : Settings → RobotState → RobotState
start_dispatcher settings s = elim s.phase [
  | Phase.idle ↦ record s {
    phase = Phase.looking;
    free = permits settings;
    seen_wake = s.wake_count;
  }
  | Phase.looking ↦ s
  | Phase.acquiring c ↦ s
  | Phase.waiting ↦ s
]

-- `wake_robot`
unfoldable pub wake_robot : Settings → RobotState → RobotState
wake_robot settings s =
    if settings.auto_reply_enabled && settings.task_queue_enabled
    then start_dispatcher settings
        (record s { wake_count = suc s.wake_count; wake_event = set_event s.wake_event })
    else s

-- A look that finds a conversation goes to the semaphore; one that finds none waits, unless there
-- was a wake-up since the last look.
unfoldable pub after_look : Option ℕ → RobotState → RobotState
after_look (some conv_id) s = record s { phase = Phase.acquiring conv_id }
after_look none s =
    if s.wake_count == s.seen_wake
    then record s { phase = Phase.waiting; wake_event = some false }
    else record s { seen_wake = s.wake_count }

unfoldable pub id_of : Option Conversation → Option ℕ
id_of none = none
id_of (some conv) = some conv.id

-- The look of the loop, at the tables as they are then.
unfoldable pub look : ℕ → Db → RobotState → RobotState
look robot_pk db s =
    after_look (id_of (next_pending_conversation db robot_pk s.turns s.active_conv_ids)) s

-- The semaphore is acquired, and the worker starts.
unfoldable pub launch : ℕ → RobotState → RobotState
launch conv_id s = record s {
  phase = Phase.looking;
  free = s.free - 1;
  active_conv_ids = conv_id ∷ s.active_conv_ids;
  workers = conv_id ∷ s.workers;
}

unfoldable pub is_last : Option ℕ → ℕ → Bool
is_last none conv_id = false
is_last (some last) conv_id = last == conv_id

unfoldable pub next_turns : ℕ → Turns → Turns
next_turns conv_id turns =
    if is_last turns.last_conv_id conv_id
    then record turns { same_conv_turns = suc turns.same_conv_turns }
    else record { last_conv_id = some conv_id; same_conv_turns = 1 }

unfoldable pub discard : ℕ → List ℕ → List ℕ
discard id ids = keep (λ x. not (x == id)) ids

-- The `finally` of `_run_worker`, which also runs after an exception or a cancellation.
unfoldable pub finish_worker : ℕ → RobotState → RobotState
finish_worker conv_id s = record s {
  active_conv_ids = discard conv_id s.active_conv_ids;
  turns = next_turns conv_id s.turns;
  free = suc s.free;
  wake_count = suc s.wake_count;
  wake_event = set_event s.wake_event;
}

unfoldable pub remove_one : ℕ → List ℕ → List ℕ
remove_one id [] = []
remove_one id (x ∷ xs) = let rest = remove_one id xs in if x == id then xs else x ∷ rest

-- The done callback of a worker, which runs after the worker has ended.
unfoldable pub reap : ℕ → RobotState → RobotState
unfolding remove_one
reap conv_id s = record s { workers = remove_one conv_id s.workers }

-- The wait ends with the event set.
unfoldable pub woken : RobotState → RobotState
woken s = record s { phase = Phase.looking; seen_wake = s.wake_count }

-- The wait times out: the dispatcher ends if no worker is left.
unfoldable pub timed_out : RobotState → RobotState
timed_out s = elim s.workers [
  | [] ↦ record s { phase = Phase.idle }
  | w ∷ ws ↦ record s { phase = Phase.looking; seen_wake = s.wake_count }
]

pub data Step (settings : Settings) (robot_pk : ℕ) : RobotState → RobotState → Type 0 where
  wakes : (s : RobotState) → Step settings robot_pk s (wake_robot settings s)
  looks :
      (db : Db) (s : RobotState)
      → s.phase ≡ Phase.looking
      → Step settings robot_pk s (look robot_pk db s)
  launches :
      (conv_id : ℕ) (s : RobotState)
      → s.phase ≡ Phase.acquiring conv_id
      → 0 < s.free
      → Step settings robot_pk s (launch conv_id s)
  finishes :
      (conv_id : ℕ) (s : RobotState)
      → 0 < count (λ id. id == conv_id) s.active_conv_ids
      → Step settings robot_pk s (finish_worker conv_id s)
  reaps :
      (conv_id : ℕ) (s : RobotState)
      → count (λ id. id == conv_id) s.active_conv_ids < count (λ id. id == conv_id) s.workers
      → Step settings robot_pk s (reap conv_id s)
  wakes_up :
      (s : RobotState)
      → s.phase ≡ Phase.waiting
      → s.wake_event ≡ some true
      → Step settings robot_pk s (woken s)
  times_out : (s : RobotState) → s.phase ≡ Phase.waiting → Step settings robot_pk s (timed_out s)

pub data Reach (settings : Settings) (robot_pk : ℕ) (s : RobotState) : RobotState → Type 0 where
  here : Reach settings robot_pk s s
  next :
      {t u : RobotState}
      → Reach settings robot_pk s t
      → Step settings robot_pk t u
      → Reach settings robot_pk s u
