-- ===== src/AutoReply/Bounded.antt =====
-- backend/app/services/auto_reply_scheduler.py: what every interleaving of the dispatcher, its workers
-- and the wake-ups keeps.
use wecom_ai_agent.Prelude.{
  ℕ, suc, ◌+◌, ◌≤◌, ◌<◌, ◌≡◌, refl, sym, ◌∙◌, ap, subst, ◌⊎◌, inl, inr, Bool, true, false, Option,
  none, some, List, [], ◌∷◌, arith, ◌==◌, ◌&&◌, not, length, ==_iff, Bool-cases, Option-cases,
}
use wecom_ai_agent.Store.{Settings, Db}
use wecom_ai_agent.AutoReply.{next_pending_conversation}
use wecom_ai_agent.AutoReply.Fairness.{next_pending_conversation-IsChosen}
use wecom_ai_agent.AutoReply.Workers.{
  workers_on, count-discard, length-discard, count-remove_one, count-remove_other, not_active,
  none_active,
}
use wecom_ai_agent.AutoReply.Dispatcher.{
  Phase, RobotState, permits, new_state, set_event, start_dispatcher, wake_robot, after_look, id_of,
  look, launch, finish_worker, reap, remove_one, woken, timed_out, Step, Reach, next, here, wakes,
  looks, launches, finishes, reaps, wakes_up, times_out,
}

-- What holds besides in each phase: nothing is active without a dispatcher, the conversation that is to
-- start has no worker, and a dispatcher that waits has missed no wake-up.
abbrev pub PhaseHolds : Phase → RobotState → Type 0
PhaseHolds Phase.idle s = s.workers ≡ []
PhaseHolds Phase.looking s = Unit {0}
PhaseHolds (Phase.acquiring conv_id) s = workers_on conv_id s.active_conv_ids ≡ 0
PhaseHolds Phase.waiting s =
    (s.wake_event ≡ some true) ⊎ ((s.wake_event ≡ some false) × (s.wake_count ≡ s.seen_wake))

-- No conversation has two workers, the active workers and the free permits of the semaphore make up
-- its size, and every active conversation belongs to a worker.
pub record IsBounded (settings : Settings) (s : RobotState) : Type 0 where
  pub one : (conv_id : ℕ) → workers_on conv_id s.active_conv_ids ≤ 1
  pub slots : length s.active_conv_ids + s.free ≡ permits settings
  pub tracked : (conv_id : ℕ) → workers_on conv_id s.active_conv_ids ≤ workers_on conv_id s.workers
  pub phase_holds : PhaseHolds s.phase s

new_state-IsBounded : (settings : Settings) → IsBounded settings (new_state settings)
new_state-IsBounded settings = record {
  one = λ c. omega arith;
  slots = omega arith;
  tracked = λ c. omega arith;
  phase_holds = refl;
}

module _ (settings : Settings) (s : RobotState) (v : IsBounded settings s) where
  launch-IsBounded :
      (c : ℕ) → s.phase ≡ Phase.acquiring c → 0 < s.free → IsBounded settings (launch c s)
  unfolding launch
  launch-IsBounded c p f =
      let fresh : PhaseHolds (Phase.acquiring c) s = subst (λ q. PhaseHolds q s) p v.phase_holds in
      record {
        one = λ d. ground (arith, v.one d, fresh, ==_iff c d);
        slots = omega (arith, v.slots, f);
        tracked = λ d. ground (arith, v.tracked d);
        phase_holds = tt;
      }

  finish-IsBounded :
      (c : ℕ) → 0 < workers_on c s.active_conv_ids → IsBounded settings (finish_worker c s)
  unfolding finish_worker set_event
  finish-IsBounded c a = record {
    one = λ d. omega (arith, v.one d, count-discard c d s.active_conv_ids);
    slots = omega (arith, v.slots, v.one c, a, length-discard c s.active_conv_ids);
    tracked = λ d. omega (arith, v.tracked d, count-discard c d s.active_conv_ids);
    phase_holds = finished s.phase v.phase_holds;
  }
    where
      finished : (p : Phase) → PhaseHolds p s → PhaseHolds p (finish_worker c s)
      finished Phase.idle h = h
      finished Phase.looking h = tt
      finished (Phase.acquiring d) h = omega (arith, h, count-discard c d s.active_conv_ids)
      finished Phase.waiting (inl h) = inl (ap set_event h)
      finished Phase.waiting (inr h) = inl (ap set_event h.0)

  reap-IsBounded :
      (c : ℕ)
      → workers_on c s.active_conv_ids < workers_on c s.workers
      → IsBounded settings (reap c s)
  unfolding reap remove_one
  reap-IsBounded c a = record {
    one = v.one;
    slots = v.slots;
    tracked = λ d. ground (
      arith,
      v.tracked d,
      a,
      count-remove_one c d s.workers,
      count-remove_other c d s.workers,
      ==_iff c d,
    );
    phase_holds = reaped s.phase v.phase_holds;
  }
    where
      reaped : (p : Phase) → PhaseHolds p s → PhaseHolds p (reap c s)
      reaped Phase.idle h = ap (remove_one c) h
      reaped Phase.looking h = tt
      reaped (Phase.acquiring d) h = h
      reaped Phase.waiting h = h

  start-IsBounded : (p : Phase) → s.phase ≡ p → IsBounded settings (start_dispatcher settings s)
  unfolding start_dispatcher
  start-IsBounded Phase.idle e =
      let gone : s.workers ≡ [] = subst (λ q. PhaseHolds q s) e v.phase_holds in
      let none_left : s.active_conv_ids ≡ [] =
        none_active s.active_conv_ids (λ c.
          subst (λ ws. workers_on c s.active_conv_ids ≤ workers_on c ws) gone (v.tracked c)) in
      rw (e, start_dispatcher)
        (record {
          one = v.one;
          slots = ground (arith, none_left);
          tracked = v.tracked;
          phase_holds = tt;
        })
  start-IsBounded Phase.looking e = rw (e, start_dispatcher) v
  start-IsBounded (Phase.acquiring c) e = rw (e, start_dispatcher) v
  start-IsBounded Phase.waiting e = rw (e, start_dispatcher) v

  after_look-IsBounded :
      (o : Option ℕ)
      → s.phase ≡ Phase.looking
      → ((c : ℕ) → o ≡ some c → workers_on c s.active_conv_ids ≡ 0)
      → IsBounded settings (after_look o s)
  unfolding after_look
  after_look-IsBounded (some c) e f = record {
    one = v.one;
    slots = v.slots;
    tracked = v.tracked;
    phase_holds = f c refl;
  }
  after_look-IsBounded none e f = elim (Bool-cases (s.wake_count == s.seen_wake)) [
    | inl h ↦
        rw (h, after_look)
          (record {
            one = v.one;
            slots = v.slots;
            tracked = v.tracked;
            phase_holds = inr (refl, (==_iff s.wake_count s.seen_wake).0 h);
          })
    | inr h ↦
        rw (h, after_look)
          (record {
            one = v.one;
            slots = v.slots;
            tracked = v.tracked;
            phase_holds =
                subst (λ p. PhaseHolds p (record s { seen_wake = s.wake_count })) (sym e) tt;
          })
  ]

  woken-IsBounded : IsBounded settings (woken s)
  unfolding woken
  woken-IsBounded = record { one = v.one; slots = v.slots; tracked = v.tracked; phase_holds = tt }

  timed_out-IsBounded : (ws : List ℕ) → s.workers ≡ ws → IsBounded settings (timed_out s)
  unfolding timed_out
  timed_out-IsBounded [] e =
      rw (e, timed_out)
        (record { one = v.one; slots = v.slots; tracked = v.tracked; phase_holds = e })
  timed_out-IsBounded (w ∷ ws) e =
      rw (e, timed_out)
        (record { one = v.one; slots = v.slots; tracked = v.tracked; phase_holds = tt })

  nudged : RobotState
  nudged = record s { wake_count = suc s.wake_count; wake_event = set_event s.wake_event }

  nudged-IsBounded : IsBounded settings nudged
  unfolding nudged set_event
  nudged-IsBounded = record {
    one = v.one;
    slots = v.slots;
    tracked = v.tracked;
    phase_holds = holds s.phase v.phase_holds;
  }
    where
      holds : (p : Phase) → PhaseHolds p s → PhaseHolds p nudged
      holds Phase.idle h = h
      holds Phase.looking h = tt
      holds (Phase.acquiring c) h = h
      holds Phase.waiting (inl h) = inl (ap set_event h)
      holds Phase.waiting (inr h) = inl (ap set_event h.0)

not_excluded : (a b : Bool) → (a && not b) ≡ true → b ≡ false
not_excluded a b h = ground arith

look-IsBounded :
    (settings : Settings) (robot_pk : ℕ) (db : Db) (s : RobotState)
    → s.phase ≡ Phase.looking
    → IsBounded settings s
    → IsBounded settings (look robot_pk db s)
unfolding look id_of
look-IsBounded settings robot_pk db s e v =
    after_look-IsBounded settings s v
      (id_of (next_pending_conversation db robot_pk s.turns s.active_conv_ids)) e fresh
  where
    fresh :
        (c : ℕ)
        → id_of (next_pending_conversation db robot_pk s.turns s.active_conv_ids) ≡ some c
        → workers_on c s.active_conv_ids ≡ 0
    fresh c h =
        elim (Option-cases (next_pending_conversation db robot_pk s.turns s.active_conv_ids)) [
          | inl n ↦ let p : none ≡ some c = ap id_of (sym n) ∙ h in absurd cc
          | inr (conv, n) ↦
              let same : some conv.id ≡ some c = ap id_of (sym n) ∙ h in
              let chosen =
                next_pending_conversation-IsChosen db robot_pk s.turns s.active_conv_ids conv n in
              let fresh_conv : workers_on conv.id s.active_conv_ids ≡ 0 =
                not_active conv.id s.active_conv_ids (not_excluded _ _ chosen.eligible) in
              let e : conv.id ≡ c = cc in
              subst (λ d. workers_on d s.active_conv_ids ≡ 0) e fresh_conv
        ]

wake_robot-IsBounded :
    (settings : Settings) (s : RobotState)
    → IsBounded settings s
    → IsBounded settings (wake_robot settings s)
unfolding wake_robot nudged
wake_robot-IsBounded settings s v =
    elim (Bool-cases (settings.auto_reply_enabled && settings.task_queue_enabled)) [
      | inl h ↦
          rw (h, wake_robot)
            (start-IsBounded settings (nudged settings s v) (nudged-IsBounded settings s v) s.phase
              refl)
      | inr h ↦ rw (h, wake_robot) v
    ]

Step-IsBounded :
    {settings : Settings} {robot_pk : ℕ} {s t : RobotState}
    → Step settings robot_pk s t
    → IsBounded settings s
    → IsBounded settings t
Step-IsBounded {settings} (wakes s) v = wake_robot-IsBounded settings s v
Step-IsBounded {settings} {robot_pk} (looks db s e) v = look-IsBounded settings robot_pk db s e v
Step-IsBounded {settings} (launches c s e f) v = launch-IsBounded settings s v c e f
Step-IsBounded {settings} (finishes c s a) v = finish-IsBounded settings s v c a
Step-IsBounded {settings} (reaps c s a) v = reap-IsBounded settings s v c a
Step-IsBounded {settings} (wakes_up s e w) v = woken-IsBounded settings s v
Step-IsBounded {settings} (times_out s e) v = timed_out-IsBounded settings s v s.workers refl

-- In whatever order wake-ups, looks, starts and ends of workers and timeouts come, and whatever the
-- tables hold at each look: no conversation has two workers, at most as many workers are active as
-- the semaphore has permits, and a dispatcher that waits with the event unset has seen every wake-up.
pub Reach-IsBounded :
    {settings : Settings} {robot_pk : ℕ} {s : RobotState}
    → Reach settings robot_pk (new_state settings) s
    → IsBounded settings s
Reach-IsBounded {settings} here = new_state-IsBounded settings
Reach-IsBounded (next r st) = Step-IsBounded st (Reach-IsBounded r)
