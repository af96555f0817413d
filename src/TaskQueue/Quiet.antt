-- ===== src/TaskQueue/Quiet.antt =====
-- backend/app/services/task_queue.py: changes of the task table that start no task: the keys stay,
-- no row is added and no robot gets one more running.
use wecom_ai_agent.Prelude.{
  ℕ, ◌≤◌, ◌<◌, ◌≡◌, refl, inl, inr, Bool, true, List, [], ◌∷◌, arith, count, length, All, subst,
  sym, if_elim, String, Option, none, some, any, ◌==◌, ◌&&◌, ◌||◌, false, Bool-cases,
}
use wecom_ai_agent.Prelude.Table.{update, Keyed, Keyed-update, All-update, length-update}
use wecom_ai_agent.Prelude.Text.{Text}
use wecom_ai_agent.Store.{RobotTask, Settings, Db, task_key, Robot}
use wecom_ai_agent.TaskQueue.{
  running_of, is_active, is_terminal, cancel_row, fail_row, queued_row, mark_cancelled, mark_failed,
  enqueue, enqueue_found, cancel, cancel_checked,
}
use wecom_ai_agent.TaskQueue.Drain.{
  recovered_row, recover_rows, recover_pending_tasks, pending_rows,
}
use wecom_ai_agent.TaskQueue.Frame.{mark_cancelled_cases, mark_failed-tasks, audit-tasks}

-- Is a task with that id running?
abbrev pub runs : ℕ → List RobotTask → Bool
runs id xs = any (λ (t : RobotTask). (t.id == id) && is_active t.status) xs

pub record Quiet (xs ys : List RobotTask) : Type 0 where
  pub keyed : (n : ℕ) → Keyed task_key n xs → Keyed task_key n ys
  pub bounded : (n : ℕ) → All (λ t. t.id < n) xs → All (λ t. t.id < n) ys
  pub serial : (r : ℕ) → count (running_of r) ys ≤ count (running_of r) xs
  pub size : length ys ≡ length xs
  -- a task that does not run is not set running
  pub starts_none : (id : ℕ) → runs id xs ≡ false → runs id ys ≡ false

pub Quiet-refl : (xs : List RobotTask) → Quiet xs xs
Quiet-refl xs = record {
  keyed = λ n h. h;
  bounded = λ n h. h;
  serial = λ r. omega arith;
  size = refl;
  starts_none = λ id h. h;
}

pub Quiet-of_eq : (xs ys : List RobotTask) → ys ≡ xs → Quiet xs ys
Quiet-of_eq xs ys e = subst (Quiet xs) (sym e) (Quiet-refl xs)

pub Quiet-trans : {xs ys zs : List RobotTask} → Quiet xs ys → Quiet ys zs → Quiet xs zs
Quiet-trans p q = record {
  keyed = λ n h. q.keyed n (p.keyed n h);
  bounded = λ n h. q.bounded n (p.bounded n h);
  serial = λ r. omega (arith, p.serial r, q.serial r);
  size = omega (arith, p.size, q.size);
  starts_none = λ id h. q.starts_none id (p.starts_none id h);
}

-- A write of one row that does not set it running.
pub record IsCalm (f : RobotTask → RobotTask) : Type 0 where
  pub same_id : (t : RobotTask) → (f t).id ≡ t.id
  pub same_robot : (t : RobotTask) → (f t).robot_id ≡ t.robot_id
  pub calm : (t : RobotTask) → is_active (f t).status ≡ true → is_active t.status ≡ true

calm_counted :
    (r id : ℕ) (f : RobotTask → RobotTask) (xs : List RobotTask)
    → IsCalm f
    → count (running_of r) (update task_key id f xs) ≤ count (running_of r) xs
calm_counted r id f [] c = omega arith
calm_counted r id f (x ∷ xs) c = ground (arith, c.same_robot x, c.calm x, calm_counted r id f xs c)

or-false : (a b : Bool) → (a || b) ≡ false → (a ≡ false) × (b ≡ false)
or-false false b h = (refl, h)
or-false true b h = cc

calm_row :
    (k : ℕ) (f : RobotTask → RobotTask) (t : RobotTask)
    → IsCalm f
    → ((t.id == k) && is_active t.status) ≡ false
    → (((f t).id == k) && is_active (f t).status) ≡ false
calm_row k f t c h = rw (c.same_id t) (elim (Bool-cases (is_active (f t).status)) [
  | inl e ↦ rw e (rw (c.calm t e) at h)
  | inr e ↦ rw e (and_false (t.id == k))
])
  where
    and_false : (b : Bool) → (b && false) ≡ false
    and_false true = refl
    and_false false = refl

still_none :
    (k : ℕ) (t : RobotTask) (ts : List RobotTask)
    → ((t.id == k) && is_active t.status) ≡ false
    → runs k ts ≡ false
    → runs k (t ∷ ts) ≡ false
still_none k t ts a b = rw (a, b)

calm_starts_none :
    (id : ℕ) (f : RobotTask → RobotTask) (k : ℕ) (xs : List RobotTask)
    → IsCalm f
    → runs k xs ≡ false
    → runs k (update task_key id f xs) ≡ false
calm_starts_none id f k [] c h = refl
calm_starts_none id f k (x ∷ xs) c h =
    let (a, b) = or-false ((x.id == k) && is_active x.status) (runs k xs) h in
    let rest = calm_starts_none id f k xs c b in
    if_elim (λ (ts : List RobotTask). runs k ts ≡ false) (x.id == id)
      (still_none k (f x) xs (calm_row k f x c a) b)
      (still_none k x (update task_key id f xs) a rest)

pub Quiet-update :
    (id : ℕ) (f : RobotTask → RobotTask) (xs : List RobotTask)
    → IsCalm f
    → Quiet xs (update task_key id f xs)
Quiet-update id f xs c = record {
  keyed = λ n h. Keyed-update task_key n id f xs c.same_id h;
  bounded =
      λ n h. All-update task_key {P = λ t. t.id < n} id f xs (λ t k. ground (arith, c.same_id t)) h;
  serial = λ r. calm_counted r id f xs c;
  size = length-update task_key id f xs;
  starts_none = λ k h. calm_starts_none id f k xs c h;
}

pub Quiet-eq-update :
    (id : ℕ) (f : RobotTask → RobotTask) (xs ys : List RobotTask)
    → IsCalm f
    → ys ≡ update task_key id f xs
    → Quiet xs ys
Quiet-eq-update id f xs ys c e = subst (Quiet xs) (sym e) (Quiet-update id f xs c)

cancel_row-IsCalm : (message : Text) → IsCalm (cancel_row message)
unfolding cancel_row
cancel_row-IsCalm message = record {
  same_id = λ t. refl;
  same_robot = λ t. refl;
  calm = λ t h. ground arith;
}

fail_row-IsCalm : (message : Text) → IsCalm (fail_row message)
unfolding fail_row
fail_row-IsCalm message = record {
  same_id = λ t. refl;
  same_robot = λ t. refl;
  calm = λ t h. ground arith;
}

queued_row-IsCalm : (priority seq : ℕ) → IsCalm (queued_row priority seq)
unfolding queued_row
queued_row-IsCalm priority seq = record {
  same_id = λ t. refl;
  same_robot = λ t. refl;
  calm = λ t h. ground arith;
}

recovered_row-IsCalm : (seq : ℕ) → IsCalm (recovered_row seq)
unfolding recovered_row
recovered_row-IsCalm seq = record {
  same_id = λ t. refl;
  same_robot = λ t. refl;
  calm = λ t h. ground arith;
}

pub mark_cancelled-Quiet :
    (id : ℕ) (message : Text) (db : Db) → Quiet db.tasks (mark_cancelled id message db).tasks
mark_cancelled-Quiet id message db = elim (mark_cancelled_cases id message db) [
  | inl e ↦ Quiet-of_eq db.tasks _ e
  | inr e ↦ Quiet-eq-update id (cancel_row message) db.tasks _ (cancel_row-IsCalm message) e
]

pub mark_failed-Quiet :
    (id : ℕ) (message : Text) (db : Db) → Quiet db.tasks (mark_failed id message db).tasks
mark_failed-Quiet id message db =
    Quiet-eq-update id (fail_row message) db.tasks _ (fail_row-IsCalm message)
      (mark_failed-tasks id message db)

enqueue_found-Quiet :
    (robot_id : String) (id priority : ℕ) (row : Option (RobotTask × Robot)) (db : Db)
    → Quiet db.tasks (enqueue_found robot_id id priority row db).tasks
unfolding enqueue_found
enqueue_found-Quiet robot_id id priority none db = Quiet-refl db.tasks
enqueue_found-Quiet robot_id id priority (some (task, robot)) db =
    if_elim (λ (d : Db). Quiet db.tasks d.tasks) (is_terminal task.status) (Quiet-refl db.tasks)
      (Quiet-eq-update id (queued_row priority _) db.tasks _ (queued_row-IsCalm priority _)
        (audit-tasks id "info" _ _))

pub enqueue-Quiet :
    (settings : Settings) (robot_id : String) (id priority : ℕ) (db : Db)
    → Quiet db.tasks (enqueue settings robot_id id priority db).tasks
unfolding enqueue
enqueue-Quiet settings robot_id id priority db =
    if_elim (λ (d : Db). Quiet db.tasks d.tasks) settings.task_queue_enabled
      (enqueue_found-Quiet robot_id id priority _ db) (mark_cancelled-Quiet id _ db)

cancel_checked-Quiet :
    (id : ℕ) (row : Option (RobotTask × Robot)) (db : Db)
    → Quiet db.tasks (cancel_checked id (λ d. d) row db).0.tasks
unfolding cancel_checked
cancel_checked-Quiet id none db = Quiet-refl db.tasks
cancel_checked-Quiet id (some (task, robot)) db =
    if_elim (λ (r : Db × Bool). Quiet db.tasks r.0.tasks) (is_terminal task.status)
      (Quiet-refl db.tasks)
      (if_elim (λ (r : Db × Bool). Quiet db.tasks r.0.tasks) (is_active task.status)
        (Quiet-refl db.tasks) (mark_cancelled-Quiet id _ db))

pub cancel-Quiet :
    (robot_id : String) (id : ℕ) (db : Db) → Quiet db.tasks (cancel robot_id id (λ d. d) db).0.tasks
unfolding cancel
cancel-Quiet robot_id id db = cancel_checked-Quiet id _ db

pub recover_rows-Quiet :
    (rows : List RobotTask) (db : Db) → Quiet db.tasks (recover_rows rows db).tasks
unfolding recover_rows
recover_rows-Quiet [] db = Quiet-refl db.tasks
recover_rows-Quiet (t ∷ ts) db =
    Quiet-trans (Quiet-update t.id (recovered_row _) db.tasks (recovered_row-IsCalm _))
      (recover_rows-Quiet ts _)

pub recover_pending_tasks-Quiet :
    (settings : Settings) (db : Db) → Quiet db.tasks (recover_pending_tasks settings db).0.tasks
unfolding recover_pending_tasks
recover_pending_tasks-Quiet settings db =
    if_elim (λ (r : Db × ℕ). Quiet db.tasks r.0.tasks) settings.task_queue_enabled
      (recover_rows-Quiet (pending_rows db) db) (Quiet-refl db.tasks)
