-- ===== src/Notify/Unit.antt =====
-- src/common/notification_model/notification_unit.cpp, notification_unit.hpp and
-- base_notification.hpp. Each operation is what runs under one lock; the execution thread is a
-- program counter, and other threads' calls come between its steps.
pub mod Order
pub mod Progress
use t2h.Common.{
  ℕ, Bool, true, false, not, ◌&&◌, ◌||◌, List, [], ◌∷◌, ◌++◌, leb, length, if◌then◌else◌,
}

-- base_notification::notification_state
pub data NotificationState : Type 0 where
  ignore executeable done unknown : NotificationState

pub record Notification {ℓ} (A : Type ℓ) : Type ℓ where
  pub state : NotificationState
  pub content : A

pub record NotificationUnitParam : Type 0 where
  pub change_state_auto : Bool
  pub execute_all_notification_at_exit : Bool
  pub max_notifications : ℕ

-- `recv` is the state of the receiver, `handled` are the objects that the unit has dropped, which
-- their senders may still hold, as it left them.
pub record NotificationUnit {ℓ} (R A : Type ℓ) : Type ℓ where
  pub notifications : List (Notification A)
  pub pending_notifications : List (Notification A)
  pub has_thread : Bool
  pub stop_work : Bool
  pub p : NotificationUnitParam
  pub recv : R
  pub handled : List (Notification A)

abbrev pub is_not_ignore : NotificationState → Bool
is_not_ignore ignore = false
is_not_ignore _ = true

abbrev pub is_not_done : NotificationState → Bool
is_not_done done = false
is_not_done _ = true

-- Where the execution thread is: at the test of `stop_work` with its local variable, in the wait, at
-- the head of the queue, at the copy, behind the loop, and behind the function.
pub data Place : Type 0 where
  at_test : Bool → Place
  at_wait at_notify at_copy at_exit ended : Place

-- The loop that moves the pending notifications behind the others.
unfoldable pub move_all {ℓ} :
    {A : Type ℓ} → List (Notification A) → List (Notification A) → List (Notification A)
move_all to [] = to
move_all to (n ∷ from) = move_all (to ++ n ∷ []) from

module _ {ℓ} {R A : Type ℓ} where
  unfoldable pub notification_unit : NotificationUnitParam → R → NotificationUnit R A
  notification_unit p r = record {
    notifications = [];
    pending_notifications = [];
    has_thread = false;
    stop_work = true;
    p = p;
    recv = r;
    handled = [];
  }

  unfoldable pub accepts : NotificationUnit R A → Bool
  accepts u = not u.stop_work && leb (length u.pending_notifications) u.p.max_notifications

  unfoldable pub add_notification : NotificationUnit R A → Notification A → NotificationUnit R A
  unfolding accepts
  add_notification u n =
      if accepts u
      then record u { pending_notifications = u.pending_notifications ++ n ∷ [] }
      else u

  unfoldable pub execution_loop_run : NotificationUnit R A → NotificationUnit R A
  execution_loop_run u =
      if u.stop_work then record u { stop_work = false; has_thread = true } else u

  -- The start of the destructor, up to the join.
  unfoldable pub begin_stop : NotificationUnit R A → NotificationUnit R A
  begin_stop u = if u.has_thread then record u { stop_work = true } else u

  unfoldable pub copy_pending_notifications : NotificationUnit R A → NotificationUnit R A × Bool
  copy_pending_notifications u = elim u.pending_notifications [
    | [] ↦ (u, false)
    | n ∷ ns ↦ (
      record u { notifications = move_all u.notifications (n ∷ ns); pending_notifications = [] },
      true,
    )
  ]

  -- `on_notify` is the receiver's: its state and the notification's after the call.
  module _ (on_notify : R → Notification A → R × Notification A) where
    -- The body of the loop of `notify_receiver`, for the front `n` of the queue `ns`.
    unfoldable pub notify_front :
        NotificationUnit R A → Notification A → List (Notification A) → NotificationUnit R A
    notify_front u n ns =
        if is_not_ignore n.state || is_not_done n.state
        then record u {
          notifications = ns;
          recv = (on_notify u.recv n).0;
          handled =
              u.handled
              ++ (if u.p.change_state_auto
                  then record (on_notify u.recv n).1 { state = done }
                  else (on_notify u.recv n).1)
                ∷ [];
        }
        else record u { notifications = ns; handled = u.handled ++ n ∷ [] }

    unfoldable pub notify_all : NotificationUnit R A → List (Notification A) → NotificationUnit R A
    notify_all u [] = u
    notify_all u (n ∷ ns) = notify_all (notify_front u n ns) ns

    unfoldable pub notify_receiver : NotificationUnit R A → NotificationUnit R A
    notify_receiver u = notify_all u u.notifications

    unfoldable pub execution_loop_exit : NotificationUnit R A → NotificationUnit R A
    execution_loop_exit u =
        let q = copy_pending_notifications u in
        if u.p.execute_all_notification_at_exit && q.1 then notify_receiver q.0 else u

    -- One step of the execution thread.
    unfoldable pub execution_loop : NotificationUnit R A → Place → NotificationUnit R A × Place
    execution_loop u (at_test has_pending) =
        if u.stop_work then (u, at_exit) else if has_pending then (u, at_notify) else (u, at_wait)
    execution_loop u at_wait = (u, at_copy)
    execution_loop u at_notify = elim u.notifications [
      | [] ↦ (u, at_copy)
      | n ∷ ns ↦ (notify_front u n ns, at_notify)
    ]
    execution_loop u at_copy = let q = copy_pending_notifications u in (q.0, at_test q.1)
    execution_loop u at_exit = (execution_loop_exit u, ended)
    execution_loop u ended = (u, ended)

    -- What the threads of the program do with a unit.
    pub data Move : Type ℓ where
      sends : Notification A → Move
      thread : Move
      stops : Move

    unfoldable pub step : NotificationUnit R A × Place → Move → NotificationUnit R A × Place
    step (u, at) (sends n) = (add_notification u n, at)
    step (u, at) thread = execution_loop u at
    step (u, at) stops = (begin_stop u, at)

    unfoldable pub run : NotificationUnit R A × Place → List Move → NotificationUnit R A × Place
    run s [] = s
    run s (x ∷ xs) = run (step s x) xs
