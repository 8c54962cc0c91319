-- ===== src/Notify/Tests.antt =====
-- Tests of the notification model, on a receiver that writes down what it is handed.
use t2h.Common.{
  ℕ, true, false, List, [], ◌∷◌, ◌++◌, none, some, Bytes, codes, find, str_eq, ◌≡◌, refl, ◌≢◌,
  length, replicate, arith,
}
use t2h.Notify.Unit.{
  Notification, NotificationUnit, NotificationUnitParam, notification_unit, executeable, accepts,
  add_notification, execution_loop_run, Move, sends, thread, run, step, at_wait, ended, at_test,
  execution_loop, copy_pending_notifications, move_all,
}
use t2h.Notify.Unit.Order.{outcome, hand_over, queued, accepted, run-outcome}
use t2h.Notify.Unit.Progress.{IsBounded, run-IsBounded, execution_loop-hands_over}
use t2h.Notify.Center.{
  NotificationCenter, NotificationCenterConfig, add_notification_receiver, send_message, unit_param,
  remove_notification_receiver,
}
use t2h.Notify.Center.Delivery.{send_all, added-gets_messages, removed-loses_messages}
use t2h.Notify.Center.Posting.{send_message_lem, add_remove_receiver}

abbrev writes_down : List ℕ → Notification ℕ → List ℕ × Notification ℕ
writes_down r n = (r ++ n.content ∷ [], n)

abbrev note : ℕ → Notification ℕ
note k = record { state = executeable; content = k }

abbrev small_param : NotificationUnitParam
small_param = record {
  change_state_auto = true;
  execute_all_notification_at_exit = false;
  max_notifications = 1;
}

abbrev nothing : List ℕ
nothing = []

abbrev idle_unit : NotificationUnit (List ℕ) ℕ
unfolding execution_loop_run notification_unit
idle_unit = execution_loop_run (notification_unit small_param nothing)

-- The bound of one lets two notifications wait, and the third is dropped.
abbrev three_sent : List (Move writes_down)
three_sent = sends (note 1) ∷ sends (note 2) ∷ sends (note 3) ∷ thread ∷ thread ∷ thread ∷ []

three_sent_test : accepted writes_down (idle_unit, at_test false) three_sent ≡ note 1 ∷ note 2 ∷ []
unfolding accepted step add_notification accepts execution_loop copy_pending_notifications move_all
    execution_loop_run notification_unit
three_sent_test = refl

run-outcome_example :
    outcome writes_down (run writes_down (idle_unit, at_test false) three_sent).0
    ≡ hand_over writes_down
        (queued idle_unit ++ accepted writes_down (idle_unit, at_test false) three_sent)
        nothing
unfolding execution_loop_run notification_unit
run-outcome_example = run-outcome writes_down idle_unit (at_test false) three_sent

run-IsBounded_example : IsBounded (run writes_down (idle_unit, at_test false) three_sent).0
unfolding execution_loop_run notification_unit
run-IsBounded_example = run-IsBounded writes_down idle_unit (at_test false) three_sent (omega arith)

abbrev waiting_unit : NotificationUnit (List ℕ) ℕ
waiting_unit = record {
  notifications = [];
  pending_notifications = note 1 ∷ note 2 ∷ [];
  has_thread = true;
  stop_work = false;
  p = small_param;
  recv = [];
  handled = [];
}

execution_loop-hands_over_example :
    let v = (run writes_down (waiting_unit, at_wait) (replicate 6 thread)).0 in
    (v.recv ≡ hand_over writes_down (note 1 ∷ note 2 ∷ []) nothing)
    × ((v.notifications ≡ []) × (v.pending_notifications ≡ []))
execution_loop-hands_over_example =
    execution_loop-hands_over writes_down waiting_unit (note 1) (note 2 ∷ []) refl refl refl

abbrev core_config : NotificationCenterConfig
core_config = record {
  max_notifications_per_recv = 1000;
  execute_notification_at_recv_gone = false;
}

abbrev one_receiver : NotificationCenter (List ℕ) ℕ
one_receiver = record { config = core_config; receivers = (codes "a", idle_unit) ∷ [] }

send_message_lem_test :
    let r = send_message one_receiver (codes "a") (some (note 4)) in
    (r.1 ≡ true)
    × ((find str_eq (codes "a") r.0.receivers ≡ some (add_notification idle_unit (note 4)))
        × ((other : Bytes)
            → codes "a" ≢ other
            → find str_eq other r.0.receivers ≡ find str_eq other one_receiver.receivers))
unfolding find str_eq
send_message_lem_test = (send_message_lem one_receiver (codes "a") (note 4)).0 idle_unit refl

add_remove_receiver_test :
    let r = add_notification_receiver length one_receiver (some (codes "ab", nothing)) in
    (find str_eq (codes "ab") one_receiver.receivers ≡ none
      → find str_eq (codes "ab") r.0.receivers
        ≡ some (execution_loop_run (notification_unit (unit_param core_config) nothing)))
    × (((u : NotificationUnit (List ℕ) ℕ)
          → find str_eq (codes "ab") one_receiver.receivers ≡ some u
          → r ≡ (one_receiver, (0, false)))
        × ((find str_eq (codes "a") r.0.receivers ≡ find str_eq (codes "a") one_receiver.receivers)
            × ((find str_eq
                    (codes "ab")
                    (remove_notification_receiver one_receiver (codes "ab")).0.receivers
                  ≡ none)
                × (find str_eq
                      (codes "a")
                      (remove_notification_receiver one_receiver (codes "ab")).0.receivers
                    ≡ find str_eq (codes "a") one_receiver.receivers))))
add_remove_receiver_test =
    add_remove_receiver length one_receiver (codes "ab") (codes "a") nothing (λ e. ground arith)

-- Two messages for a receiver that was added beside another one.
added-gets_messages_example :
    let d =
      send_all
        (add_notification_receiver length one_receiver (some (codes "ab", nothing))).0
        (codes "ab")
        (note 1 ∷ note 2 ∷ []) in
    ((u : NotificationUnit (List ℕ) ℕ) × ((find str_eq (codes "ab") d.receivers ≡ some u)
        × (let v = (run writes_down (u, at_test false) (replicate 7 thread)).0 in
            (v.recv ≡ hand_over writes_down (note 1 ∷ note 2 ∷ []) nothing)
            × ((v.notifications ≡ []) × (v.pending_notifications ≡ [])))))
    × (find str_eq (codes "a") d.receivers ≡ find str_eq (codes "a") one_receiver.receivers)
unfolding find str_eq
added-gets_messages_example =
    added-gets_messages writes_down length one_receiver (codes "ab") (codes "a") nothing (note 1)
      (note 2 ∷ []) refl (λ e. ground arith) (omega arith)

-- A unit with two notifications pending, whose configuration asks for them at the end.
abbrev leaving_unit : NotificationUnit (List ℕ) ℕ
leaving_unit = record {
  notifications = [];
  pending_notifications = note 1 ∷ note 2 ∷ [];
  has_thread = true;
  stop_work = false;
  p = record {
    change_state_auto = true;
    execute_all_notification_at_exit = true;
    max_notifications = 1;
  };
  recv = nothing;
  handled = [];
}

abbrev leaving : NotificationCenter (List ℕ) ℕ
leaving = record {
  config = core_config;
  receivers = (codes "a", idle_unit) ∷ (codes "ab", leaving_unit) ∷ [];
}

removed-loses_messages_example :
    let (d, gone) = remove_notification_receiver leaving (codes "ab") in
    (find str_eq (codes "ab") d.receivers ≡ none)
    × ((find str_eq (codes "a") d.receivers ≡ find str_eq (codes "a") leaving.receivers)
        × ((v : NotificationUnit (List ℕ) ℕ) × ((gone ≡ some v)
              × (let waited = run writes_down (v, at_wait) (replicate 4 thread) in
                  let tested = run writes_down (v, at_test false) (replicate 2 thread) in
                  ((waited.1 ≡ ended) × (waited.0.recv ≡ nothing))
                  × ((tested.1 ≡ ended)
                      × (tested.0.recv ≡ hand_over writes_down (note 1 ∷ note 2 ∷ []) nothing))))))
unfolding find str_eq
removed-loses_messages_example =
    removed-loses_messages writes_down leaving (codes "ab") (codes "a") leaving_unit (note 1)
      (note 2 ∷ []) refl (λ e. ground arith) refl refl refl
