-- ===== src/Notify/Center/Delivery.antt =====
-- notification_center with the execution threads of its units: what becomes of the messages to a
-- receiver.
use t2h.Common.{
  ℕ, suc, Bool-cases, inl, inr, if◌then◌else◌, ◌+◌, ◌≤◌, true, false, List, [], ◌∷◌, ◌++◌, none,
  some, Bytes, str_eq, str_eq_iff, find-assign_same, find-assign_other, find-erase_same,
  find-erase_other, length, length-append, replicate, append_assoc, append-nil, ◌≡◌, ◌≢◌, refl, sym,
  ap, ◌∙◌, arith,
}
use t2h.Notify.Unit.{
  Notification, NotificationUnit, NotificationUnitParam, notification_unit, execution_loop_run,
  accepts, begin_stop, move_all, at_wait, ended, execution_loop_exit, copy_pending_notifications,
  notify_receiver, add_notification, at_test, execution_loop, step, run, thread,
}
use t2h.Notify.Unit.Order.{hand_over, notify_all_lem, move_all_lem}
use t2h.Notify.Unit.Progress.{execution_loop-hands_over}
use t2h.Notify.Center.{
  NotificationCenter, unit_param, add_notification_receiver, send_message,
  remove_notification_receiver,
}
use t2h.Notify.Center.Posting.{unit_of, send_message_lem}

module _ {R A : Type 0} where
  -- The messages are sent one after the other.
  unfoldable pub send_all :
      NotificationCenter R A → Bytes → List (Notification A) → NotificationCenter R A
  send_all c name [] = c
  send_all c name (n ∷ ns) = send_all (send_message c name (some n)).0 name ns

  -- A unit that runs and has these notifications pending.
  abbrev holding : NotificationUnitParam → R → List (Notification A) → NotificationUnit R A
  holding p r ns = record {
    notifications = [];
    pending_notifications = ns;
    has_thread = true;
    stop_work = false;
    p = p;
    recv = r;
    handled = [];
  }

  taken_in :
      (p : NotificationUnitParam) (r : R) (ns : List (Notification A)) (n : Notification A)
      → length ns ≤ p.max_notifications
      → add_notification (holding p r ns) n ≡ holding p r (ns ++ n ∷ [])
  unfolding add_notification accepts
  taken_in p r ns n h = ground (arith, h)

  all_taken_in :
      (c : NotificationCenter R A) (name other : Bytes) (p : NotificationUnitParam) (r : R)
      (ps ns : List (Notification A))
      → name ≢ other
      → unit_of c name ≡ some (holding p r ps)
      → length ps + length ns ≤ suc p.max_notifications
      → (unit_of (send_all c name ns) name ≡ some (holding p r (ps ++ ns)))
        × (unit_of (send_all c name ns) other ≡ unit_of c other)
  unfolding send_all
  all_taken_in c name other p r ps [] d e h =
      (e ∙ ap (λ ms. some (holding p r ms)) (sym (append-nil ps)), refl)
  all_taken_in c name other p r ps (n ∷ ns) d e h =
      let (t, (f, g)) = (send_message_lem c name n).0 (holding p r ps) e in
      let k : length ps ≤ p.max_notifications = omega (arith, h) in
      let (a, b) =
        all_taken_in (send_message c name (some n)).0 name other p r (ps ++ n ∷ []) ns d
          (f ∙ ap some (taken_in p r ps n k)) (omega (arith, h, length-append ps (n ∷ []))) in
      (a ∙ ap (λ ms. some (holding p r ms)) (append_assoc ps (n ∷ []) ns), b ∙ g other d)

  module _ (on_notify : R → Notification A → R × Notification A) where
    -- A receiver that is added under a free name, and to whom at most one message more is sent than
    -- the configured number, gets all of them in their order: its unit's thread, which begins at the
    -- test of the loop, hands them over within five steps more than there are messages, with nobody
    -- else at work meanwhile, and has nothing queued then. Every other name keeps its unit.
    pub added-gets_messages :
        (hash : Bytes → ℕ) (c : NotificationCenter R A) (name other : Bytes) (recv : R)
        (n : Notification A) (ns : List (Notification A))
        → unit_of c name ≡ none
        → name ≢ other
        → length ns ≤ c.config.max_notifications_per_recv
        → let d = send_all (add_notification_receiver hash c (some (name, recv))).0 name (n ∷ ns) in
          ((u : NotificationUnit R A) × ((unit_of d name ≡ some u)
              × (let v = (run on_notify (u, at_test false) (replicate (6 + length ns) thread)).0 in
                  (v.recv ≡ hand_over on_notify (n ∷ ns) recv)
                  × ((v.notifications ≡ []) × (v.pending_notifications ≡ [])))))
          × (unit_of d other ≡ unit_of c other)
    unfolding add_notification_receiver notification_unit execution_loop_run run step execution_loop
    added-gets_messages hash c name other recv n ns e d h =
        let p = unit_param c.config in
        let c1 = (add_notification_receiver hash c (some (name, recv))).0 in
        let f : unit_of c1 name ≡ some (holding p recv []) =
          rw (e, add_notification_receiver)
            (find-assign_same str_eq str_eq_iff name _ c.receivers) in
        let g : unit_of c1 other ≡ unit_of c other =
          rw (e, add_notification_receiver)
            (find-assign_other str_eq str_eq_iff name other _ c.receivers d) in
        let six : 6 + length ns ≡ suc (5 + length ns) = omega arith in
        let (a, b) = all_taken_in c1 name other p recv [] (n ∷ ns) d f (omega (arith, h)) in
        (
          (
            holding p recv (n ∷ ns),
            (
              a,
              rw six (
                  execution_loop-hands_over on_notify (holding p recv (n ∷ ns)) n ns refl refl
                    refl),
            ),
          ),
          b ∙ g,
        )

    -- A unit that stops while its thread waits, and while the thread is at the test.
    stopped_waiting :
        (u : NotificationUnit R A) (n : Notification A) (ns : List (Notification A))
        → u.pending_notifications ≡ n ∷ ns
        → let s = run on_notify (record u { stop_work = true }, at_wait) (replicate 4 thread) in
          (s.1 ≡ ended) × (s.0.recv ≡ u.recv)
    unfolding run step execution_loop execution_loop_exit copy_pending_notifications
    stopped_waiting u n ns e = elim (Bool-cases u.p.execute_all_notification_at_exit) [
      | inl f ↦ rw (e, f) (refl, refl)
      | inr f ↦ rw (e, f) (refl, refl)
    ]

    stopped_testing :
        (u : NotificationUnit R A) (n : Notification A) (ns : List (Notification A))
        → u.notifications ≡ []
        → u.pending_notifications ≡ n ∷ ns
        → let s =
            run on_notify (record u { stop_work = true }, at_test false) (replicate 2 thread) in
          (s.1 ≡ ended)
          × (s.0.recv ≡ (
              if u.p.execute_all_notification_at_exit
              then hand_over on_notify (n ∷ ns) u.recv
              else u.recv))
    unfolding run step execution_loop execution_loop_exit copy_pending_notifications notify_receiver
    stopped_testing u n ns d e = elim (Bool-cases u.p.execute_all_notification_at_exit) [
      | inl f ↦
          rw (e, f, d)
            (
              refl,
              (notify_all_lem on_notify _ (move_all [] (n ∷ ns)) refl).2
                  ∙ ap (λ ms. hand_over on_notify ms u.recv) (move_all_lem [] (n ∷ ns)),
            )
      | inr f ↦ rw (e, f) (refl, refl)
    ]

    -- A receiver is removed whose unit runs, with an empty queue and something pending. The name has no
    -- unit then, and every other name keeps its own. The unit's thread ends. If it was in its wait, the
    -- pending notifications are moved to the queue and never handed over, whatever the configuration
    -- says of them; if it was at the test with nothing seen, they are handed over in their order where
    -- the configuration asks for that, and dropped where it does not.
    pub removed-loses_messages :
        (c : NotificationCenter R A) (name other : Bytes) (u : NotificationUnit R A)
        (n : Notification A) (ns : List (Notification A))
        → unit_of c name ≡ some u
        → name ≢ other
        → u.has_thread ≡ true
        → u.notifications ≡ []
        → u.pending_notifications ≡ n ∷ ns
        → let (d, gone) = remove_notification_receiver c name in
          (unit_of d name ≡ none)
          × ((unit_of d other ≡ unit_of c other)
              × ((v : NotificationUnit R A) × ((gone ≡ some v)
                    × (let waited = run on_notify (v, at_wait) (replicate 4 thread) in
                        let tested = run on_notify (v, at_test false) (replicate 2 thread) in
                        ((waited.1 ≡ ended) × (waited.0.recv ≡ u.recv))
                        × ((tested.1 ≡ ended)
                            × (tested.0.recv ≡ (
                                if u.p.execute_all_notification_at_exit
                                then hand_over on_notify (n ∷ ns) u.recv
                                else u.recv)))))))
    unfolding remove_notification_receiver begin_stop
    removed-loses_messages c name other u n ns e d t q f = (
      find-erase_same str_eq str_eq_iff name c.receivers,
      (
        find-erase_other str_eq str_eq_iff name other c.receivers d,
        (
          record u { stop_work = true },
          (
            rw (e, remove_notification_receiver) (rw (t, begin_stop) refl),
            (stopped_waiting u n ns f, stopped_testing u n ns q f),
          ),
        ),
      ),
    )
