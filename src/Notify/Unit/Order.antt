-- ===== src/Notify/Unit/Order.antt =====
-- notification_unit: in which order the receiver is handed what the senders gave, with the senders'
-- calls between any two steps of the execution thread.
use t2h.Common.{
  true, List, [], ◌∷◌, ◌++◌, ◌≡◌, refl, sym, ap, ◌∙◌, if◌then◌else◌, append-nil, append_assoc, ◌||◌,
  List-cases, Bool-cases, inl, inr, arith,
}
use t2h.Notify.Unit.{
  NotificationState, ignore, executeable, done, unknown, is_not_ignore, is_not_done, Notification,
  NotificationUnit, Place, at_test, at_wait, at_notify, at_copy, at_exit, ended, accepts,
  add_notification, begin_stop, move_all, copy_pending_notifications, notify_front, notify_all,
  notify_receiver, execution_loop_exit, execution_loop, Move, sends, thread, stops, step, run,
}

pub move_all_lem {ℓ} :
    {A : Type ℓ} (to from : List (Notification A)) → move_all to from ≡ to ++ from
unfolding move_all
move_all_lem to [] = sym (append-nil to)
move_all_lem to (n ∷ from) = rw (move_all_lem (to ++ n ∷ []) from) (append_assoc to (n ∷ []) from)

module _ {ℓ} {R A : Type ℓ} where
  unfoldable pub queued : NotificationUnit R A → List (Notification A)
  queued u = u.notifications ++ u.pending_notifications

  module _ (on_notify : R → Notification A → R × Notification A) where
    -- What a receiver is after it was handed these one by one.
    unfoldable pub hand_over : List (Notification A) → R → R
    hand_over [] r = r
    hand_over (n ∷ ns) r = hand_over ns (on_notify r n).0

    pub hand_over-append :
        (ns ms : List (Notification A)) (r : R)
        → hand_over (ns ++ ms) r ≡ hand_over ms (hand_over ns r)
    unfolding hand_over
    hand_over-append [] ms r = refl
    hand_over-append (n ∷ ns) ms r = hand_over-append ns ms (on_notify r n).0

    -- What the unit takes of the calls of `add_notification` in a run.
    unfoldable pub accepted :
        NotificationUnit R A × Place → List (Move on_notify) → List (Notification A)
    accepted s [] = []
    accepted s (sends n ∷ xs) =
        let rest = accepted (step on_notify s (sends n)) xs in
        if accepts s.0 then n ∷ rest else rest
    accepted s (thread ∷ xs) = accepted (step on_notify s thread) xs
    accepted s (stops ∷ xs) = accepted (step on_notify s stops) xs

    -- What the receiver will be when everything queued is handed over.
    unfoldable pub outcome : NotificationUnit R A → R
    unfolding queued
    outcome u = hand_over (queued u) u.recv

    always_notified : (s : NotificationState) → (is_not_ignore s || is_not_done s) ≡ true
    always_notified ignore = refl
    always_notified executeable = refl
    always_notified done = refl
    always_notified unknown = refl

    pub notify_front_lem :
        (u : NotificationUnit R A) (n : Notification A) (ns : List (Notification A))
        → ((notify_front on_notify u n ns).notifications ≡ ns)
          × ((notify_front on_notify u n ns).pending_notifications ≡ u.pending_notifications)
          × ((notify_front on_notify u n ns).recv ≡ (on_notify u.recv n).0)
          × ((notify_front on_notify u n ns).stop_work ≡ u.stop_work)
    unfolding notify_front
    notify_front_lem u n ns = rw (always_notified n.state) (refl, refl, refl, refl)

    pub notify_all_lem :
        (u : NotificationUnit R A) (ns : List (Notification A))
        → u.notifications ≡ ns
        → ((notify_all on_notify u ns).notifications ≡ [])
          × ((notify_all on_notify u ns).pending_notifications ≡ u.pending_notifications)
          × ((notify_all on_notify u ns).recv ≡ hand_over ns u.recv)
    unfolding notify_all hand_over
    notify_all_lem u [] e = (e, refl, refl)
    notify_all_lem u (n ∷ ns) e =
        let (a, b, c, d) = notify_front_lem u n ns in
        let (f, g, h) = notify_all_lem (notify_front on_notify u n ns) ns a in
        (f, g ∙ b, h ∙ ap (hand_over ns) c)

    copy_lem : (u : NotificationUnit R A) → outcome (copy_pending_notifications u).0 ≡ outcome u
    unfolding outcome queued copy_pending_notifications
    copy_lem u = elim (List-cases u.pending_notifications) [
      | inl e ↦ rw e refl
      | inr (n, (ns, e)) ↦
          rw (e, move_all_lem u.notifications (n ∷ ns))
            (rw (append-nil (u.notifications ++ n ∷ ns)) refl)
    ]

    notify_receiver_lem :
        (u : NotificationUnit R A) → outcome (notify_receiver on_notify u) ≡ outcome u
    unfolding notify_receiver outcome queued
    notify_receiver_lem u =
        let (f, g, h) = notify_all_lem u u.notifications refl in
        rw (f, g, h) (sym (hand_over-append u.notifications u.pending_notifications u.recv))

    exit_lem : (u : NotificationUnit R A) → outcome (execution_loop_exit on_notify u) ≡ outcome u
    unfolding execution_loop_exit
    exit_lem u = ground (arith, copy_lem u, notify_receiver_lem (copy_pending_notifications u).0)

    front_lem :
        (u : NotificationUnit R A) (n : Notification A) (ns : List (Notification A))
        → u.notifications ≡ n ∷ ns
        → outcome (notify_front on_notify u n ns) ≡ outcome u
    unfolding outcome queued hand_over
    front_lem u n ns e = let (a, b, c, d) = notify_front_lem u n ns in rw (a, b, c, e) refl

    thread_lem :
        (u : NotificationUnit R A) (at : Place)
        → outcome (execution_loop on_notify u at).0 ≡ outcome u
    unfolding execution_loop
    thread_lem u (at_test b) = ground arith
    thread_lem u at_wait = refl
    thread_lem u at_notify = elim (List-cases u.notifications) [
      | inl e ↦ ground arith
      | inr (n, (ns, e)) ↦ ground (arith, front_lem u n ns e)
    ]
    thread_lem u at_copy = copy_lem u
    thread_lem u at_exit = exit_lem u
    thread_lem u ended = refl

    add_lem :
        (u : NotificationUnit R A) (n : Notification A)
        → outcome (add_notification u n) ≡ hand_over (if accepts u then n ∷ [] else []) (outcome u)
    unfolding add_notification outcome queued hand_over
    add_lem u n = elim (Bool-cases (accepts u)) [
      | inl e ↦
          rw (e, add_notification)
            (rw⁻¹ (append_assoc u.notifications u.pending_notifications (n ∷ []))
              (hand_over-append (queued u) (n ∷ []) u.recv))
      | inr e ↦ rw (e, add_notification) refl
    ]

    stop_lem : (u : NotificationUnit R A) → outcome (begin_stop u) ≡ outcome u
    unfolding begin_stop outcome queued
    stop_lem u = ground arith

    run_lem :
        (s : NotificationUnit R A × Place) (xs : List (Move on_notify))
        → outcome (run on_notify s xs).0 ≡ hand_over (accepted s xs) (outcome s.0)
    unfolding run accepted step hand_over
    run_lem s [] = refl
    run_lem (u, at) (sends n ∷ xs) =
        ground (arith, run_lem (add_notification u n, at) xs, add_lem u n)
    run_lem (u, at) (thread ∷ xs) =
        run_lem (execution_loop on_notify u at) xs
        ∙ ap (hand_over (accepted (execution_loop on_notify u at) xs)) (thread_lem u at)
    run_lem (u, at) (stops ∷ xs) =
        run_lem (begin_stop u, at) xs ∙ ap (hand_over (accepted (begin_stop u, at) xs)) (stop_lem u)

    -- Whatever the order in which senders, the execution thread and the destructor take their turns,
    -- handing over what is queued leaves the receiver as if it were handed, once each and in this
    -- order, what was queued at first and every notification accepted since.
    pub run-outcome :
        (u : NotificationUnit R A) (at : Place) (xs : List (Move on_notify))
        → outcome (run on_notify (u, at) xs).0 ≡ hand_over (queued u ++ accepted (u, at) xs) u.recv
    unfolding outcome
    run-outcome u at xs =
        run_lem (u, at) xs ∙ sym (hand_over-append (queued u) (accepted (u, at) xs) u.recv)
