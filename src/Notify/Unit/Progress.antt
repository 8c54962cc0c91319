-- ===== src/Notify/Unit/Progress.antt =====
-- notification_unit: the bound on its queue, and the execution thread's progress.
use t2h.Common.{
  suc, ◌+◌, ◌≤◌, false, List, [], ◌∷◌, ◌++◌, ◌≡◌, refl, ap, ◌∙◌, length, replicate, length-append,
  List-cases, inl, inr, arith,
}
use t2h.Notify.Unit.{
  Notification, NotificationUnit, Place, at_test, at_wait, at_notify, at_copy, at_exit, ended,
  accepts, add_notification, begin_stop, move_all, copy_pending_notifications, notify_front,
  notify_all, notify_receiver, execution_loop_exit, execution_loop, Move, sends, thread, stops,
  step, run,
}
use t2h.Notify.Unit.Order.{move_all_lem, notify_front_lem, hand_over, notify_all_lem}

module _ {ℓ} {R A : Type ℓ} where
  abbrev pub IsBounded : NotificationUnit R A → Type 0
  IsBounded u = length u.pending_notifications ≤ u.p.max_notifications + 1

  module _ (on_notify : R → Notification A → R × Notification A) where
    notify_front-IsBounded :
        (u : NotificationUnit R A) (n : Notification A) (ns : List (Notification A))
        → IsBounded u
        → IsBounded (notify_front on_notify u n ns)
    unfolding notify_front
    notify_front-IsBounded u n ns h = ground arith

    notify_all-IsBounded :
        (u : NotificationUnit R A) (ns : List (Notification A))
        → IsBounded u
        → IsBounded (notify_all on_notify u ns)
    unfolding notify_all
    notify_all-IsBounded u [] h = h
    notify_all-IsBounded u (n ∷ ns) h =
        notify_all-IsBounded (notify_front on_notify u n ns) ns (notify_front-IsBounded u n ns h)

    copy-IsBounded :
        (u : NotificationUnit R A) → IsBounded u → IsBounded (copy_pending_notifications u).0
    unfolding copy_pending_notifications
    copy-IsBounded u h = elim (List-cases u.pending_notifications) [
      | inl e ↦ ground arith
      | inr (n, (ns, e)) ↦ ground arith
    ]

    execution_loop-IsBounded :
        (u : NotificationUnit R A) (at : Place)
        → IsBounded u
        → IsBounded (execution_loop on_notify u at).0
    unfolding execution_loop execution_loop_exit notify_receiver
    execution_loop-IsBounded u (at_test b) h = ground arith
    execution_loop-IsBounded u at_wait h = h
    execution_loop-IsBounded u at_notify h = elim (List-cases u.notifications) [
      | inl e ↦ ground arith
      | inr (n, (ns, e)) ↦ ground (arith, notify_front-IsBounded u n ns h)
    ]
    execution_loop-IsBounded u at_copy h = copy-IsBounded u h
    execution_loop-IsBounded u at_exit h = ground (
      arith,
      copy-IsBounded u h,
      notify_all-IsBounded (copy_pending_notifications u).0
          (copy_pending_notifications u).0.notifications (copy-IsBounded u h),
    )
    execution_loop-IsBounded u ended h = h

    add-IsBounded :
        (u : NotificationUnit R A) (n : Notification A)
        → IsBounded u
        → IsBounded (add_notification u n)
    unfolding add_notification accepts
    add-IsBounded u n h = ground (arith, length-append u.pending_notifications (n ∷ []))

    begin_stop-IsBounded : (u : NotificationUnit R A) → IsBounded u → IsBounded (begin_stop u)
    unfolding begin_stop
    begin_stop-IsBounded u h = ground arith

    -- No turn of any thread makes the pending queue longer than one more than `max_notifications`.
    pub run-IsBounded :
        (u : NotificationUnit R A) (at : Place) (xs : List (Move on_notify))
        → IsBounded u
        → IsBounded (run on_notify (u, at) xs).0
    unfolding run step
    run-IsBounded u at [] h = h
    run-IsBounded u at (sends n ∷ xs) h =
        run-IsBounded (add_notification u n) at xs (add-IsBounded u n h)
    run-IsBounded u at (thread ∷ xs) h =
        run-IsBounded (execution_loop on_notify u at).0 (execution_loop on_notify u at).1 xs
          (execution_loop-IsBounded u at h)
    run-IsBounded u at (stops ∷ xs) h =
        run-IsBounded (begin_stop u) at xs (begin_stop-IsBounded u h)

    deliver :
        (u : NotificationUnit R A) (n : Notification A) (ns : List (Notification A))
        → u.notifications ≡ n ∷ ns
        → execution_loop on_notify u at_notify ≡ (notify_front on_notify u n ns, at_notify)
    unfolding execution_loop
    deliver u n ns e = ground arith

    loop_queue :
        (u : NotificationUnit R A) (ns : List (Notification A))
        → u.notifications ≡ ns
        → run on_notify (u, at_notify) (replicate (suc (length ns)) thread)
          ≡ (notify_all on_notify u ns, at_copy)
    unfolding run step execution_loop notify_all
    loop_queue u [] e = ground arith
    loop_queue u (n ∷ ns) e =
        ap (λ s. run on_notify s (replicate (suc (length ns)) thread)) (deliver u n ns e)
        ∙ loop_queue (notify_front on_notify u n ns) ns (notify_front_lem on_notify u n ns).0

    copied : NotificationUnit R A → List (Notification A) → NotificationUnit R A
    copied u ns = record u {
      notifications = move_all u.notifications ns;
      pending_notifications = [];
    }

    copies :
        (u : NotificationUnit R A) (n : Notification A) (ns : List (Notification A))
        → u.stop_work ≡ false
        → u.pending_notifications ≡ n ∷ ns
        → run on_notify (u, at_wait) (thread ∷ thread ∷ thread ∷ [])
          ≡ (copied u (n ∷ ns), at_notify)
    unfolding run step execution_loop copy_pending_notifications copied
    copies u n ns a c = ground arith

    run-append :
        (s : NotificationUnit R A × Place) (xs ys : List (Move on_notify))
        → run on_notify s (xs ++ ys) ≡ run on_notify (run on_notify s xs) ys
    unfolding run
    run-append s [] ys = refl
    run-append s (x ∷ xs) ys = run-append (step on_notify s x) xs ys

    all_moved :
        (u : NotificationUnit R A) (n : Notification A) (ns : List (Notification A))
        → u.notifications ≡ []
        → move_all u.notifications (n ∷ ns) ≡ n ∷ ns
    all_moved u n ns b = move_all_lem u.notifications (n ∷ ns) ∙ ap (λ q. q ++ n ∷ ns) b

    emptied :
        (u : NotificationUnit R A) (n : Notification A) (ns : List (Notification A))
        → u.stop_work ≡ false
        → u.notifications ≡ []
        → u.pending_notifications ≡ n ∷ ns
        → run on_notify (u, at_wait) (replicate (5 + length ns) thread)
          ≡ (notify_all on_notify (copied u (n ∷ ns)) (n ∷ ns), at_copy)
    unfolding copied
    emptied u n ns a b c =
        ap (λ k. run on_notify (u, at_wait) (replicate k thread)) five
        ∙ run-append (u, at_wait) (thread ∷ thread ∷ thread ∷ [])
            (replicate (suc (suc (length ns))) thread)
        ∙ ap (λ s. run on_notify s (replicate (suc (suc (length ns))) thread)) (copies u n ns a c)
        ∙ loop_queue (copied u (n ∷ ns)) (n ∷ ns) (all_moved u n ns b)
      where
        five : 5 + length ns ≡ suc (suc (suc (suc (suc (length ns)))))
        five = omega arith

    -- With nobody else at work, a unit that runs and waits with something pending hands all of it to
    -- the receiver, in order, within four steps more than there are notifications, and has nothing
    -- queued then.
    pub execution_loop-hands_over :
        (u : NotificationUnit R A) (n : Notification A) (ns : List (Notification A))
        → u.stop_work ≡ false
        → u.notifications ≡ []
        → u.pending_notifications ≡ n ∷ ns
        → let v = (run on_notify (u, at_wait) (replicate (5 + length ns) thread)).0 in
          (v.recv ≡ hand_over on_notify (n ∷ ns) u.recv)
          × ((v.notifications ≡ []) × (v.pending_notifications ≡ []))
    unfolding copied
    execution_loop-hands_over u n ns a b c =
        let (f, g, h) =
          notify_all_lem on_notify (copied u (n ∷ ns)) (n ∷ ns) (all_moved u n ns b) in
        rw (emptied u n ns a b c) (h, (f, g))
