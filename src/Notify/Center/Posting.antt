-- ===== src/Notify/Center/Posting.antt =====
-- notification_center: which unit a message reaches, and what becomes of the others.
use t2h.Common.{
  ℕ, true, false, Option, none, some, Bytes, str_eq, str_eq_iff, find, find-assign_same,
  find-assign_other, find-erase_same, find-erase_other, ◌≡◌, ◌≢◌, refl, Option-cases, inl, inr,
}
use t2h.Notify.Unit.{
  Notification, NotificationUnit, notification_unit, add_notification, execution_loop_run,
}
use t2h.Notify.Center.{
  NotificationCenter, unit_param, add_notification_receiver, remove_notification_receiver,
  send_message, post_message,
}

module _ {R A : Type 0} where
  abbrev pub unit_of : NotificationCenter R A → Bytes → Option (NotificationUnit R A)
  unit_of c name = find str_eq name c.receivers

  -- A message reaches the unit of the receiver that it names, where it is queued behind the others
  -- if the unit runs and has at most `max_notifications` queued; every other receiver keeps what it
  -- has. The call says true also where the queue was full; without such a receiver it says false and
  -- changes nothing.
  pub send_message_lem :
      (c : NotificationCenter R A) (name : Bytes) (n : Notification A)
      → ((u : NotificationUnit R A)
          → unit_of c name ≡ some u
          → ((send_message c name (some n)).1 ≡ true)
            × ((unit_of (send_message c name (some n)).0 name ≡ some (add_notification u n))
                × ((other : Bytes)
                    → name ≢ other
                    → unit_of (send_message c name (some n)).0 other ≡ unit_of c other)))
        × (unit_of c name ≡ none → send_message c name (some n) ≡ (c, false))
  unfolding send_message
  send_message_lem c name n = (
    λ u e.
        rw (e, send_message)
          (
            refl,
            (
              find-assign_same str_eq str_eq_iff name (add_notification u n) c.receivers,
              λ other d.
                  find-assign_other str_eq str_eq_iff name other (add_notification u n) c.receivers
                    d,
            ),
          ),
    λ e. rw (e, send_message) refl,
  )

  pub post_message-send_message :
      (c : NotificationCenter R A) (name : Bytes) (n : Option (Notification A))
      → post_message c name n ≡ send_message c name n
  unfolding post_message send_message
  post_message-send_message c name none = refl
  post_message-send_message c name (some n) = refl

  -- A receiver that was added is there and runs with an empty queue, unless its name was taken, when
  -- the call changes nothing; one that was removed is not there. No other name is touched.
  pub add_remove_receiver :
      (hash : Bytes → ℕ) (c : NotificationCenter R A) (name other : Bytes) (recv : R)
      → name ≢ other
      → (unit_of c name ≡ none
          → unit_of (add_notification_receiver hash c (some (name, recv))).0 name
            ≡ some (execution_loop_run (notification_unit (unit_param c.config) recv)))
        × (((u : NotificationUnit R A)
              → unit_of c name ≡ some u
              → add_notification_receiver hash c (some (name, recv)) ≡ (c, (0, false)))
            × ((unit_of (add_notification_receiver hash c (some (name, recv))).0 other
                  ≡ unit_of c other)
                × ((unit_of (remove_notification_receiver c name).0 name ≡ none)
                    × (unit_of (remove_notification_receiver c name).0 other ≡ unit_of c other))))
  unfolding add_notification_receiver remove_notification_receiver
  add_remove_receiver hash c name other recv d = (
    λ e. rw (e, add_notification_receiver) (find-assign_same str_eq str_eq_iff name _ c.receivers),
    (
      λ u e. rw (e, add_notification_receiver) refl,
      (
        elim (Option-cases (unit_of c name)) [
          | inl e ↦
              rw (e, add_notification_receiver)
                (find-assign_other str_eq str_eq_iff name other _ c.receivers d)
          | inr (u, e) ↦ rw (e, add_notification_receiver) refl
        ],
        (
          find-erase_same str_eq str_eq_iff name c.receivers,
          find-erase_other str_eq str_eq_iff name other c.receivers d,
        ),
      ),
    ),
  )
