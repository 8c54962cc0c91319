-- ===== src/Notify/Center.antt =====
-- src/common/notification_model/notification_center.cpp and notification_center.hpp: one unit for
-- each receiver's name. `hash` is boost::hash<std::string>, which gives a unit its id; `stop_` is
-- never set.
pub mod Posting
pub mod Delivery
use t2h.Common.{
  ℕ, Bool, true, false, not, ◌==◌, List, [], Option, none, some, Bytes, str_eq, find, erase, assign,
  if◌then◌else◌,
}
use t2h.Notify.Unit.{
  Notification, NotificationUnit, NotificationUnitParam, notification_unit, add_notification,
  execution_loop_run, begin_stop,
}

pub record NotificationCenterConfig : Type 0 where
  pub max_notifications_per_recv : ℕ
  pub execute_notification_at_recv_gone : Bool

pub record NotificationCenter (R A : Type 0) : Type 0 where
  pub config : NotificationCenterConfig
  pub receivers : List (Bytes × NotificationUnit R A)

abbrev pub unit_param : NotificationCenterConfig → NotificationUnitParam
unit_param c = record {
  change_state_auto = true;
  execute_all_notification_at_exit = c.execute_notification_at_recv_gone;
  max_notifications = c.max_notifications_per_recv;
}

module _ {R A : Type 0} where
  unfoldable pub notification_center : NotificationCenterConfig → NotificationCenter R A
  notification_center c = record { config = c; receivers = [] }

  unfoldable pub change_configuration :
      NotificationCenter R A → NotificationCenterConfig → NotificationCenter R A
  change_configuration c config = record c { config = config }

  -- A receiver that is a null pointer is `none`; else it is its name and its state. The pair is made
  -- as (state, object_id) and returned as (std::size_t, bool).
  unfoldable pub add_notification_receiver :
      (hash : Bytes → ℕ)
      → NotificationCenter R A
      → Option (Bytes × R)
      → NotificationCenter R A × (ℕ × Bool)
  add_notification_receiver hash c none = (c, (0, false))
  add_notification_receiver hash c (some (name, recv)) = elim (find str_eq name c.receivers) [
    | none ↦ (
      record c {
        receivers =
            assign str_eq name (execution_loop_run (notification_unit (unit_param c.config) recv))
              c.receivers;
      },
      (1, not (hash name == 0)),
    )
    | some u ↦ (c, (0, false))
  ]

  -- The second result is the unit that goes, in its destructor: the call returns when the unit's thread
  -- has ended.
  unfoldable pub remove_notification_receiver :
      NotificationCenter R A → Bytes → NotificationCenter R A × Option (NotificationUnit R A)
  remove_notification_receiver c name = (
    record c { receivers = erase str_eq name c.receivers },
    elim (find str_eq name c.receivers) [ none ↦ none | some u ↦ some (begin_stop u) ],
  )

  -- The overload over an id is empty.
  unfoldable pub remove_notification_receiver_by_id :
      NotificationCenter R A → ℕ → NotificationCenter R A
  remove_notification_receiver_by_id c id = c

  unfoldable pub send_message :
      NotificationCenter R A → Bytes → Option (Notification A) → NotificationCenter R A × Bool
  send_message c name none = (c, false)
  send_message c name (some n) = elim (find str_eq name c.receivers) [
    | none ↦ (c, false)
    | some u ↦
        (record c { receivers = assign str_eq name (add_notification u n) c.receivers }, true)
  ]

  -- The two bodies are the same.
  unfoldable pub post_message :
      NotificationCenter R A → Bytes → Option (Notification A) → NotificationCenter R A × Bool
  post_message c name none = (c, false)
  post_message c name (some n) = elim (find str_eq name c.receivers) [
    | none ↦ (c, false)
    | some u ↦
        (record c { receivers = assign str_eq name (add_notification u n) c.receivers }, true)
  ]
