-- ===== src/EventNotifier.antt =====
-- src/eventNotifier.cpp and include/eventNotifier.h: a notifier over an eventfd.
pub mod Signals
mod Tests
use mimic_generator.Common.{Bool, true, false, if◌then◌else◌}
use mimic_generator.Common.Int.{ℤ, pos, negsuc, ◌==ℤ◌, to_int}
use mimic_generator.Common.Maps.{Text}
use mimic_generator.Os.{Os, Call, History, perform}

pub record EventNotifier : Type 0 where
  pub fd : ℤ
  pub my_name : Text

abbrev pub event_notifier : (my_fd : ℤ) (name : Text) → EventNotifier
event_notifier my_fd name = record { fd = my_fd; my_name = name }

unfoldable pub is_me : EventNotifier → (readfd : ℤ) → Bool
is_me n readfd = if readfd ==ℤ n.fd then true else false

module _ (os : Os) where
  unfoldable pub create_event_fd : History → ℤ × History
  create_event_fd h =
      let (fd, h) = perform os Call.eventfd h in if fd ==ℤ negsuc 0 then (negsuc 0, h) else (fd, h)

  -- The value 1 is written, in eight bytes.
  unfoldable pub send_signal : EventNotifier → History → Bool × History
  send_signal n h =
      let (i, h) = perform os (Call.write_eventfd n.fd 1) h in
      if to_int i ==ℤ pos 8 then (true, h) else (false, h)

  -- Eight bytes are asked for; the value read is not used.
  unfoldable pub read_signal : EventNotifier → History → Bool × History
  read_signal n h =
      let (i, h) = perform os (Call.read_eventfd n.fd) h in
      if to_int i ==ℤ pos 1 then (true, h) else (false, h)
