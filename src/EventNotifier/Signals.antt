-- ===== src/EventNotifier/Signals.antt =====
-- src/eventNotifier.cpp: what the two ends of a notifier report.
use mimic_generator.Common.{◌≡◌, refl, ◌⊎◌, inl, inr, true, false, ◌∷◌}
use mimic_generator.Common.Int.{pos, negsuc, to_int}
use mimic_generator.Os.{Os, Call, History}
use mimic_generator.EventNotifier.{EventNotifier, send_signal, read_signal}

-- What read(2) of an eventfd answers: the eight bytes of its counter, or an error.
abbrev pub Reads : Os → EventNotifier → History → Type 0
Reads os n h =
    (os.result h (Call.read_eventfd n.fd) ≡ pos 8)
    ⊎ (os.result h (Call.read_eventfd n.fd) ≡ negsuc 0)

-- If `write` takes all eight bytes, `sendSignal` reports success; a `readSignal` after it reports
-- failure, also when `read` delivers the signal.
pub send_signal-read_signal :
    (os : Os) (n : EventNotifier) (h : History)
    → os.result h (Call.write_eventfd n.fd 1) ≡ pos 8
    → Reads os n (Call.write_eventfd n.fd 1 ∷ h)
    → ((send_signal os n h).0 ≡ true) × ((read_signal os n (send_signal os n h).1).0 ≡ false)
unfolding send_signal read_signal to_int
send_signal-read_signal os n h w (inl r) = rw (w, r) (refl, refl)
send_signal-read_signal os n h w (inr r) = rw (w, r) (refl, refl)
