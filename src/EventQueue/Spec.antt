-- ===== src/EventQueue/Spec.antt =====
-- What an EventQueue promises its users: the events that are sent and not yet got, oldest first.
use mimic_generator.Common.{◌≡◌, Option, none, some, List, [], ◌∷◌, ◌++◌}
use mimic_generator.Common.Int.{ℤ, negsuc}
use mimic_generator.Event.{Event}

abbrev pub Fifo : Type 0
Fifo = List Event

-- `addEvent`
unfoldable pub push : Fifo → Event → Fifo
push q e = q ++ e ∷ []

-- `getEvent`: none is its result false.
unfoldable pub pop : Fifo → Fifo × Option Event
pop [] = ([], none)
pop (e ∷ q) = (q, some e)

-- `nextEventTime`
unfoldable pub next_time : Fifo → ℤ
next_time [] = negsuc 0
next_time (e ∷ q) = e.ms_from_start

-- An event that is got was the oldest.
pub pop-some : (q rest : Fifo) (e : Event) → pop q ≡ (rest, some e) → q ≡ e ∷ rest
unfolding pop
pop-some [] rest e at = absurd (cc)
pop-some (x ∷ q) rest e at = cc

pub pop-none : (q rest : Fifo) → pop q ≡ (rest, none) → q ≡ rest
unfolding pop
pop-none [] rest got = cc
pop-none (x ∷ q) rest got = absurd (cc)
