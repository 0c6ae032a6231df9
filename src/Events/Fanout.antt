-- ===== src/Events/Fanout.antt =====
-- The hooks that an event of gateway/internal/events/events.go is queued for.
use cogni_gate.Prelude.{ℕ, List, take, keep_if, map, Text}
use cogni_gate.Memory.{Webhook, Event, Memory}
use cogni_gate.Events.{EventDelivery, wants, delivery_of}

-- What there is room for of the deliveries to the hooks that ask for the event's type.
abbrev pub admitted : ℕ → Event → Text → List Webhook → List EventDelivery
admitted free e body hooks = take free (map (delivery_of e body) (keep_if (wants e.kind) hooks))
