-- ===== src/Events.antt =====
-- gateway/internal/events/events.go: an event is recorded, queued for the webhooks that ask for its type, and delivered with
-- retries. An endpoint's answer is its status, none where there is none; the encoding of the body is an argument.
pub mod Schedule
pub mod Fanout
mod Tests
use cogni_gate.Prelude.{
  ℕ, zero, suc, ◌+◌, ◌*◌, ltb, leb, ◌==◌, ◌&&◌, List, [], ◌∷◌, ◌++◌, Bool, true, false, Option,
  none, some, Text, text_eq, if◌then◌else◌, length, member,
}
use cogni_gate.Memory.{Memory, Webhook, Event}
use cogni_gate.Memory.History.{record_event}
use cogni_gate.Memory.Rules.{list_webhooks}

pub record Options : Type 0 where
  pub max_attempts : ℕ
  pub base_backoff : ℕ
  pub queue : ℕ

-- New; the timeout, the workers, the client, the logger and the clock are left out.
unfoldable pub with_defaults : Options → Options
with_defaults o = record {
  max_attempts = if ltb o.max_attempts 1 then 5 else o.max_attempts;
  base_backoff = if o.base_backoff == 0 then 5000000000 else o.base_backoff;
  queue = if ltb o.queue 1 then 256 else o.queue;
}

pub record EventDelivery : Type 0 where
  pub webhook : Webhook
  pub body : Text
  pub event_id : Text
  pub typ : Text

unfoldable pub wants : Text → Webhook → Bool
wants typ h = h.enabled && member typ h.events

unfoldable pub delivery_of : Event → Text → Webhook → EventDelivery
delivery_of e body h = record { webhook = h; body = body; event_id = e.id; typ = e.kind }

-- The loop over the hooks; a delivery that finds the channel full is dropped.
unfoldable pub fan_out : ℕ → Event → Text → List Webhook → List EventDelivery → List EventDelivery
fan_out room e body [] queue = queue
fan_out room e body (h ∷ hooks) queue =
    if wants e.kind h && ltb (length queue) room
    then fan_out room e body hooks (queue ++ (delivery_of e body h ∷ []))
    else fan_out room e body hooks queue

-- Emit: the event is stored, and then queued for the hooks. Without an encoding nothing is queued.
unfoldable pub emit :
    (Event → Option Text) → ℕ → Event → Memory → List EventDelivery → Memory × List EventDelivery
emit encode room e m queue = elim (encode e) [
  | none ↦ (record_event m e, queue)
  | some body ↦
      (record_event m e, fan_out room e body (list_webhooks (record_event m e) e.tenant_id) queue)
]

-- How one delivery went: whether an endpoint accepted it, the attempts made, and the waits between them.
pub record DeliveryOutcome : Type 0 where
  pub delivered : Bool
  pub attempts : ℕ
  pub waits : List ℕ

unfoldable pub is_accepted : Option ℕ → Bool
is_accepted none = false
is_accepted (some status) = leb 200 status && leb status 299

unfoldable pub after_wait : ℕ → DeliveryOutcome → DeliveryOutcome
after_wait backoff o = record o { attempts = o.attempts + 1; waits = backoff ∷ o.waits }

-- The loop of deliver, with the attempts left and the answers to come; where they end, the stop ends a wait.
unfoldable pub deliver_from : ℕ → ℕ → List (Option ℕ) → DeliveryOutcome
deliver_from zero backoff answers = record { delivered = false; attempts = 0; waits = [] }
deliver_from (suc left) backoff [] = record { delivered = false; attempts = 0; waits = [] }
deliver_from (suc left) backoff (a ∷ answers) =
    let rest = deliver_from left (backoff * 2) answers in
    if is_accepted a
    then record { delivered = true; attempts = 1; waits = [] }
    else if left == 0
    then record { delivered = false; attempts = 1; waits = [] }
    else after_wait backoff rest

unfoldable pub deliver : Options → List (Option ℕ) → DeliveryOutcome
deliver o answers = deliver_from o.max_attempts o.base_backoff answers
