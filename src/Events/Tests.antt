-- ===== src/Events/Tests.antt =====
-- Concrete runs of the deliveries' theorems.
use cogni_gate.Prelude.{ℕ, List, [], ◌∷◌, Option, none, some, Text, codes, true, false}
use cogni_gate.Memory.{Memory, Webhook, Event, new_memory}
use cogni_gate.Events.{Options, deliver}
use cogni_gate.Events.Schedule.{Scheduled, deliver-Scheduled}

abbrev three_tries : Options
three_tries = record { max_attempts = 3; base_backoff = 5; queue = 1 }

abbrev recovering : List (Option ℕ)
recovering = none ∷ some 500 ∷ some 204 ∷ []

deliver-Scheduled_example : Scheduled 3 5 recovering (deliver three_tries recovering)
deliver-Scheduled_example = deliver-Scheduled three_tries recovering

abbrev hook : Text → Webhook
hook id = record {
  id = id;
  tenant_id = codes "ten_1";
  url = codes "https://example.org";
  secret = [];
  events = codes "breaker.opened" ∷ [];
  enabled = true;
  created_at = 1;
}

abbrev store : Memory
store = record (new_memory false) {
  webhooks = (codes "ten_1", hook (codes "a") ∷ hook (codes "b") ∷ []) ∷ [];
}

abbrev opened : Event
opened = record {
  id = codes "evt_1";
  kind = codes "breaker.opened";
  created = 2;
  tenant_id = codes "ten_1";
  payload = codes "data";
}
