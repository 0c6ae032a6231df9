-- ===== src/Telemetry/Tests.antt =====
-- Concrete runs of the telemetry's theorems.
use cogni_gate.Prelude.{ℕ, List, [], ◌∷◌, refl, false, codes}
use cogni_gate.Memory.{UsageRecord}
use cogni_gate.Telemetry.{
  Telemetry, accepted, transient, Step, recording, receiving, attempted, timer_fired, stop_closed,
  stop_seen, new_telemetry, run, take_step, enqueue,
}
use cogni_gate.Telemetry.Accounting.{Accounted, run-Accounted}
use cogni_gate.Telemetry.Outage.{Delivered, served, failing, woken, arriving, outage_survived}

abbrev used : ℕ → UsageRecord
used cost = record {
  request_id = [];
  client_request_id = [];
  tenant_id = codes "ten_1";
  key_prefix = [];
  provider = codes "p";
  model = codes "m";
  requested_model = codes "m";
  fallback_depth = 0;
  prompt_tokens = 1;
  completion_tokens = 1;
  total_tokens = 2;
  cost_usd = cost;
  charge_usd = cost;
  billing_mode = codes "passthrough";
  cached = false;
  streamed = false;
  status_code = 200;
  duration_ms = 5;
  recorded_at = 1;
}

-- Three records for a buffer of one: the second is dropped while the first is queued.
abbrev busy_day : List Step
busy_day =
    recording (used 1)
    ∷ recording (used 2)
    ∷ receiving
    ∷ attempted transient
    ∷ recording (used 3)
    ∷ stop_closed
    ∷ stop_seen (accepted ∷ [])
    ∷ []

run-Accounted_example : Accounted 3 1 (run busy_day (new_telemetry 1))
run-Accounted_example = run-Accounted 1 busy_day

abbrev two_queued : Telemetry
two_queued = run (recording (used 1) ∷ recording (used 2) ∷ []) (new_telemetry 2)

-- The sink fails twice; of the two records that arrive meanwhile the second finds the buffer full.
abbrev arrivals : List UsageRecord
arrivals = used 3 ∷ used 4 ∷ []

abbrev mending : List Step
mending =
    attempted transient
    ∷ recording (used 3)
    ∷ timer_fired
    ∷ attempted transient
    ∷ timer_fired
    ∷ recording (used 4)
    ∷ attempted accepted
    ∷ []

outage_survived_example :
    Delivered
      (record two_queued { queue = used 2 ∷ [] })
      (used 1)
      arrivals
      (run (receiving ∷ mending) two_queued)
unfolding run take_step enqueue new_telemetry
outage_survived_example =
    outage_survived (used 1) (used 2 ∷ []) arrivals mending two_queued refl refl refl
      (failing (arriving (used 3) (woken (failing (woken (arriving (used 4) served))))))
