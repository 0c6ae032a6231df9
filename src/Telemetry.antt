-- ===== src/Telemetry.antt =====
-- gateway/internal/obs/telemetry.go: the bounded queue between the served requests and the usage accounting. The
-- dispatcher goroutine and the requests interleave as a sequence of steps; a step that the select of the goroutine does not
-- offer in a state changes nothing. What the sink answers to an attempt is part of the step, a time is a number of
-- nanoseconds, and the metrics are always set. The throttled warnings are left out.

pub mod Accounting
pub mod Outage
mod Tests
use cogni_gate.Prelude.{
  ℕ, ◌+◌, ◌*◌, ◌≡◌, ap, ltb, List, [], ◌∷◌, ◌++◌, Bool, true, false, Option, none, some,
  if◌then◌else◌, length,
}
use cogni_gate.Memory.{UsageRecord}

abbrev pub retry_base : ℕ
retry_base = 500000000

abbrev pub retry_max : ℕ
retry_max = 30000000000

-- What RecordUsage answers: no error, one that a retry may mend, or one that it cannot.
pub data SinkAnswer : Type 0 where
  accepted : SinkAnswer
  transient : SinkAnswer
  permanent : SinkAnswer

-- The record that the goroutine holds in deliver, the number of the attempt that comes next, and the wait that a
-- failure of it is followed by. `waiting` is the select behind a failed attempt.
pub record Delivery : Type 0 where
  pub rec : UsageRecord
  pub attempt : ℕ
  pub backoff : ℕ
  pub waiting : Bool

pub record Telemetry : Type 0 where
  pub buffer : ℕ
  pub queue : List UsageRecord
  pub delivering : Option Delivery
  pub persisted : List UsageRecord
  pub dropped : ℕ
  pub stopped : Bool
  pub finished : Bool

unfoldable pub new_telemetry : ℕ → Telemetry
new_telemetry buffer = record {
  buffer = if ltb buffer 1 then 1000 else buffer;
  queue = [];
  delivering = none;
  persisted = [];
  dropped = 0;
  stopped = false;
  finished = false;
}

-- Record, which drops where the channel is full.
unfoldable pub enqueue : UsageRecord → Telemetry → Telemetry
enqueue rec t =
    if ltb (length t.queue) t.buffer
    then record t { queue = t.queue ++ (rec ∷ []) }
    else record t { dropped = t.dropped + 1 }

unfoldable pub lost : ℕ → Telemetry → Telemetry
lost n t = record t { dropped = t.dropped + n }

-- `rec := <-t.ch` of run. The select may take it although the stop is there too.
unfoldable pub received : List UsageRecord → Telemetry → Telemetry
received [] t = t
received (rec ∷ queue) t = record t {
  queue = queue;
  delivering = some (record { rec = rec; attempt = 1; backoff = retry_base; waiting = false });
}

unfoldable pub next_backoff : ℕ → ℕ
next_backoff backoff = if ltb (backoff * 2) retry_max then backoff * 2 else retry_max

-- The switch on the error of an attempt.
unfoldable pub answer_taken : SinkAnswer → Delivery → Telemetry → Telemetry
answer_taken accepted d t = record t { persisted = t.persisted ++ (d.rec ∷ []); delivering = none }
answer_taken permanent d t = lost 1 (record t { delivering = none })
answer_taken transient d t = record t { delivering = some (record d { waiting = true }) }

-- The end of the wait.
unfoldable pub retried : Delivery → Telemetry → Telemetry
retried d t = record t {
  delivering =
      some
        (record d { attempt = d.attempt + 1; backoff = next_backoff d.backoff; waiting = false });
}

-- One attempt for each queued record, the answers in the order of the queue; without an answer the attempt fails.
unfoldable pub drain : List UsageRecord → List SinkAnswer → Telemetry → Telemetry
drain [] answers t = t
drain (rec ∷ queue) [] t = drain queue [] (lost 1 t)
drain (rec ∷ queue) (accepted ∷ answers) t =
    drain queue answers (record t { persisted = t.persisted ++ (rec ∷ []) })
drain (rec ∷ queue) (transient ∷ answers) t = drain queue answers (lost 1 t)
drain (rec ∷ queue) (permanent ∷ answers) t = drain queue answers (lost 1 t)

pub data Step : Type 0 where
  recording : UsageRecord → Step
  receiving : Step
  attempted : SinkAnswer → Step
  timer_fired : Step
  stop_closed : Step
  stop_seen : List SinkAnswer → Step

-- What the goroutine does in run, with no delivery at hand.
unfoldable pub idle : Step → Telemetry → Telemetry
idle receiving t = received t.queue t
idle (stop_seen answers) t =
    if t.stopped then drain t.queue answers (record t { queue = []; finished = true }) else t
idle _ t = t

-- What it does in deliver.
unfoldable pub busy : Step → Delivery → Telemetry → Telemetry
busy (attempted answer) d t = if d.waiting then t else answer_taken answer d t
busy timer_fired d t = if d.waiting then retried d t else t
busy (stop_seen answers) d t =
    if d.waiting then (if t.stopped then lost 1 (record t { delivering = none }) else t) else t
busy _ d t = t

unfoldable pub working : Step → Option Delivery → Telemetry → Telemetry
working s none t = idle s t
working s (some d) t = busy s d t

unfoldable pub dispatcher : Step → Telemetry → Telemetry
dispatcher s t = if t.finished then t else working s t.delivering t

pub dispatcher-idle :
    (s : Step) (t : Telemetry)
    → t.delivering ≡ none
    → dispatcher s t ≡ (if t.finished then t else idle s t)
unfolding dispatcher working
dispatcher-idle s t e = ap (λ o. if t.finished then t else working s o t) e

pub dispatcher-busy :
    (s : Step) (t : Telemetry) (d : Delivery)
    → t.delivering ≡ some d
    → dispatcher s t ≡ (if t.finished then t else busy s d t)
unfolding dispatcher working
dispatcher-busy s t d e = ap (λ o. if t.finished then t else working s o t) e

unfoldable pub take_step : Step → Telemetry → Telemetry
take_step (recording rec) t = enqueue rec t
take_step stop_closed t = record t { stopped = true }
take_step receiving t = dispatcher receiving t
take_step (attempted answer) t = dispatcher (attempted answer) t
take_step timer_fired t = dispatcher timer_fired t
take_step (stop_seen answers) t = dispatcher (stop_seen answers) t

unfoldable pub run : List Step → Telemetry → Telemetry
run [] t = t
run (s ∷ steps) t = run steps (take_step s t)
