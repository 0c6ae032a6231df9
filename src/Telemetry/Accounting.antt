-- ===== src/Telemetry/Accounting.antt =====
-- Where the usage records of gateway/internal/obs/telemetry.go are.
use cogni_gate.Prelude.{
  ℕ, ◌≡◌, ◌≤◌, ◌+◌, ltb, List, [], ◌∷◌, ◌++◌, Bool, true, false, Option, none, some, if◌then◌else◌,
  length, length-append, arith, refl, Option-cases, Bool-cases, inl, inr, ap, sym, subst,
}
use cogni_gate.Memory.{UsageRecord}
use cogni_gate.Telemetry.{
  Telemetry, Delivery, SinkAnswer, accepted, transient, permanent, Step, recording, receiving,
  attempted, timer_fired, stop_closed, stop_seen, new_telemetry, enqueue, lost, received,
  answer_taken, retried, drain, idle, busy, dispatcher, dispatcher-idle, dispatcher-busy, take_step,
  run, next_backoff, retry_max,
}

abbrev pub held : Option Delivery → ℕ
held none = 0
held (some d) = 1

-- The records that are stored, counted as dropped, queued or at hand.
abbrev pub total : Telemetry → ℕ
total t = length t.persisted + t.dropped + length t.queue + held t.delivering

abbrev pub recorded : List Step → ℕ
recorded [] = 0
recorded (recording rec ∷ steps) = recorded steps + 1
recorded (receiving ∷ steps) = recorded steps
recorded (attempted answer ∷ steps) = recorded steps
recorded (timer_fired ∷ steps) = recorded steps
recorded (stop_closed ∷ steps) = recorded steps
recorded (stop_seen answers ∷ steps) = recorded steps

abbrev Patient : Option Delivery → Type 0
Patient none = Unit
Patient (some d) = d.backoff ≤ retry_max

-- What holds of every state that steps reach, with the number of records that came.
pub record Accounted (n buffer : ℕ) (t : Telemetry) : Type 0 where
  pub counted : total t ≡ n
  pub bounded : length t.queue ≤ t.buffer
  pub sized : t.buffer ≡ buffer
  pub patient : Patient t.delivering

lost-Accounted : (n b : ℕ) (t : Telemetry) → Accounted n b t → Accounted (n + 1) b (lost 1 t)
unfolding lost
lost-Accounted n b t h = ground (arith, h.counted, h.bounded, h.sized, h.patient)

persisted-Accounted :
    (n b : ℕ) (rec : UsageRecord) (t : Telemetry)
    → Accounted n b t
    → Accounted (n + 1) b (record t { persisted = t.persisted ++ (rec ∷ []) })
persisted-Accounted n b rec t h =
    ground (arith, h.counted, h.bounded, h.sized, h.patient, length-append t.persisted (rec ∷ []))

drain-Accounted :
    (n m b : ℕ) (queue : List UsageRecord) (answers : List SinkAnswer) (t : Telemetry)
    → m ≡ n + length queue
    → Accounted n b t
    → Accounted m b (drain queue answers t)
unfolding drain
drain-Accounted n m b [] answers t e h = subst (λ (k : ℕ). Accounted k b t) (omega (arith, e)) h
drain-Accounted n m b (rec ∷ queue) [] t e h =
    drain-Accounted (n + 1) m b queue [] _ (omega (arith, e)) (lost-Accounted n b t h)
drain-Accounted n m b (rec ∷ queue) (accepted ∷ answers) t e h =
    drain-Accounted (n + 1) m b queue answers _ (omega (arith, e)) (persisted-Accounted n b rec t h)
drain-Accounted n m b (rec ∷ queue) (transient ∷ answers) t e h =
    drain-Accounted (n + 1) m b queue answers _ (omega (arith, e)) (lost-Accounted n b t h)
drain-Accounted n m b (rec ∷ queue) (permanent ∷ answers) t e h =
    drain-Accounted (n + 1) m b queue answers _ (omega (arith, e)) (lost-Accounted n b t h)

enqueue-Accounted :
    (n b : ℕ) (rec : UsageRecord) (t : Telemetry)
    → Accounted n b t
    → Accounted (n + 1) b (enqueue rec t)
unfolding enqueue
enqueue-Accounted n b rec t h =
    ground (arith, h.counted, h.bounded, h.sized, h.patient, length-append t.queue (rec ∷ []))

received-Accounted :
    (n b : ℕ) (queue : List UsageRecord) (t : Telemetry)
    → t.queue ≡ queue
    → t.delivering ≡ none
    → Accounted n b t
    → Accounted n b (received queue t)
unfolding received
received-Accounted n b [] t q e h = h
received-Accounted n b (rec ∷ queue) t q e h = ground (arith, h.counted, h.bounded, h.sized, q, e)

answer_taken-Accounted :
    (n b : ℕ) (answer : SinkAnswer) (d : Delivery) (t : Telemetry)
    → t.delivering ≡ some d
    → Accounted n b t
    → Accounted n b (answer_taken answer d t)
unfolding answer_taken lost
answer_taken-Accounted n b accepted d t e h =
    ground (arith, h.counted, h.bounded, h.sized, e, length-append t.persisted (d.rec ∷ []))
answer_taken-Accounted n b transient d t e h =
    ground (arith, h.counted, h.bounded, h.sized, e, h.patient)
answer_taken-Accounted n b permanent d t e h = ground (arith, h.counted, h.bounded, h.sized, e)

emptied-Accounted :
    (n b : ℕ) (t : Telemetry)
    → t.delivering ≡ none
    → Accounted n b t
    → Accounted (length t.persisted + t.dropped) b (record t { queue = []; finished = true })
emptied-Accounted n b t e h = ground (arith, h.counted, h.bounded, h.sized, h.patient, e)

idle-Accounted :
    (n b : ℕ) (s : Step) (t : Telemetry)
    → t.delivering ≡ none
    → Accounted n b t
    → Accounted n b (idle s t)
unfolding idle
idle-Accounted n b receiving t e h = received-Accounted n b t.queue t refl e h
idle-Accounted n b (stop_seen answers) t e h = elim (Bool-cases t.stopped) [
  | inl x ↦ ground (
    arith,
    x,
    drain-Accounted (length t.persisted + t.dropped) n b t.queue answers
        (record t { queue = []; finished = true }) (omega (arith, h.counted, ap held e))
        (emptied-Accounted n b t e h),
  )
  | inr x ↦ ground (arith, x, h)
]
idle-Accounted n b (recording rec) t e h = h
idle-Accounted n b (attempted answer) t e h = h
idle-Accounted n b timer_fired t e h = h
idle-Accounted n b stop_closed t e h = h

busy-Accounted :
    (n b : ℕ) (s : Step) (d : Delivery) (t : Telemetry)
    → t.delivering ≡ some d
    → Accounted n b t
    → Accounted n b (busy s d t)
unfolding busy retried next_backoff lost
busy-Accounted n b (attempted answer) d t e h = elim (Bool-cases d.waiting) [
  | inl w ↦ ground (arith, w, h)
  | inr w ↦ ground (arith, w, answer_taken-Accounted n b answer d t e h)
]
busy-Accounted n b timer_fired d t e h = ground (arith, h.counted, h.bounded, h.sized, e, h.patient)
busy-Accounted n b (stop_seen answers) d t e h =
    ground (arith, h.counted, h.bounded, h.sized, e, h.patient)
busy-Accounted n b (recording rec) d t e h = h
busy-Accounted n b receiving d t e h = h
busy-Accounted n b stop_closed d t e h = h

if-Accounted :
    (n m : ℕ) (c : Bool) (t u : Telemetry)
    → Accounted n m t
    → Accounted n m u
    → Accounted n m (if c then t else u)
if-Accounted n m true t u h k = h
if-Accounted n m false t u h k = k

dispatcher-Accounted :
    (n b : ℕ) (s : Step) (t : Telemetry) → Accounted n b t → Accounted n b (dispatcher s t)
dispatcher-Accounted n b s t h = elim (Option-cases t.delivering) [
  | inl e ↦
      subst (Accounted n b) (sym (dispatcher-idle s t e))
        (if-Accounted n b t.finished t (idle s t) h (idle-Accounted n b s t e h))
  | inr (d, e) ↦
      subst (Accounted n b) (sym (dispatcher-busy s t d e))
        (if-Accounted n b t.finished t (busy s d t) h (busy-Accounted n b s d t e h))
]

run-counts :
    (n b : ℕ) (steps : List Step) (t : Telemetry)
    → Accounted n b t
    → Accounted (n + recorded steps) b (run steps t)
unfolding run take_step
run-counts n b [] t h = subst (λ (k : ℕ). Accounted k b t) (omega arith) h
run-counts n b (recording rec ∷ steps) t h =
    subst (λ (k : ℕ). Accounted k b (run steps (enqueue rec t))) (omega arith)
      (run-counts (n + 1) b steps _ (enqueue-Accounted n b rec t h))
run-counts n b (receiving ∷ steps) t h =
    run-counts n b steps _ (dispatcher-Accounted n b receiving t h)
run-counts n b (attempted answer ∷ steps) t h =
    run-counts n b steps _ (dispatcher-Accounted n b (attempted answer) t h)
run-counts n b (timer_fired ∷ steps) t h =
    run-counts n b steps _ (dispatcher-Accounted n b timer_fired t h)
run-counts n b (stop_closed ∷ steps) t h = run-counts n b steps _ (ground (arith, h))
run-counts n b (stop_seen answers ∷ steps) t h =
    run-counts n b steps _ (dispatcher-Accounted n b (stop_seen answers) t h)

-- After any steps of the requests, the dispatcher, the sink and the shutdown: every record that came is stored, at
-- hand, queued or counted as dropped, and in one of these alone; the queue is within the buffer of the configuration,
-- 1000 where that is below one; and a wait between attempts is at most retry_max.
pub run-Accounted :
    (buffer : ℕ) (steps : List Step)
    → Accounted
        (recorded steps)
        (if ltb buffer 1 then 1000 else buffer)
        (run steps (new_telemetry buffer))
unfolding new_telemetry
run-Accounted buffer steps =
    subst
      (λ (k : ℕ).
        Accounted k (if ltb buffer 1 then 1000 else buffer) (run steps (new_telemetry buffer)))
      (omega arith)
      (run-counts 0 (if ltb buffer 1 then 1000 else buffer) steps (new_telemetry buffer)
        (record { counted = refl; bounded = omega arith; sized = refl; patient = tt }))
