-- ===== src/Telemetry/Outage.antt =====
-- What an outage of the sink does in gateway/internal/obs/telemetry.go.
use cogni_gate.Prelude.{
  ℕ, zero, ◌+◌, ◌-◌, ◌<◌, suc, length, length-append, take, dec_lt, Bool, ◌≡◌, ◌∙◌, List, [], ◌∷◌,
  ◌++◌, true, false, none, some, arith, refl, subst, ap, sym,
}
use mathlib.Core.List.{append-nil, append_assoc}
use cogni_gate.Memory.{UsageRecord}
use cogni_gate.Telemetry.{
  Telemetry, Delivery, accepted, transient, Step, recording, receiving, attempted, enqueue,
  timer_fired, answer_taken, retried, busy, dispatcher, dispatcher-idle, dispatcher-busy, take_step,
  run, received, idle,
}

-- The steps of a delivery until the sink accepts, given whether it waits, and the records that arrive meanwhile: every
-- failure before is one that a retry may mend, and the timer fires behind it.
pub data Outage : Bool → List UsageRecord → List Step → Type 0 where
  served : Outage false [] (attempted accepted ∷ [])
  failing :
      {rs : List UsageRecord} {steps : List Step}
      → Outage true rs steps
      → Outage false rs (attempted transient ∷ steps)
  woken :
      {rs : List UsageRecord} {steps : List Step}
      → Outage false rs steps
      → Outage true rs (timer_fired ∷ steps)
  arriving :
      {w : Bool} {rs : List UsageRecord} {steps : List Step} (r : UsageRecord)
      → Outage w rs steps
      → Outage w (r ∷ rs) (recording r ∷ steps)

-- The record is stored; of the arrivals the first ones that there is room for are queued, and the others are dropped.
abbrev pub Delivered : Telemetry → UsageRecord → List UsageRecord → Telemetry → Type 0
Delivered t rec rs t' =
    (t'.persisted ≡ t.persisted ++ (rec ∷ []))
    × (t'.queue ≡ t.queue ++ take (t.buffer - length t.queue) rs)
    × (t'.dropped ≡ t.dropped + (length rs - (t.buffer - length t.queue)))
    × (t'.delivering ≡ none)

transient_answer :
    (d : Delivery) (t : Telemetry)
    → t.finished ≡ false
    → d.waiting ≡ false
    → t.delivering ≡ some d
    → dispatcher (attempted transient) t
      ≡ record t { delivering = some (record d { waiting = true }) }
unfolding busy answer_taken
transient_answer d t f w e = dispatcher-busy (attempted transient) t d e ∙ ground (arith, f, w)

fired :
    (d : Delivery) (t : Telemetry)
    → t.finished ≡ false
    → d.waiting ≡ true
    → t.delivering ≡ some d
    → dispatcher timer_fired t ≡ retried d t
unfolding busy
fired d t f w e = dispatcher-busy timer_fired t d e ∙ ground (arith, f, w)

accepted_answer :
    (d : Delivery) (t : Telemetry)
    → t.finished ≡ false
    → d.waiting ≡ false
    → t.delivering ≡ some d
    → dispatcher (attempted accepted) t
      ≡ record t { persisted = t.persisted ++ (d.rec ∷ []); delivering = none }
unfolding busy answer_taken
accepted_answer d t f w e = dispatcher-busy (attempted accepted) t d e ∙ ground (arith, f, w)

take_nothing : (n : ℕ) → take {A = UsageRecord} n [] ≡ []
take_nothing zero = refl
take_nothing (suc n) = refl

-- The arrivals that a queue takes, one by one.
queued-more :
    (b : ℕ) (qs : List UsageRecord) (r : UsageRecord) (rs : List UsageRecord)
    → length qs < b
    → ((qs ++ (r ∷ [])) ++ take (b - length (qs ++ (r ∷ []))) rs
        ≡ qs ++ take (b - length qs) (r ∷ rs))
      × (length rs - (b - length (qs ++ (r ∷ []))) ≡ length (r ∷ rs) - (b - length qs))
queued-more b qs r rs room =
    let grown = length-append qs (r ∷ []) in
    let left : b - length qs ≡ suc (b - length (qs ++ (r ∷ []))) = omega (arith, grown) in
    (append_assoc qs (r ∷ []) _ ∙ ap (λ n. qs ++ take n (r ∷ rs)) (sym left), omega (arith, left))

enqueue-room :
    (t : Telemetry) (r : UsageRecord)
    → length t.queue < t.buffer
    → enqueue r t ≡ record t { queue = t.queue ++ (r ∷ []) }
unfolding enqueue
enqueue-room t r h = ground (arith, h)

enqueue-full :
    (t : Telemetry) (r : UsageRecord)
    → ¬ (length t.queue < t.buffer)
    → enqueue r t ≡ record t { dropped = t.dropped + 1 }
unfolding enqueue
enqueue-full t r h = ground (arith, h)

enqueue-Delivered :
    (t u : Telemetry) (rec r : UsageRecord) (rs : List UsageRecord)
    → Delivered (enqueue r t) rec rs u
    → Delivered t rec (r ∷ rs) u
enqueue-Delivered t u rec r rs h = elim (dec_lt (length t.queue) t.buffer) [
  | yes room ↦
      let more = queued-more t.buffer t.queue r rs room in
      let after = subst (λ (v : Telemetry). Delivered v rec rs u) (enqueue-room t r room) h in
      (after.0, after.1 ∙ more.0, after.2 ∙ ap (λ n. t.dropped + n) more.1, after.3)
  | no full ↦
      let after = subst (λ (v : Telemetry). Delivered v rec rs u) (enqueue-full t r full) h in
      let none_left : t.buffer - length t.queue ≡ 0 = omega (arith, full) in
      (
        after.0,
        after.1
            ∙ ap (λ n. t.queue ++ take n rs) none_left
            ∙ ap (λ n. t.queue ++ take n (r ∷ rs)) (sym none_left),
        omega (arith, after.2, none_left),
        after.3,
      )
]

enqueue-same :
    (t : Telemetry) (r : UsageRecord)
    → ((enqueue r t).finished ≡ t.finished) × ((enqueue r t).delivering ≡ t.delivering)
unfolding enqueue
enqueue-same t r = ground arith

holding-Delivered :
    {w : Bool} {rs : List UsageRecord} {steps : List Step}
    → Outage w rs steps
    → (d : Delivery) (t : Telemetry) → t.finished ≡ false
    → d.waiting ≡ w
    → t.delivering ≡ some d
    → Delivered t d.rec rs (run steps t)
unfolding run take_step retried
holding-Delivered served d t f w e =
    subst (Delivered t d.rec []) (sym (accepted_answer d t f w e)) (
      refl,
      sym (ap (λ l. t.queue ++ l) (take_nothing (t.buffer - length t.queue)) ∙ append-nil t.queue),
      omega arith,
      refl,
    )
holding-Delivered {rs = rs} (failing {steps = steps} later) d t f w e =
    subst (λ (u : Telemetry). Delivered t d.rec rs (run steps u)) (sym (transient_answer d t f w e))
      (holding-Delivered later (record d { waiting = true })
        (record t { delivering = some (record d { waiting = true }) }) f refl refl)
holding-Delivered {rs = rs} (woken {steps = steps} later) d t f w e =
    subst (λ (u : Telemetry). Delivered t d.rec rs (run steps u)) (sym (fired d t f w e))
      (holding-Delivered later _ (retried d t) f refl refl)
holding-Delivered (arriving {rs = rs} {steps = steps} r later) d t f w e =
    enqueue-Delivered t (run steps (enqueue r t)) d.rec r rs (
      holding-Delivered later d (enqueue r t) ((enqueue-same t r).0 ∙ f) w
        ((enqueue-same t r).1 ∙ e))

-- The record at the head of the queue, received by the dispatcher, is stored behind those stored before once the sink
-- accepts it, however often the sink has failed before in a way that a retry may mend, whatever records arrive meanwhile,
-- with no shutdown meanwhile. The rest of the queue stays, behind it come the first of the arrivals that
-- there is room for, and exactly the arrivals behind those are dropped.
pub outage_survived :
    (rec : UsageRecord) (queue rs : List UsageRecord) (steps : List Step) (t : Telemetry)
    → t.finished ≡ false
    → t.delivering ≡ none
    → t.queue ≡ rec ∷ queue
    → Outage false rs steps
    → Delivered (record t { queue = queue }) rec rs (run (receiving ∷ steps) t)
unfolding run take_step received idle
outage_survived rec queue rs steps t f idle_now q out =
    subst (λ (u : Telemetry). Delivered (record t { queue = queue }) rec rs (run steps u))
      (sym (dispatcher-idle receiving t idle_now ∙ ground (arith, f) ∙ ap (λ qs. received qs t) q))
      (holding-Delivered out _ (received (rec ∷ queue) t) f refl refl)
