-- ===== src/Routing/Breaker/Threshold.antt =====
-- When a healthy key trips.
use cogni_gate.Prelude.{
  ℕ, suc, ◌∙◌, sym, subst, ◌+◌, ◌≤◌, ◌<◌, ◌≡◌, ◌≢◌, refl, Bool, true, false, List, [], ◌∷◌, arith,
  ite, if◌then◌else◌, ltb, leb, length, All, ◌++◌, keep_if_of_All, length-append, All-append,
  All-map, lt→ltb, Text, text_dec,
}
use cogni_gate.Routing.Breaker.Calls.{
  allows, succeeds, fails, Op, Call, apply-settings, run, run-settings,
}
use cogni_gate.Routing.Breaker.Machine.{
  healthy, tripped, advance, admits, advance_all, phase_of, IsSound, allow-run, run-Steps,
  apply-Steps,
}
use cogni_gate.Routing.Breaker.Promises.{Before, advance_all_tripped}
use cogni_gate.Routing.Breaker.{Breaker, Settings, find, allow, failure, recent}

-- No success is called for `k`, and its failures are in the `window` that begins at `start`.
abbrev pub FailsWithin : ℕ → ℕ → Text → List Call → Type 0
FailsWithin start window k = All (λ c.
    c.key ≡ k → (c.op ≢ succeeds) × (c.op ≡ fails → (start ≤ c.now) × (c.now < start + window)))

unfoldable pub is_failure : Op → Bool
is_failure fails = true
is_failure _ = false

-- How many failures are called for `k`.
unfoldable pub failures_for : Text → List Call → ℕ
failures_for k [] = 0
failures_for k (c ∷ cs) =
    let rest = failures_for k cs in
    ite (text_dec c.key k) (if is_failure c.op then suc rest else rest) rest

-- `t` lies in the window that begins at `start`.
abbrev Within : ℕ → ℕ → ℕ → Type 0
Within start window t = (start ≤ t) × (t < start + window)

recent-Within :
    (start window now : ℕ) (fs : List ℕ)
    → Within start window now
    → All (Within start window) fs
    → recent window now fs ≡ fs ++ (now ∷ [])
unfolding recent
recent-Within start window now fs w h = rw (
    keep_if_of_All (λ t. ltb now (t + window)) fs
      (All-map (λ t i. lt→ltb now (t + window) (omega arith)) fs h))

-- One failure inside the window.
advance-failed :
    (s : Settings) (start now : ℕ) (fs : List ℕ)
    → Within start s.window now
    → All (Within start s.window) fs
    → advance s fails now (healthy fs)
      ≡ (if leb s.threshold (suc (length fs)) then tripped now else healthy (fs ++ (now ∷ [])))
unfolding advance
advance-failed s start now fs w h =
    ground (arith, recent-Within start s.window now fs w h, length-append fs (now ∷ []))

-- One call below the threshold.
advance-below :
    (s : Settings) (start now : ℕ) (fs : List ℕ) (op : Op)
    → op ≢ succeeds
    → (op ≡ fails → Within start s.window now)
    → All (Within start s.window) fs
    → (if is_failure op then suc (length fs) else length fs) < s.threshold
    → (hs : List ℕ) × (advance s op now (healthy fs) ≡ healthy hs)
      × (length hs ≡ (if is_failure op then suc (length fs) else length fs))
      × All (Within start s.window) hs
unfolding is_failure advance
advance-below s start now fs allows ok w i few = (fs, refl, refl, i)
advance-below s start now fs succeeds ok w i few = absurd (ok refl)
advance-below s start now fs fails ok w i few = (
  fs ++ (now ∷ []),
  ground (arith, advance-failed s start now fs (w refl) i, few),
  ground (arith, length-append fs (now ∷ [])),
  All-append _ fs (now ∷ []) i (w refl, tt),
)

-- Below the threshold, a healthy key stays healthy, with all its failures on record.
advance_all-below :
    (s : Settings) (k : Text) (start : ℕ) (cs : List Call) (fs : List ℕ)
    → FailsWithin start s.window k cs
    → All (Within start s.window) fs
    → length fs + failures_for k cs < s.threshold
    → (gs : List ℕ) × (advance_all s k cs (healthy fs) ≡ healthy gs)
      × (length gs ≡ length fs + failures_for k cs)
      × All (Within start s.window) gs
unfolding advance_all failures_for
advance_all-below s k start [] fs h i few = (fs, refl, omega arith, i)
advance_all-below s k start (c ∷ cs) fs h i few = elim (text_dec c.key k) [
  | no other ↦
      let rest = advance_all-below s k start cs fs h.1 i (ground (arith, few, other)) in
      (rest.0, ground (arith, rest.1, other), ground (arith, rest.2, other), rest.3)
  | yes same ↦
      let step =
        advance-below s start c.now fs c.op (h.0 same).0 (h.0 same).1 i
          (ground (arith, few, same)) in
      let rest =
        advance_all-below s k start cs step.0 h.1 step.3 (ground (arith, few, same, step.2)) in
      (rest.0, ground (arith, rest.1, step.1, same), ground (arith, rest.2, step.2, same), rest.3)
]

-- The state after the calls, and after a failure for `k` and more calls.
abbrev pub tripped_by : Breaker → Text → List Call → ℕ → List Call → Breaker
tripped_by b k cs now after = run (failure (run b cs) k now) after

run_below :
    (b : Breaker) (k : Text) (start later : ℕ) (cs : List Call)
    → IsSound (find b k)
    → phase_of (find b k) ≡ healthy []
    → FailsWithin start b.window k cs
    → failures_for k cs < b.threshold
    → (allow (run b cs) k later).1 ≡ true
unfolding admits
run_below b k start later cs sound clean h few =
    let below = advance_all-below b.settings k start cs [] h tt (omega (arith, few)) in
    ground (arith, allow-run b cs k later sound, clean, below.1)

failure_trips :
    (b : Breaker) (k : Text) (start now : ℕ) (cs : List Call)
    → IsSound (find b k)
    → phase_of (find b k) ≡ healthy []
    → FailsWithin start b.window k cs
    → Within start b.window now
    → suc (failures_for k cs) ≡ b.threshold
    → IsSound (find (failure (run b cs) k now) k)
      × (phase_of (find (failure (run b cs) k now) k) ≡ tripped now)
failure_trips b k start now cs sound clean h w last =
    let below = advance_all-below b.settings k start cs [] h tt (omega (arith, last)) in
    let steps = run-Steps b cs k sound in
    let step = apply-Steps fails (run b cs) k now steps.0 in
    let failed = advance-failed b.settings start now below.0 w below.3 in
    (
      step.0,
      ground (arith, step.1, steps.1, clean, below.1, below.2, failed, last, run-settings b cs),
    )

FailsWithin-prefix :
    (start window : ℕ) (k : Text) (early rest : List Call)
    → FailsWithin start window k (early ++ rest)
    → FailsWithin start window k early
FailsWithin-prefix start window k [] rest h = tt
FailsWithin-prefix start window k (c ∷ early) rest h =
    (h.0, FailsWithin-prefix start window k early rest h.1)

failures_for-prefix :
    (k : Text) (early rest : List Call) → failures_for k early ≤ failures_for k (early ++ rest)
unfolding failures_for
failures_for-prefix k [] rest = omega arith
failures_for-prefix k (c ∷ early) rest = ground (arith, failures_for-prefix k early rest)

-- A key with no failures on record trips with the failure that makes its failures in one window as many as the
-- threshold, not before, and stays so for the open period from that failure on. Requests for it and calls for other
-- keys come anywhere between. With no success between and all its failures in the window: after any first part of
-- the calls before the one that reaches the threshold, a request is admitted; after that one, with no success and
-- nothing for the key from the end of the open period on, a request is refused up to that end and admitted from then on.
pub trips_at_threshold :
    (b : Breaker) (k : Text) (start now later : ℕ) (early rest after : List Call)
    → IsSound (find b k)
    → phase_of (find b k) ≡ healthy []
    → FailsWithin start b.window k (early ++ rest)
    → Within start b.window now
    → suc (failures_for k (early ++ rest)) ≡ b.threshold
    → Before (now + b.open_for) k after
    → ((allow (run b early) k later).1 ≡ true)
      × ((allow (tripped_by b k (early ++ rest) now after) k later).1
          ≡ (if ltb later (now + b.open_for) then false else true))
unfolding admits
trips_at_threshold b k start now later early rest after sound clean h w last quiet =
    let cs : List Call = early ++ rest in
    let trip = failure_trips b k start now cs sound clean h w last in
    let shut = failure (run b cs) k now in
    let same : shut.settings ≡ b.settings =
      apply-settings fails (run b cs) k now ∙ run-settings b cs in
    let still =
      advance_all_tripped shut.settings k now after
        (subst (λ (t : Settings). Before (now + t.open_for) k after) (sym same) quiet) in
    (
      run_below b k start later early sound clean (FailsWithin-prefix start b.window k early rest h)
          (omega (arith, last, failures_for-prefix k early rest)),
      ground (arith, allow-run shut after k later trip.0, trip.1, same, still),
    )
