-- ===== src/Routing/Breaker/Promises.antt =====
-- What callers can rely on, for a breaker after any calls at all.
use cogni_gate.Prelude.{
  ℕ, ◌+◌, ◌<◌, ◌≡◌, ◌≢◌, refl, true, false, some, List, [], ◌∷◌, arith, if◌then◌else◌, ltb, All,
  Text,
}
use cogni_gate.Routing.Breaker.Calls.{allows, succeeds, Call, run}
use cogni_gate.Routing.Breaker.Machine.{
  tripped, awaiting, advance, admits, advance_all, phase_of, IsSound, allow-admits, allow-run,
  apply-Steps,
}
use cogni_gate.Routing.Breaker.{Breaker, Settings, Entry, state_closed, state_open, find, allow}

-- The only calls for `k` are requests.
abbrev pub OnlyAllows : Text → List Call → Type 0
OnlyAllows k = All (λ c. c.key ≡ k → c.op ≡ allows)

advance_all_awaiting :
    (s : Settings) (k : Text) (cs : List Call)
    → OnlyAllows k cs
    → advance_all s k cs awaiting ≡ awaiting
unfolding advance_all advance
advance_all_awaiting s k [] h = refl
advance_all_awaiting s k (c ∷ cs) h = ground (arith, advance_all_awaiting s k cs h.1)

-- No success for `k`, and nothing for `k` at the deadline or later.
abbrev pub Before : ℕ → Text → List Call → Type 0
Before deadline k = All (λ c. c.key ≡ k → (c.op ≢ succeeds) × (c.now < deadline))

pub advance_all_tripped :
    (s : Settings) (k : Text) (t : ℕ) (cs : List Call)
    → Before (t + s.open_for) k cs
    → advance_all s k cs (tripped t) ≡ tripped t
unfolding advance_all advance
advance_all_tripped s k t [] h = refl
advance_all_tripped s k t (c ∷ cs) h = ground (arith, advance_all_tripped s k t cs h.1)

-- While a probe is out, every other request for its key is refused, at any time and whatever is
-- called for other keys, until an outcome is recorded for the key.
pub probe_exclusive :
    (b : Breaker) (k : Text) (now later : ℕ) (e : Entry) (cs : List Call)
    → IsSound (find b k)
    → find b k ≡ some e
    → e.state ≢ state_closed
    → (allow b k now).1 ≡ true
    → OnlyAllows k cs
    → (allow (run (allow b k now).0 cs) k later).1 ≡ false
unfolding advance admits
probe_exclusive b k now later e cs sound found shut ok only =
    let b' = (allow b k now).0 in
    let step = apply-Steps allows b k now sound in
    let out : phase_of (find b' k) ≡ awaiting =
      ground (arith, step.1, allow-admits b k now sound) in
    let still = advance_all_awaiting b'.settings k cs only in
    ground (arith, allow-run b' cs k later step.0, still)

-- An open breaker refuses requests for its key up to its deadline, `open_for` after it opened, and
-- admits the first one from then on, whatever is called meanwhile but a success for the key.
pub open_until_deadline :
    (b : Breaker) (k : Text) (later : ℕ) (e : Entry) (cs : List Call)
    → find b k ≡ some e
    → e.state ≡ state_open
    → Before (e.opened_at + b.open_for) k cs
    → (allow (run b cs) k later).1 ≡ (if ltb later (e.opened_at + b.open_for) then false else true)
unfolding admits
open_until_deadline b k later e cs found is_open before =
    let at_trip : phase_of (find b k) ≡ tripped e.opened_at = ground arith in
    let still = advance_all_tripped b.settings k e.opened_at cs before in
    ground (arith, allow-run b cs k later (ground arith), still)
