-- ===== src/Routing/Dispatch/Cascade.antt =====
-- What a cascade accounts for: the candidates it tried, the keys it walked, the calls it saved.
use cogni_gate.Prelude.{
  ℕ, suc, ◌≡◌, ◌∙◌, inl, inr, Bool, true, false, List, [], ◌∷◌, ◌++◌, map, arith, All, Option-cases,
  Text,
}
use mathlib.Core.List.{append-nil, append_assoc}
use cogni_gate.Store.{Provider}
use cogni_gate.Routing.Breaker.{
  Breaker, Entry, State as Position, state_closed, state_open, state_half_open, find, allow,
  allow_in,
}
use cogni_gate.Routing.Breaker.Calls.{allow-none, allow-some}
use cogni_gate.Routing.Dispatch.{
  Upstream, State, Candidate, candidate_key, Attempt, went_on, exhausted, untried, step,
  dispatch_from, dispatch,
}

allow_in_refused :
    (s : Position) (b : Breaker) (k : Text) (now : ℕ) (e : Entry)
    → (allow_in s b k now e).1 ≡ false
    → allow_in s b k now e ≡ (b, false)
unfolding allow_in
allow_in_refused state_closed b k now e h = ground arith
allow_in_refused state_open b k now e h = ground arith
allow_in_refused state_half_open b k now e h = ground arith

-- A refusal changes nothing.
allow_refused :
    (b : Breaker) (k : Text) (now : ℕ) → (allow b k now).1 ≡ false → allow b k now ≡ (b, false)
allow_refused b k now h = elim (Option-cases (find b k)) [
  | inl missing ↦ ground (arith, allow-none b k now missing)
  | inr (e, found) ↦
      let same = allow-some b k now found in
      same ∙ allow_in_refused e.state b k now e (rw same at h)
]

-- The attempt of a candidate whose breaker refused it.
unfoldable pub skip : Candidate → Attempt
skip cand = record (untried cand) { skipped = true }

module _ {W : Type 0} (u : Upstream W) (providers : List Provider) (body : Text) (stream : Bool)
    (path : Text) where
  step_skips :
      (s : State W) (c : Candidate)
      → (allow s.breaker (candidate_key c) (u.now s.world)).1 ≡ false
      → step u s providers c body stream path ≡ (s, went_on (skip c))
  unfolding step skip
  step_skips s c h = ground (arith, allow_refused s.breaker (candidate_key c) (u.now s.world) h)

  dispatch_from_closed_off :
      (s : State W) (depth : ℕ) (attempts : List Attempt) (cands : List Candidate)
      → All (λ c. (allow s.breaker (candidate_key c) (u.now s.world)).1 ≡ false) cands
      → dispatch_from u s providers body stream path depth attempts cands
        ≡ (s, exhausted (attempts ++ map skip cands))
  unfolding dispatch_from
  dispatch_from_closed_off s depth attempts [] h = rw append-nil
  dispatch_from_closed_off s depth attempts (c ∷ cands) h = ground (
    arith,
    step_skips s c h.0,
    dispatch_from_closed_off s (suc depth) (attempts ++ (skip c ∷ [])) cands h.1,
    append_assoc attempts (skip c ∷ []) (map skip cands),
  )

  -- Where every candidate's breaker refuses, the dispatch ends with one skipped attempt for each, in
  -- order, and makes no upstream call: the world, the breaker and the key pools are as before.
  pub dispatch_closed_off :
      (s : State W) (cands : List Candidate)
      → All (λ c. (allow s.breaker (candidate_key c) (u.now s.world)).1 ≡ false) cands
      → dispatch u s providers cands body stream path ≡ (s, exhausted (map skip cands))
  unfolding dispatch
  dispatch_closed_off s cands h = dispatch_from_closed_off s 0 [] cands h
