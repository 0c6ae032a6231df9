-- ===== src/Server/Completions/Isolation.antt =====
-- The requests that a replay of gateway/internal/server/chat.go may stem from.
use cogni_gate.Prelude.{
  ℕ, ◌≡◌, ◌∙◌, List, [], ◌∷◌, ◌++◌, Bool, true, false, Option, none, some, Text, if◌then◌else◌,
  refl, sym, ap, arith, inl, inr, ◌⊎◌, All,
}
use cogni_gate.Cache.{Entry, new_cache}
use cogni_gate.Routing.Dispatch.{Candidate}
use cogni_gate.Routing.Resolve.{served_by}
use cogni_gate.Server.Completions.{
  Completion, replayed, entry_for, response_key, key_for, cache_key_for, completion, completions,
}
use cogni_gate.Server.Completions.Stored.{empty-Holds}
use cogni_gate.Server.Completions.Replays.{
  NulFree, nul_split, Answers, Answered, completions-Holds, replayed-keyed,
}

-- The texts in front of the body in a key have no NUL byte.
abbrev pub Clean : Completion → Type 0
Clean r =
    NulFree r.tenant_id
    × ((primary : Candidate) → r.primary ≡ some primary → NulFree (served_by primary))

abbrev pub IsInjective : (Text → Text) → Type 0
IsInjective f = (s t : Text) → f s ≡ f t → s ≡ t

module _ (canonicalize : Text → Option Text) (digest : Text → Text) where
  -- What a key is made of.
  abbrev Keyed : Completion → Text → Text → Type 0
  Keyed r k served =
      (primary : Candidate) × (doc : Text) × (r.primary ≡ some primary)
      × (served ≡ served_by primary)
      × (canonicalize r.body ≡ some doc)
      × (k ≡ digest (r.tenant_id ++ (0 ∷ (served_by primary ++ (0 ∷ doc)))))

  with_primary :
      (r : Completion) (k served : Text) (primary : Candidate)
      → r.primary ≡ some primary
      → key_for canonicalize digest r (some primary) ≡ some (k, served)
      → Keyed r k served
  unfolding key_for response_key
  with_primary r k served primary p = go (canonicalize r.body) refl
    where
      go :
          (o : Option Text)
          → canonicalize r.body ≡ o
          → (elim (elim o as (λ _. Option Text) [
            | none ↦ none
            | some doc ↦ some (digest (r.tenant_id ++ (0 ∷ (served_by primary ++ (0 ∷ doc)))))
          ])
              as (λ _. Option (Text × Text)) [
                | none ↦ none
                | some key ↦ some (key, served_by primary)
              ])
            ≡ some (k, served)
          → Keyed r k served
      go none q h = absurd (ground (arith, h))
      go (some doc) q h = (primary, doc, p, ground (arith, h), q, ground (arith, h))

  key-Keyed :
      (r : Completion) (k served : Text)
      → cache_key_for canonicalize digest r ≡ some (k, served)
      → Keyed r k served
  unfolding cache_key_for key_for
  key-Keyed r k served h = by_plan r.plan.lookup h
    where
      by_primary :
          (o : Option Candidate)
          → r.primary ≡ o
          → key_for canonicalize digest r o ≡ some (k, served)
          → Keyed r k served
      by_primary none p g = absurd (ground (arith, g))
      by_primary (some primary) p g = with_primary r k served primary p g

      by_plan :
          (b : Bool)
          → (if b then key_for canonicalize digest r r.primary else none) ≡ some (k, served)
          → Keyed r k served
      by_plan true g = by_primary r.primary refl g
      by_plan false g = absurd (ground (arith, g))

  -- An earlier request of the same tenant, with the same canonical body, that the model which the later one is for
  -- answered with an entry.
  abbrev pub SameAsked : Completion → Entry → Completion → Type 0
  SameAsked r e x =
      (cand : Candidate) × (body : Text) × (primary : Candidate) × (x.answer ≡ some (cand, body))
      × (e ≡ entry_for cand body)
      × (r.primary ≡ some primary)
      × (served_by cand ≡ served_by primary)
      × (x.tenant_id ≡ r.tenant_id)
      × (canonicalize x.body ≡ canonicalize r.body)

  abbrev pub SomeAsked : Completion → Entry → List Completion → Type 0
  SomeAsked r e [] = ⊥
  SomeAsked r e (x ∷ xs) = SameAsked r e x ⊎ SomeAsked r e xs

  same_key :
      (r x : Completion) (k served : Text) (e : Entry)
      → IsInjective digest
      → Clean r
      → Clean x
      → cache_key_for canonicalize digest r ≡ some (k, served)
      → Answers canonicalize digest k e x
      → SameAsked r e x
  same_key r x k served e inj clean clean' h (cand, body, ans, is, keyed) =
      let (p, doc, rp, rs, rc, rk) = key-Keyed r k served h in
      let (p', doc', xp, xs, xc, xk) = key-Keyed x k (served_by cand) keyed in
      let outer =
        nul_split x.tenant_id r.tenant_id (served_by p' ++ (0 ∷ doc')) (served_by p ++ (0 ∷ doc))
          clean'.0 clean.0 (inj _ _ (sym xk ∙ rk)) in
      let inner =
        nul_split (served_by p') (served_by p) doc' doc (clean'.1 p' xp) (clean.1 p rp) outer.1 in
      (cand, body, p, ans, is, rp, xs ∙ inner.0, outer.0, xc ∙ ap (λ d. some d) inner.1 ∙ sym rc)

  same_keys :
      (r : Completion) (xs : List Completion) (k served : Text) (e : Entry)
      → IsInjective digest
      → Clean r
      → All Clean xs
      → cache_key_for canonicalize digest r ≡ some (k, served)
      → Answered canonicalize digest xs k e
      → SomeAsked r e xs
  same_keys r (x ∷ xs) k served e inj clean cleans h (inl a) =
      inl (same_key r x k served e inj clean cleans.0 h a)
  same_keys r (x ∷ xs) k served e inj clean cleans h (inr a) =
      inr (same_keys r xs k served e inj clean cleans.1 h a)
  same_keys r [] k served e inj clean cleans h a = absurd a

  -- A completion that is replayed from the cache, after any completions of any tenants that began with an empty
  -- cache, is what a dispatch gave to an earlier request of the same tenant, with the same canonical body, from the
  -- model that the request resolves to first; for a digest without collisions and tenants and models without NUL.
  pub replay_faithful :
      (earlier : List Completion) (r : Completion) (max_bytes max_entry_bytes : ℕ) (e : Entry)
      → IsInjective digest
      → Clean r
      → All Clean earlier
      → (completion canonicalize digest r
          (completions canonicalize digest earlier (new_cache max_bytes max_entry_bytes))).0
        ≡ replayed e
      → SomeAsked r e earlier
  replay_faithful earlier r max_bytes max_entry_bytes e inj clean cleans h =
      let P = Answered canonicalize digest earlier in
      let holds =
        completions-Holds canonicalize digest P earlier (new_cache max_bytes max_entry_bytes)
          (λ k e a. a) (empty-Holds P max_bytes max_entry_bytes) in
      let (k, served, keyed, answered) = replayed-keyed canonicalize digest P r _ e holds h in
      same_keys r earlier k served e inj clean cleans keyed answered
