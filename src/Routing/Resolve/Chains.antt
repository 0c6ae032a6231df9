-- ===== src/Routing/Resolve/Chains.antt =====
-- What the candidates of a request are: bounded, distinct, the tenant's own, and there where the
-- chain has anything that can serve.
use cogni_gate.Prelude.{
  member, ℕ, zero, suc, ◌≤◌, ◌≡◌, ◌⊎◌, ◌∙◌, refl, sym, subst, inl, inr, Bool, true, false, Option,
  none, some, List, [], ◌∷◌, arith, length, All, Text, Option-cases,
}
use cogni_gate.Store.{Alias, Route}
use cogni_gate.Routing.Dispatch.{Candidate}
use cogni_gate.Catalog.{Snapshot}
use cogni_gate.Routing.Resolve.{
  served_by, resolve_ref, first_unseen, collect, resolved, alias_unresolvable, model_not_found,
  concluded, resolve, by_name, chain_for, is_alias,
}

first_unseen_new :
    (seen : List Text) (cs : List Candidate) (c : Candidate)
    → first_unseen seen cs ≡ some c
    → member (served_by c) seen ≡ false
unfolding first_unseen
first_unseen_new seen [] c h = ground arith
first_unseen_new seen (x ∷ cs) c h = ground (arith, first_unseen_new seen cs c)

-- No two candidates would be served by the same model, nor by a model seen before.
abbrev pub Apart : List Text → List Candidate → Type 0
Apart seen [] = Unit
Apart seen (c ∷ cs) = (member (served_by c) seen ≡ false) × Apart (served_by c ∷ seen) cs

abbrev pub Sound : ℕ → List Text → Text → List Candidate → Type 0
Sound depth seen tenant cs =
    (length cs ≤ depth) × Apart seen cs × All (λ c. c.tenant_id ≡ tenant) cs

served_by-stamped :
    (c : Candidate) (tenant : Text) → served_by (record c { tenant_id = tenant }) ≡ served_by c
unfolding served_by
served_by-stamped c tenant = refl

collect-none :
    (left : ℕ) (seen : List Text) (tenant : Text) (aliases : List (Text × Alias)) (snap : Snapshot)
    (r : Text) (chain : List Text)
    → first_unseen seen (resolve_ref r aliases snap) ≡ none
    → collect (suc left) seen tenant aliases snap (r ∷ chain)
      ≡ collect (suc left) seen tenant aliases snap chain
unfolding collect
collect-none left seen tenant aliases snap r chain h = rw (h, collect)

collect-some :
    (left : ℕ) (seen : List Text) (tenant : Text) (aliases : List (Text × Alias)) (snap : Snapshot)
    (r : Text) (chain : List Text) (c : Candidate)
    → first_unseen seen (resolve_ref r aliases snap) ≡ some c
    → collect (suc left) seen tenant aliases snap (r ∷ chain)
      ≡ record c { tenant_id = tenant }
        ∷ collect left (served_by c ∷ seen) tenant aliases snap chain
unfolding collect
collect-some left seen tenant aliases snap r chain c h = rw (h, collect)

-- The candidates of a chain are at most as many as the depth, are stamped with the tenant, and no
-- two of them are the same model of the same provider.
pub collect-Sound :
    (left : ℕ) (seen : List Text) (tenant : Text) (aliases : List (Text × Alias)) (snap : Snapshot)
    (chain : List Text)
    → Sound left seen tenant (collect left seen tenant aliases snap chain)
unfolding collect served_by
collect-Sound left seen tenant aliases snap [] = (omega arith, tt, tt)
collect-Sound zero seen tenant aliases snap (r ∷ chain) = (omega arith, tt, tt)
collect-Sound (suc left) seen tenant aliases snap (r ∷ chain) =
    elim (Option-cases (first_unseen seen (resolve_ref r aliases snap))) [
      | inl h ↦
          rw (collect-none left seen tenant aliases snap r chain h)
            (collect-Sound (suc left) seen tenant aliases snap chain)
      | inr (c, h) ↦
          let rest = collect-Sound left (served_by c ∷ seen) tenant aliases snap chain in
          rw (collect-some left seen tenant aliases snap r chain c h) (
            ground (arith, rest.0),
            (first_unseen_new seen (resolve_ref r aliases snap) c h, rest.1),
            (refl, rest.2),
          )
    ]

concluded-resolved :
    (q : Text) (b : Bool) (cs ds : List Candidate)
    → concluded q b cs ≡ resolved ds
    → (cs ≡ ds) × (1 ≤ length ds)
unfolding concluded
concluded-resolved q b (c ∷ cs) ds h = ground (arith, h)
concluded-resolved q true [] ds h = absurd (ground (arith, h))
concluded-resolved q false [] ds h = absurd (ground (arith, h))

-- Where a request resolves, there is a candidate, there are at most as many as the depth, all are
-- stamped with the tenant, and no two of them are the same model of the same provider.
pub resolve-Sound :
    (depth : ℕ) (tenant q : Text) (snap : Option Snapshot) (aliases : Option (List Alias))
    (routes : Option (List Route)) (cs : List Candidate)
    → resolve depth tenant q snap aliases routes ≡ resolved cs
    → (1 ≤ length cs) × Sound depth [] tenant cs
unfolding resolve
resolve-Sound depth tenant q none aliases routes cs h = absurd (ground (arith, h))
resolve-Sound depth tenant q (some snap) none routes cs h = absurd (ground (arith, h))
resolve-Sound depth tenant q (some snap) (some aliases) none cs h = absurd (ground (arith, h))
resolve-Sound depth tenant q (some snap) (some aliases) (some routes) cs h =
    let names = by_name aliases [] in
    let chain = chain_for routes q in
    let e =
      concluded-resolved q (is_alias q names) (collect depth [] tenant names snap chain) cs h in
    (e.1, subst (λ x. Sound depth [] tenant x) e.0 (collect-Sound depth [] tenant names snap chain))

first_unseen-nil : (cs : List Candidate) → first_unseen [] cs ≡ none → cs ≡ []
unfolding first_unseen member
first_unseen-nil [] h = refl
first_unseen-nil (c ∷ cs) h = absurd (ground (arith, h))

collect-nil :
    (left : ℕ) (tenant : Text) (aliases : List (Text × Alias)) (snap : Snapshot) (chain : List Text)
    → collect (suc left) [] tenant aliases snap chain ≡ []
    → All (λ r. resolve_ref r aliases snap ≡ []) chain
unfolding collect
collect-nil left tenant aliases snap [] h = tt
collect-nil left tenant aliases snap (r ∷ chain) h =
    elim (Option-cases (first_unseen [] (resolve_ref r aliases snap))) [
      | inl e ↦ (
        first_unseen-nil (resolve_ref r aliases snap) e,
        collect-nil left tenant aliases snap chain
            (sym (collect-none left [] tenant aliases snap r chain e) ∙ h),
      )
      | inr (c, e) ↦
          absurd (ground (arith, h, collect-some left [] tenant aliases snap r chain c e))
    ]

concluded-not_found :
    (q : Text) (b : Bool) (cs : List Candidate)
    → (concluded q b cs ≡ model_not_found q) ⊎ (concluded q b cs ≡ alias_unresolvable q)
    → cs ≡ []
unfolding concluded
concluded-not_found q b [] h = refl
concluded-not_found q b (c ∷ cs) (inl h) = absurd (ground (arith, h))
concluded-not_found q b (c ∷ cs) (inr h) = absurd (ground (arith, h))

-- A request that is answered as not found, or as an alias that resolves to nothing, has no position
-- in its chain that resolves to a catalog entry, where the depth is at least one.
pub resolve-not_found :
    (left : ℕ) (tenant q : Text) (snap : Snapshot) (aliases : List Alias) (routes : List Route)
    → (resolve (suc left) tenant q (some snap) (some aliases) (some routes) ≡ model_not_found q)
      ⊎ (resolve (suc left) tenant q (some snap) (some aliases) (some routes)
          ≡ alias_unresolvable q)
    → All (λ r. resolve_ref r (by_name aliases []) snap ≡ []) (chain_for routes q)
unfolding resolve
resolve-not_found left tenant q snap aliases routes h =
    let names = by_name aliases [] in
    let chain = chain_for routes q in
    collect-nil left tenant names snap chain
      (concluded-not_found q (is_alias q names) (collect (suc left) [] tenant names snap chain) h)
