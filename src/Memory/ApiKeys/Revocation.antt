-- ===== src/Memory/ApiKeys/Revocation.antt =====
-- What a revocation of gateway/internal/store/memory.go leaves behind.
use cogni_gate.Prelude.{
  ℕ, ◌≡◌, ◌≢◌, refl, inl, inr, Bool, true, Option, none, some, List, ◌∷◌, arith, if◌then◌else◌, All,
  Text, text_dec, lookup, lookup-insert, Option-cases, Bool-cases,
}
use cogni_gate.Memory.Tables.{Memory, Tenant, ApiKey, ok, err, not_found, new_memory}
use cogni_gate.Memory.ApiKeys.{
  revoke_api_key, revoked, not_revoked, is_active, resolve_key, resolved_tenant, key_of_hash,
}
use cogni_gate.Memory.ApiKeys.KeyTable.{IsMap, Dead, revoked-not_revoked}
use cogni_gate.Memory.ApiKeys.Calls.{
  Call, DrawsOther, run, revoke-none, revoke-some, revoke_api_key-Keeps, run-Keeps, run-IsMap,
  new-IsMap,
}

revoke-Dead :
    (m : Memory) (t i : Text) (now : ℕ)
    → (revoke_api_key m t i now).1 ≡ ok tt
    → Dead i (revoke_api_key m t i now).0.keys
revoke-Dead m t i now h x q = elim (Option-cases (lookup text_dec i m.keys)) [
  | inl e ↦ absurd (ground (arith, h, revoke-none m t i now e))
  | inr (k, e) ↦ ground (
    arith,
    h,
    q,
    revoke-some m t i now k e,
    lookup-insert text_dec i i (revoked k now) m.keys,
    revoked-not_revoked k now,
  )
]

-- A key object that a credential resolves to is in the table and not revoked.
resolve-unknown :
    (hash : Text → Text) (m : Memory) (p : Text) (now : ℕ)
    → key_of_hash hash m (hash p) ≡ none
    → resolve_key hash m p now ≡ err not_found
unfolding resolve_key
resolve-unknown hash m p now h = rw (h, resolve_key) refl

resolve-known :
    (hash : Text → Text) (m : Memory) (p : Text) (now : ℕ) (k : ApiKey)
    → key_of_hash hash m (hash p) ≡ some k
    → resolve_key hash m p now
      ≡ (if is_active k now then resolved_tenant hash m k else err not_found)
unfolding resolve_key
resolve-known hash m p now k h = rw (h, resolve_key) refl

resolved_tenant-key :
    (hash : Text → Text) (m : Memory) (k x : ApiKey) (t : Option Tenant)
    → resolved_tenant hash m k ≡ ok (x, t)
    → x ≡ k
unfolding resolved_tenant
resolved_tenant-key hash m k x t h = ground (arith, h)

key_of_hash-stored :
    (hash : Text → Text) (m : Memory) (h : Text) (k : ApiKey)
    → key_of_hash hash m h ≡ some k
    → (i : Text) × (lookup text_dec i m.keys ≡ some k)
unfolding key_of_hash
key_of_hash-stored hash m h k e = go (lookup text_dec h m.keys_by_hash) e
  where
    go :
        (o : Option Text)
        → (elim o as (λ _. Option ApiKey) [ none ↦ none | some i ↦ lookup text_dec i m.keys ])
          ≡ some k
        → (i : Text) × (lookup text_dec i m.keys ≡ some k)
    go none q = absurd (ground (arith, q))
    go (some i) q = (i, q)

is_active-not_revoked :
    (k : ApiKey) (now : ℕ) → is_active k now ≡ true → not_revoked k.revoked_at ≡ true
unfolding is_active
is_active-not_revoked k now h = ground (arith, h)

dead_unresolved :
    (hash : Text → Text) (m : Memory) (id p : Text) (now : ℕ) (k : ApiKey) (t : Option Tenant)
    → IsMap m.keys
    → Dead id m.keys
    → resolve_key hash m p now ≡ ok (k, t)
    → k.id ≢ id
dead_unresolved hash m id p now k t h d r e = elim (Option-cases (key_of_hash hash m (hash p))) [
  | inl q ↦ absurd (ground (arith, r, resolve-unknown hash m p now q))
  | inr (x, q) ↦
      let (i, l) = key_of_hash-stored hash m (hash p) x q in
      let v = resolve-known hash m p now x q in
      elim (Bool-cases (is_active x now)) [
        | inr a ↦ absurd (ground (arith, r, v, a))
        | inl a ↦
            let same = resolved_tenant-key hash m x k t (ground (arith, r, v, a)) in
            absurd (ground (arith, l, e, same, h.named i x l, d x, is_active-not_revoked x now a))
      ]
]

-- In a store that any calls on tenants and keys have built, once a revocation of a key has succeeded
-- no credential resolves to a key of that id, at any time and after any further calls, unless a later
-- mint draws the same id.
pub revoked_for_good :
    (hash : Text → Text) (dev : Bool) (before after : List Call) (tenant id : Text) (now : ℕ)
    (plaintext : Text) (later : ℕ) (k : ApiKey) (t : Option Tenant)
    → let m = run hash (new_memory dev) before in
      (revoke_api_key m tenant id now).1 ≡ ok tt
      → All (DrawsOther id) after
      → resolve_key hash (run hash (revoke_api_key m tenant id now).0 after) plaintext later
        ≡ ok (k, t)
      → k.id ≢ id
revoked_for_good hash dev before after tenant id now plaintext later k t done fresh r =
    let m = run hash (new_memory dev) before in
    let m' = (revoke_api_key m tenant id now).0 in
    let is_map = run-IsMap hash before (new_memory dev) (new-IsMap dev) in
    let is_map' = (revoke_api_key-Keeps (0 ∷ id) m tenant id now).map is_map in
    let keeps = run-Keeps hash id after m' fresh in
    dead_unresolved hash (run hash m' after) id plaintext later k t (keeps.map is_map')
      (keeps.dead is_map' (revoke-Dead m tenant id now done)) r
