-- ===== src/Memory/ApiKeys/Calls.antt =====
-- Calls on tenants and keys, and what each does to the table of keys.
use cogni_gate.Prelude.{
  ℕ, ◌≡◌, ◌≢◌, refl, ap, length, inl, inr, Bool, true, false, Option, none, some, List, [], ◌∷◌,
  arith, if◌then◌else◌, All, Text, text_dec, text_eq, lookup, insert, Option-cases, Bool-cases,
}
use cogni_gate.Memory.Tables.{Memory, Tenant, ApiKey, Plane, Result, ok, err, not_found, new_memory}
use cogni_gate.Memory.Tenants.{
  TenantPatch, create_tenant, update_tenant, delete_tenant, drop_keys, without_tenant,
}
use cogni_gate.Memory.ApiKeys.{create_api_key, minted, may_mint, revoke_api_key, revoked, with_key}
use cogni_gate.Memory.Credentials.{generate_api_key}
use cogni_gate.Memory.ApiKeys.KeyTable.{
  IsMap, Keeps, same-Keeps, drop_keys-Keeps, insert_other-Keeps, revoke-Keeps,
}

-- A call that changes tenants or keys, with the clock's reading and what is drawn at random.
pub data Call : Type 0 where
  creating_tenant : Text → Text → ℕ → Call
  updating_tenant : Text → TenantPatch → Call
  deleting_tenant : Text → Call
  minting : Text → Plane → Text → Text → Option ℕ → Text → Text → ℕ → Call
  revoking : Text → Text → ℕ → Call

-- A mint draws an id other than this one.
abbrev pub DrawsOther : Text → Call → Type 0
DrawsOther id (minting _ _ _ _ _ i _ _) = i ≢ id
DrawsOther id (creating_tenant _ _ _) = Unit
DrawsOther id (updating_tenant _ _) = Unit
DrawsOther id (deleting_tenant _) = Unit
DrawsOther id (revoking _ _ _) = Unit

unfoldable pub apply : (Text → Text) → Memory → Call → Memory
apply hash m (creating_tenant name id now) = (create_tenant m name id now).0
apply hash m (updating_tenant id p) = (update_tenant m id p).0
apply hash m (deleting_tenant id) = (delete_tenant m id).0
apply hash m (minting t p n s e i r now) = (create_api_key hash m t p n s e i r now).0
apply hash m (revoking t i now) = (revoke_api_key m t i now).0

unfoldable pub run : (Text → Text) → Memory → List Call → Memory
run hash m [] = m
run hash m (c ∷ cs) = run hash (apply hash m c) cs

pub create_tenant-keys :
    (m : Memory) (name id : Text) (now : ℕ) → (create_tenant m name id now).0.keys ≡ m.keys
unfolding create_tenant
create_tenant-keys m name id now = ground arith

pub update_tenant-keys :
    (m : Memory) (id : Text) (p : TenantPatch) → (update_tenant m id p).0.keys ≡ m.keys
unfolding update_tenant
update_tenant-keys m id p = ground arith

pub revoke-none :
    (m : Memory) (t i : Text) (now : ℕ)
    → lookup text_dec i m.keys ≡ none
    → revoke_api_key m t i now ≡ (m, err not_found)
unfolding revoke_api_key
revoke-none m t i now h = rw (h, revoke_api_key) refl

pub revoke-some :
    (m : Memory) (t i : Text) (now : ℕ) (k : ApiKey)
    → lookup text_dec i m.keys ≡ some k
    → revoke_api_key m t i now ≡ (
        if text_eq k.tenant_id t
        then (record m { keys = insert text_dec i (revoked k now) m.keys }, ok tt)
        else (m, err not_found))
unfolding revoke_api_key
revoke-some m t i now k h = rw (h, revoke_api_key) refl

pub if-Keeps :
    (id : Text) (b : Bool) (old x y : List (Text × ApiKey))
    → Keeps id old x
    → Keeps id old y
    → Keeps id old (if b then x else y)
if-Keeps id true old x y kx ky = kx
if-Keeps id false old x y kx ky = ky

pub revoke_api_key-Keeps :
    (id : Text) (m : Memory) (t i : Text) (now : ℕ)
    → Keeps id m.keys (revoke_api_key m t i now).0.keys
revoke_api_key-Keeps id m t i now = elim (Option-cases (lookup text_dec i m.keys)) [
  | inl h ↦ rw (revoke-none m t i now h) (same-Keeps id m.keys m.keys refl)
  | inr (k, h) ↦ elim (Bool-cases (text_eq k.tenant_id t)) [
    | inl e ↦ rw (revoke-some m t i now k h, e) (revoke-Keeps id i k now m.keys h)
    | inr e ↦ rw (revoke-some m t i now k h, e) (same-Keeps id m.keys m.keys refl)
  ]
]

pub delete-none :
    (m : Memory) (t : Text)
    → lookup text_dec t m.tenants ≡ none
    → delete_tenant m t ≡ (m, err not_found)
unfolding delete_tenant
delete-none m t h = rw (h, delete_tenant) refl

pub delete-some :
    (m : Memory) (t : Text) (x : Tenant)
    → lookup text_dec t m.tenants ≡ some x
    → delete_tenant m t ≡ (without_tenant m t, ok tt)
unfolding delete_tenant
delete-some m t x h = rw (h, delete_tenant) refl

pub without_tenant-keys : (m : Memory) (t : Text) → (without_tenant m t).keys ≡ drop_keys t m.keys
unfolding without_tenant
without_tenant-keys m t = refl

pub delete_tenant-Keeps :
    (id : Text) (m : Memory) (t : Text) → Keeps id m.keys (delete_tenant m t).0.keys
delete_tenant-Keeps id m t = elim (Option-cases (lookup text_dec t m.tenants)) [
  | inl h ↦ rw (delete-none m t h) (same-Keeps id m.keys m.keys refl)
  | inr (x, h) ↦ rw (delete-some m t x h, without_tenant-keys m t) (drop_keys-Keeps id t m.keys)
]

pub with_key-Keeps :
    (id : Text) (m : Memory) (k : ApiKey) → k.id ≢ id → Keeps id m.keys (with_key m k).keys
unfolding with_key
with_key-Keeps id m k ne = insert_other-Keeps id k.id k m.keys refl ne

pub create_api_key-Keeps :
    (hash : Text → Text) (id : Text) (m : Memory) (t : Text) (p : Plane) (n s : Text) (e : Option ℕ)
    (i r : Text) (now : ℕ)
    → i ≢ id
    → Keeps id m.keys (create_api_key hash m t p n s e i r now).0.keys
unfolding create_api_key minted
create_api_key-Keeps hash id m t p n s e i r now ne =
    let k = minted hash m t p n s e i r now in
    elim (may_mint m t p s)
      as (λ o.
        Keeps id m.keys
          (elim o as (λ _. Memory × Result (ApiKey × Text)) [
            | err x ↦ (m, err x)
            | ok _ ↦ (with_key m k, ok (k, generate_api_key p m.dev r))
          ]).0.keys) [ err x ↦ same-Keeps id m.keys m.keys refl | ok _ ↦ with_key-Keeps id m k ne ]

pub apply-Keeps :
    (hash : Text → Text) (id : Text) (m : Memory) (c : Call)
    → DrawsOther id c
    → Keeps id m.keys (apply hash m c).keys
unfolding apply
apply-Keeps hash id m (creating_tenant name i now) d =
    same-Keeps id m.keys (create_tenant m name i now).0.keys (create_tenant-keys m name i now)
apply-Keeps hash id m (updating_tenant i p) d =
    same-Keeps id m.keys (update_tenant m i p).0.keys (update_tenant-keys m i p)
apply-Keeps hash id m (deleting_tenant i) d = delete_tenant-Keeps id m i
apply-Keeps hash id m (minting t p n s e i r now) d =
    create_api_key-Keeps hash id m t p n s e i r now d
apply-Keeps hash id m (revoking t i now) d = revoke_api_key-Keeps id m t i now

pub run-Keeps :
    (hash : Text → Text) (id : Text) (cs : List Call) (m : Memory)
    → All (DrawsOther id) cs
    → Keeps id m.keys (run hash m cs).keys
unfolding run
run-Keeps hash id [] m d = same-Keeps id m.keys m.keys refl
run-Keeps hash id (c ∷ cs) m d =
    let first = apply-Keeps hash id m c d.0 in
    let rest = run-Keeps hash id cs (apply hash m c) d.1 in
    record {
      map = λ h. rest.map (first.map h);
      dead = λ h x. rest.dead (first.map h) (first.dead h x);
    }

pub ne-cons : (x : Text) → x ≢ 0 ∷ x
ne-cons x h = absurd (omega (arith, ap (λ (t : Text). length t) h))

-- An id that a call does not draw.
pub other_than : Call → Text
other_than (minting _ _ _ _ _ i _ _) = 0 ∷ i
other_than _ = []

pub other_than-DrawsOther : (c : Call) → DrawsOther (other_than c) c
unfolding other_than
other_than-DrawsOther (minting _ _ _ _ _ i _ _) = ne-cons i
other_than-DrawsOther (creating_tenant _ _ _) = tt
other_than-DrawsOther (updating_tenant _ _) = tt
other_than-DrawsOther (deleting_tenant _) = tt
other_than-DrawsOther (revoking _ _ _) = tt

-- Whatever is drawn, the table stays a map.
pub run-IsMap :
    (hash : Text → Text) (cs : List Call) (m : Memory) → IsMap m.keys → IsMap (run hash m cs).keys
unfolding run
run-IsMap hash [] m h = h
run-IsMap hash (c ∷ cs) m h =
    let first = apply-Keeps hash (other_than c) m c (other_than-DrawsOther c) in
    run-IsMap hash cs (apply hash m c) (first.map h)

pub new-IsMap : (dev : Bool) → IsMap (new_memory dev).keys
unfolding new_memory lookup
new-IsMap dev = record { distinct = tt; named = λ i k h. absurd (ground (arith, h)) }
