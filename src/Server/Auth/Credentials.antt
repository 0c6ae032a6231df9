-- ===== src/Server/Auth/Credentials.antt =====
-- Which credentials pass gateway/internal/server/middleware.go.
use cogni_gate.Prelude.{
  ℕ, ◌≡◌, ◌≢◌, ◌∙◌, sym, refl, ap, List, [], Bool, true, false, Option, none, some, Text, text_eq,
  if◌then◌else◌, arith, ◌⊎◌, inl, inr, All, Option-cases, Bool-cases,
}
use cogni_gate.Memory.{
  Memory, Plane, plane_data, plane_admin, ApiKey, Tenant, Result, ok, err, new_memory,
}
use cogni_gate.Memory.Credentials.{plane_of, generate_api_key, scheme_of, plane_of-generate}
use cogni_gate.Memory.ApiKeys.{resolve_key, revoke_api_key}
use cogni_gate.Memory.ApiKeys.Calls.{Call, DrawsOther, run}
use cogni_gate.Memory.ApiKeys.Revocation.{revoked_for_good}
use cogni_gate.Server.ApiErrors.{invalid_api_key, wrong_plane}
use cogni_gate.Server.Auth.{
  bearer, bootstrap_matches, plane_text, is_plane, bootstrap_key, admitted, refused, is_suspended,
  judged, by_store, auth,
}

-- The bootstrap key on the admin plane.
abbrev pub Bootstraps : Text → Plane → Text → ApiKey → Option Tenant → Type 0
Bootstraps bootstrap want raw key tenant =
    (bootstrap_matches bootstrap raw ≡ true)
    × (want ≡ plane_admin)
    × (key ≡ bootstrap_key)
    × (tenant ≡ none)

-- A key of the store, of the plane by its spelling and by its record, whose tenant is not suspended.
abbrev pub Resolves : (Text → Text) → Plane → Text → Memory → ℕ → ApiKey → Option Tenant → Type 0
Resolves hash want raw m now key tenant =
    (plane_of raw ≡ some want)
    × (resolve_key hash m raw now ≡ ok (key, tenant))
    × (key.plane ≡ want)
    × (is_suspended tenant ≡ false)

same_plane : (p q : Plane) → is_plane p q ≡ true → p ≡ q
same_plane plane_data plane_data h = refl
same_plane plane_data plane_admin h = absurd (ground (arith, h))
same_plane plane_admin plane_data h = absurd (ground (arith, h))
same_plane plane_admin plane_admin h = refl

other_plane : (p q : Plane) → p ≢ q → is_plane p q ≡ false
other_plane plane_data plane_data h = absurd (h refl)
other_plane plane_data plane_admin h = refl
other_plane plane_admin plane_data h = refl
other_plane plane_admin plane_admin h = absurd (h refl)

generate-nonempty : (p : Plane) (dev : Bool) (token : Text) → generate_api_key p dev token ≢ []
unfolding generate_api_key scheme_of
generate-nonempty plane_data true token e = ground (arith, e)
generate-nonempty plane_data false token e = ground (arith, e)
generate-nonempty plane_admin true token e = ground (arith, e)
generate-nonempty plane_admin false token e = ground (arith, e)

judged-admitted :
    (want : Plane) (r : Result (ApiKey × Option Tenant)) (key : ApiKey) (tenant : Option Tenant)
    → judged want r ≡ admitted key tenant
    → (r ≡ ok (key, tenant)) × (key.plane ≡ want) × (is_suspended tenant ≡ false)
unfolding judged
judged-admitted want (err e) key tenant h = absurd (ground (arith, h))
judged-admitted want (ok (k, t)) key tenant h = elim (Bool-cases (is_plane k.plane want)) [
  | inl same ↦ ground (arith, h, same, same_plane k.plane want same)
  | inr other ↦ absurd (ground (arith, h, other))
]

by_store-none :
    (hash : Text → Text) (bootstrap : Text) (want : Plane) (raw : Text) (m : Memory) (now : ℕ)
    → plane_of raw ≡ none
    → by_store hash bootstrap want raw m now ≡ refused invalid_api_key
unfolding by_store
by_store-none hash bootstrap want raw m now e = rw (e, by_store) refl

by_store-some :
    (hash : Text → Text) (bootstrap : Text) (want : Plane) (raw : Text) (m : Memory) (now : ℕ)
    (p : Plane)
    → plane_of raw ≡ some p
    → by_store hash bootstrap want raw m now ≡ (
        if is_plane p want
        then judged want (resolve_key hash m raw now)
        else refused (wrong_plane (plane_text want)))
unfolding by_store
by_store-some hash bootstrap want raw m now p e = rw (e, by_store) refl

by_store-Resolves :
    (hash : Text → Text) (bootstrap : Text) (want : Plane) (raw : Text) (m : Memory) (now : ℕ)
    (key : ApiKey) (tenant : Option Tenant)
    → by_store hash bootstrap want raw m now ≡ admitted key tenant
    → Resolves hash want raw m now key tenant
by_store-Resolves hash bootstrap want raw m now key tenant h = elim (Option-cases (plane_of raw)) [
  | inl none_of ↦ absurd (ground (arith, h, by_store-none hash bootstrap want raw m now none_of))
  | inr (p, of) ↦
      let v = by_store-some hash bootstrap want raw m now p of in
      elim (Bool-cases (is_plane p want)) [
        | inr other ↦ absurd (ground (arith, h, v, other))
        | inl same ↦
            let j =
              judged-admitted want (resolve_key hash m raw now) key tenant
                (ground (arith, h, v, same)) in
            (of ∙ ap (λ q. some q) (same_plane p want same), j.0, j.1, j.2)
      ]
]

auth-Admits :
    (hash : Text → Text) (bootstrap : Text) (want : Plane) (header : Text) (m : Memory) (now : ℕ)
    (key : ApiKey) (tenant : Option Tenant)
    → auth hash bootstrap want header m now ≡ admitted key tenant
    → Bootstraps bootstrap want (bearer header) key tenant
      ⊎ Resolves hash want (bearer header) m now key tenant
unfolding auth
auth-Admits hash bootstrap want header m now key tenant h =
    elim (Bool-cases (text_eq (bearer header) [])) [
      | inl empty ↦ absurd (ground (arith, h, empty))
      | inr some_raw ↦ elim (Bool-cases (bootstrap_matches bootstrap (bearer header))) [
        | inl boots ↦ elim (Bool-cases (is_plane want plane_admin)) [
          | inl admin ↦
              inl (ground (arith, h, some_raw, boots, admin, same_plane want plane_admin admin))
          | inr other ↦ absurd (ground (arith, h, some_raw, boots, other))
        ]
        | inr other ↦ inr (
            by_store-Resolves hash bootstrap want (bearer header) m now key tenant
              (ground (arith, h, some_raw, other)))
      ]
    ]

-- In a store that any calls on tenants and keys have built, after a revocation that succeeded and any further
-- calls, unless a later mint draws the same id: what is admitted is the bootstrap key, on the admin plane, or a
-- key other than the revoked one that the credential resolves to, of the plane asked for by its spelling and by its
-- record, of a tenant that is not suspended.
pub revoked_key_refused :
    (hash : Text → Text) (dev : Bool) (earlier after : List Call) (tenant id : Text) (now : ℕ)
    (bootstrap : Text) (want : Plane) (header : Text) (later : ℕ) (k : ApiKey) (t : Option Tenant)
    → let m = run hash (new_memory dev) earlier in
      let m' = run hash (revoke_api_key m tenant id now).0 after in
      (revoke_api_key m tenant id now).1 ≡ ok tt
      → All (DrawsOther id) after
      → auth hash bootstrap want header m' later ≡ admitted k t
      → Bootstraps bootstrap want (bearer header) k t
        ⊎ (Resolves hash want (bearer header) m' later k t × (k.id ≢ id))
revoked_key_refused hash dev earlier after tenant id now bootstrap want header later k t done fresh
      h =
    elim (auth-Admits hash bootstrap want header _ later k t h) [
      | inl boots ↦ inl boots
      | inr resolves ↦ inr (
        resolves,
        revoked_for_good hash dev earlier after tenant id now (bearer header) later k t done fresh
            resolves.1,
      )
    ]

-- A credential minted for one plane and sent to the other is answered with wrong_plane, whatever the store holds, where
-- it is not the bootstrap key and the header carries it as minted.
pub minted-wrong_plane :
    (hash : Text → Text) (bootstrap : Text) (minted_for want : Plane) (dev : Bool)
    (token header : Text) (m : Memory) (now : ℕ)
    → bearer header ≡ generate_api_key minted_for dev token
    → bootstrap_matches bootstrap (bearer header) ≡ false
    → minted_for ≢ want
    → auth hash bootstrap want header m now ≡ refused (wrong_plane (plane_text want))
unfolding auth
minted-wrong_plane hash bootstrap minted_for want dev token header m now sent other crossed =
    ground (
      arith,
      other,
      other_plane minted_for want crossed,
      by_store-some hash bootstrap want (bearer header) m now minted_for
          (ap plane_of sent ∙ plane_of-generate minted_for dev token),
      λ (empty : bearer header ≡ []). generate-nonempty minted_for dev token (sym sent ∙ empty),
    )
