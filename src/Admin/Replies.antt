-- ===== src/Admin/Replies.antt =====
-- What a handler that replied has got past.
use cogni_gate.Prelude.{
  ℕ, ◌≡◌, arith, inl, inr, ◌⊎◌, Option, none, some, [], Text, text_eq, trim_space, Bool-cases,
}
use cogni_gate.Memory.{ApiKey}
use cogni_gate.Memory.ApiKeys.{list_api_keys}
use cogni_gate.Server.ApiErrors.{ApiError}
use cogni_gate.Admin.{Gateway, Externals, Reply, replied, failed, tenant_scope, scoped, parsed}
use cogni_gate.Admin.Quotas.{has_key_id, at_target}

pub not_replied :
    {A : Type 0} (g h : Gateway) (e : ApiError) (s : ℕ) (a : A)
    → ◌≡◌ {A = Gateway × Reply A} (g, failed e) (h, replied s a)
    → ⊥
not_replied g h e s a q = absurd (ground (arith, q))

-- A handler that replied got past its opening.
pub scoped-replied :
    {A : Type 0} (x : Externals) (key : Option ApiKey) (path : Text) (g h : Gateway)
    (rest : Text → Gateway × Reply A) (s : ℕ) (a : A)
    → scoped x key path g rest ≡ (h, replied s a)
    → (id : Text) × (rest id ≡ (h, replied s a))
unfolding scoped
scoped-replied {A = A} x key path g h rest s a q = go (tenant_scope x key path) q
  where
    go :
        (o : ApiError ⊎ Text)
        → (elim o as (λ _. Gateway × Reply A) [ inl e ↦ (g, failed e) | inr id ↦ rest id ])
          ≡ (h, replied s a)
        → (id : Text) × (rest id ≡ (h, replied s a))
    go (inl e) r = absurd (not_replied g h e s a r)
    go (inr id) r = (id, r)

pub parsed-replied :
    {A R : Type 0} (x : Externals) (body : Option R) (g h : Gateway) (rest : R → Gateway × Reply A)
    (s : ℕ) (a : A)
    → parsed x body g rest ≡ (h, replied s a)
    → (r : R) × (rest r ≡ (h, replied s a))
unfolding parsed
parsed-replied x none g h rest s a q = absurd (not_replied g h _ s a q)
parsed-replied x (some r) g h rest s a q = (r, q)

pub at_target-replied :
    {A : Type 0} (x : Externals) (key : Option ApiKey) (path raw : Text) (g h : Gateway)
    (rest : Text → Text → Gateway × Reply A) (s : ℕ) (a : A)
    → at_target x key path raw g rest ≡ (h, replied s a)
    → (tenant : Text) × (id : Text) × (rest tenant id ≡ (h, replied s a))
unfolding at_target
at_target-replied x key path raw g h rest s a q =
    let opened = scoped-replied x key path g h _ s a q in
    elim (Bool-cases (text_eq (trim_space raw) [])) [
      | inl t ↦ (opened.0, [], ground (arith, t, opened.1))
      | inr f ↦ elim (Bool-cases (has_key_id (trim_space raw) (list_api_keys g.store opened.0))) [
        | inl t ↦ (opened.0, trim_space raw, ground (arith, f, t, opened.1))
        | inr u ↦ absurd (ground (arith, f, u, opened.1))
      ]
    ]

pub replied_inj :
    {A : Type 0} (g h : Gateway) (s u : ℕ) (a b : A)
    → ◌≡◌ {A = Gateway × Reply A} (g, replied s a) (h, replied u b)
    → (g ≡ h) × (a ≡ b)
replied_inj g h s u a b e = ground (arith, e)
