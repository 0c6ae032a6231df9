-- ===== src/Quota/Enforced.antt =====
-- What an evaluation rejects when it reads the store.
use cogni_gate.Prelude.{
  ℕ, ◌-◌, ◌≡◌, ◌≢◌, ◌≤◌, refl, sym, ap, ◌∙◌, ◌⊎◌, inl, inr, arith, Bool, true, false, Option, none,
  some, List, [], ◌∷◌, ◌++◌, Text, text_dec, has_prefix, cut_prefix, lookup, All,
}
use cogni_gate.Quota.{
  Period, SlotPosition, QuotaEntry, QuotaState, quota_ok, quota_soft_exceeded, quota_hard_exceeded,
  quota_gauge, weigh, weigh_all, bind_slots, verdict_of, rejection_of, Rejection, budget_exceeded,
  quota_exceeded,
}
use cogni_gate.Quota.Binding.{Covers, bind_slots-Covers}
use cogni_gate.Quota.Cached.{
  QuotaScope, scope_key, CachedEntry, QuotaCache, without_prefix, forget_quotas, verdict_at,
  refusal_at,
}
use cogni_gate.Server.ApiErrors.{
  ApiError, with_retry_after, budget_exceeded_error, quota_exceeded_error, new_err,
}

-- Some slot of the list has reached its cap.
abbrev pub AnyHard : List SlotPosition → Type 0
AnyHard [] = ⊥
AnyHard (p ∷ slots) = (p.state ≡ quota_hard_exceeded) ⊎ AnyHard slots

hard_of_gauge : (q : QuotaState) → 2 ≤ quota_gauge q → q ≡ quota_hard_exceeded
unfolding quota_gauge
hard_of_gauge q h = ground (arith, h)

weigh-state :
    (entry : QuotaEntry) (p : SlotPosition)
    → ((weigh entry p).state ≡ entry.state) ⊎ ((weigh entry p).state ≡ p.state)
unfolding weigh
weigh-state entry p = ground arith

weigh_all-state :
    (slots : List SlotPosition) (entry : QuotaEntry)
    → (weigh_all entry slots).state ≡ quota_hard_exceeded
    → (entry.state ≡ quota_hard_exceeded) ⊎ AnyHard slots
unfolding weigh_all
weigh_all-state [] entry h = inl h
weigh_all-state (p ∷ slots) entry h = elim (weigh_all-state slots (weigh entry p) h) [
  | inr later ↦ inr (inr later)
  | inl here ↦ elim (weigh-state entry p) [
    | inl old ↦ inl (sym old ∙ here)
    | inr new ↦ inr (inl (sym new ∙ here))
  ]
]

-- With a prefix of its key taken out, an entry is not found.
without_prefix-lookup :
    (p k : Text) (es : List (Text × CachedEntry))
    → has_prefix p k ≡ true
    → lookup text_dec k (without_prefix p es) ≡ none
unfolding without_prefix lookup
without_prefix-lookup p k [] h = refl
without_prefix-lookup p k ((j, x) ∷ es) h = ground (arith, h, without_prefix-lookup p k es h)

has_prefix-scope : (t k : Text) → has_prefix (t ++ (0 ∷ [])) (t ++ (0 ∷ k)) ≡ true
unfolding has_prefix cut_prefix
has_prefix-scope [] k = refl
has_prefix-scope (c ∷ t) k = ground (arith, has_prefix-scope t k)

AnyHard-gauge :
    (slots : List SlotPosition) (entry : QuotaEntry)
    → All (Covers entry) slots
    → AnyHard slots
    → entry.state ≡ quota_hard_exceeded
unfolding quota_gauge
AnyHard-gauge [] entry covers hard = absurd hard
AnyHard-gauge (p ∷ slots) entry covers (inl here) =
    hard_of_gauge entry.state (ground (arith, covers.0.0, here))
AnyHard-gauge (p ∷ slots) entry covers (inr later) = AnyHard-gauge slots entry covers.1 later

hard_or_not : (q : QuotaState) → (q ≡ quota_hard_exceeded) ⊎ (q ≢ quota_hard_exceeded)
hard_or_not quota_hard_exceeded = inl refl
hard_or_not quota_soft_exceeded = inr (λ h. absurd (ground (arith, h)))
hard_or_not quota_ok = inr (λ h. absurd (ground (arith, h)))

ok_not_hard : quota_ok ≢ quota_hard_exceeded
ok_not_hard h = absurd (ground (arith, h))

bind_slots-hard :
    (slots : List SlotPosition)
    → (AnyHard slots × ((bind_slots slots).state ≡ quota_hard_exceeded))
      ⊎ (¬ AnyHard slots × ((bind_slots slots).state ≢ quota_hard_exceeded))
unfolding bind_slots
bind_slots-hard slots = elim (hard_or_not (bind_slots slots).state) [
  | inr n ↦
      inr (λ hard. n (AnyHard-gauge slots (bind_slots slots) (bind_slots-Covers slots) hard), n)
  | inl h ↦ elim (weigh_all-state slots (record { state = quota_ok; binding = none }) h) [
    | inl start ↦ absurd (ok_not_hard start)
    | inr any ↦ inl (any, h)
  ]
]

verdict_of-hard :
    (entry : QuotaEntry)
    → entry.state ≡ quota_hard_exceeded
    → verdict_of true entry ≡ (quota_hard_exceeded, some (rejection_of entry.binding))
unfolding verdict_of quota_gauge
verdict_of-hard entry h = rw (h) refl

verdict_of-not_hard :
    (entry : QuotaEntry)
    → entry.state ≢ quota_hard_exceeded
    → verdict_of true entry ≡ (entry.state, none)
unfolding verdict_of quota_gauge
verdict_of-not_hard entry n = ground (arith, n)

verdict_of-off : (entry : QuotaEntry) → verdict_of false entry ≡ (entry.state, none)
unfolding verdict_of
verdict_of-off entry = refl

module _ (default_soft : ℕ) (month_of : ℕ → Period) where
  refusal_at-status :
      (now : ℕ) (r : Rejection)
      → (e : ApiError) × (refusal_at default_soft month_of now (some r) ≡ some e) × (e.status ≡ 429)
  unfolding refusal_at with_retry_after budget_exceeded_error quota_exceeded_error new_err
  refusal_at-status now (budget_exceeded t) =
      (with_retry_after (t - now) budget_exceeded_error, refl, refl)
  refusal_at-status now (quota_exceeded t) =
      (with_retry_after (t - now) quota_exceeded_error, refl, refl)

  -- A change that is reported leaves no entry for a scope of the tenant.
  pub lookup-forgotten :
      (s : QuotaScope) (c : QuotaCache)
      → lookup text_dec (scope_key s) (forget_quotas s.tenant_id c).entries ≡ none
  unfolding forget_quotas scope_key
  lookup-forgotten s c =
      without_prefix-lookup (s.tenant_id ++ (0 ∷ [])) (s.tenant_id ++ (0 ∷ s.key_id)) c.entries
        (has_prefix-scope s.tenant_id s.key_id)

  -- What an evaluation of a tenant's caller answers when it reads the store.
  abbrev pub Judged : Bool → List SlotPosition → QuotaState × Option ApiError → Type 0
  Judged enforced slots v =
      (AnyHard slots
        × (enforced ≡ true)
        × ((e : ApiError) × (v ≡ (quota_hard_exceeded, some e)) × (e.status ≡ 429)))
      ⊎ ((¬ AnyHard slots ⊎ (enforced ≡ false)) × (v.1 ≡ none))

  pub verdict_at-Judged :
      (enforced : Bool) (now expires : ℕ) (slots : List SlotPosition)
      → Judged enforced slots (
          verdict_at default_soft month_of enforced now
            (some (record { entry = bind_slots slots; expires = expires })))
  unfolding verdict_at refusal_at
  verdict_at-Judged false now expires slots = inr (
    inr refl,
    ap (λ v. refusal_at default_soft month_of now v.1) (verdict_of-off (bind_slots slots)),
  )
  verdict_at-Judged true now expires slots = elim (bind_slots-hard slots) [
    | inl (any, h) ↦
        let r = refusal_at-status now (rejection_of (bind_slots slots).binding) in
        inl (
          any,
          refl,
          (
            r.0,
            ap (λ v. (v.0, refusal_at default_soft month_of now v.1))
                  (verdict_of-hard (bind_slots slots) h)
                ∙ ap (λ o. (quota_hard_exceeded, o)) r.1,
            r.2,
          ),
        )
    | inr (nobody, n) ↦ inr (
      inl nobody,
      ap (λ v. refusal_at default_soft month_of now v.1) (verdict_of-not_hard (bind_slots slots) n),
    )
  ]
