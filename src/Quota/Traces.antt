-- ===== src/Quota/Traces.antt =====
-- Where the entries of the quota cache come from, as its evaluations and invalidations interleave in
-- gateway/internal/server/quota.go.
use cogni_gate.Prelude.{
  ℕ, ◌+◌, ◌≡◌, ◌≢◌, refl, ◌∙◌, sym, ap, ◌⊎◌, inl, inr, arith, false, none, some, List, [], ◌∷◌,
  ◌++◌, Text, text_dec, has_prefix, lookup, lookup-insert, lookup-delete, Option-cases,
}
use cogni_gate.Memory.{Memory}
use cogni_gate.Quota.{Period, QuotaEntry, bind_slots}
use cogni_gate.Quota.Cached.{
  QuotaScope, scope_key, CachedEntry, without_prefix, forget_quotas, quota_slots, computed,
  keep_entry,
}
use cogni_gate.Quota.Flights.{
  Flights, QuotaStep, began, ended, changed, start_evaluation, finish_evaluation, quota_step,
  after_steps,
}

without_prefix-gone :
    (p k : Text) (es : List (Text × CachedEntry)) (e : CachedEntry)
    → lookup text_dec k (without_prefix p es) ≡ some e
    → (lookup text_dec k es ≡ some e) × (has_prefix p k ≡ false)
unfolding without_prefix lookup
without_prefix-gone p k [] e h = absurd (ground (arith, h))
without_prefix-gone p k ((j, x) ∷ es) e h = ground (arith, h, without_prefix-gone p k es e)

module _ (default_soft : ℕ) (month_of : ℕ → Period) where
  -- The entry is what an evaluation of the key computed, and none of the key has ended since that one read the store.
  abbrev pub Computed : List QuotaStep → Text → QuotaEntry → Type 0
  Computed [] k x = ⊥
  Computed (began s locked m read ∷ earlier) k x =
      ((scope_key s ≡ k) × (x ≡ bind_slots (quota_slots default_soft month_of m s read)))
      ⊎ Computed earlier k x
  Computed (ended s stored ∷ earlier) k x = (scope_key s ≢ k) × Computed earlier k x
  Computed (changed tenant ∷ earlier) k x = Computed earlier k x

  -- The entry is what an evaluation of the key kept, to expire the time to live later, and no change of its tenant
  -- has been reported since it was kept.
  abbrev pub Kept : ℕ → List QuotaStep → Text → CachedEntry → Type 0
  Kept ttl [] k e = ⊥
  Kept ttl (began s locked m read ∷ earlier) k e = Kept ttl earlier k e
  Kept ttl (ended s stored ∷ earlier) k e =
      ((scope_key s ≡ k) × (e.expires ≡ stored + ttl) × Computed earlier k e.entry)
      ⊎ Kept ttl earlier k e
  Kept ttl (changed tenant ∷ earlier) k e =
      (has_prefix (tenant ++ (0 ∷ [])) k ≡ false) × Kept ttl earlier k e

  -- Nothing in the cache, and no evaluation under way, for the key.
  abbrev pub Unknown : Text → Flights → Type 0
  Unknown k f = (lookup text_dec k f.cache.entries ≡ none) × (lookup text_dec k f.computing ≡ none)

  -- What the steps account for.
  abbrev pub Traced : ℕ → List QuotaStep → Text → Flights → Type 0
  Traced ttl steps k f =
      (f.cache.ttl ≡ ttl)
      × ((x : QuotaEntry) → lookup text_dec k f.computing ≡ some x → Computed steps k x)
      × ((e : CachedEntry) → lookup text_dec k f.cache.entries ≡ some e → Kept ttl steps k e)

  start_evaluation-cache :
      (s : QuotaScope) (locked : ℕ) (m : Memory) (read : ℕ) (f : Flights)
      → let r = start_evaluation default_soft month_of s locked m read f in
        (r.cache.ttl ≡ f.cache.ttl) × (r.cache.entries ≡ f.cache.entries)
  unfolding start_evaluation computed
  start_evaluation-cache s locked m read f = ground arith

  start_evaluation-computing :
      (s : QuotaScope) (locked : ℕ) (m : Memory) (read : ℕ) (f : Flights) (k : Text)
      (x : QuotaEntry)
      → lookup text_dec k (start_evaluation default_soft month_of s locked m read f).computing
        ≡ some x
      → ((scope_key s ≡ k) × (x ≡ bind_slots (quota_slots default_soft month_of m s read)))
        ⊎ (lookup text_dec k f.computing ≡ some x)
  unfolding start_evaluation computed
  start_evaluation-computing s locked m read f k x h =
      let entry = bind_slots (quota_slots default_soft month_of m s read) in
      ground (arith, h, lookup-insert text_dec (scope_key s) k entry f.computing)

  finish_evaluation-computing :
      (s : QuotaScope) (stored : ℕ) (f : Flights) (k : Text) (x : QuotaEntry)
      → lookup text_dec k (finish_evaluation default_soft month_of s stored f).computing ≡ some x
      → (scope_key s ≢ k) × (lookup text_dec k f.computing ≡ some x)
  unfolding finish_evaluation
  finish_evaluation-computing s stored f k x h = elim (text_dec (scope_key s) k) [
    | yes q ↦ absurd (ground (arith, h, q, lookup-delete text_dec (scope_key s) k f.computing))
    | no n ↦ (n, ground (arith, h, n, lookup-delete text_dec (scope_key s) k f.computing))
  ]

  finish_evaluation-ttl :
      (s : QuotaScope) (stored : ℕ) (f : Flights)
      → (finish_evaluation default_soft month_of s stored f).cache.ttl ≡ f.cache.ttl
  unfolding finish_evaluation keep_entry
  finish_evaluation-ttl s stored f = ground arith

  -- The entry that a ended evaluation keeps.
  abbrev written : QuotaEntry → ℕ → Flights → CachedEntry
  written x stored f = record { entry = x; expires = stored + f.cache.ttl }

  finish_evaluation-entries :
      (s : QuotaScope) (stored : ℕ) (f : Flights) (k : Text) (e : CachedEntry)
      → lookup text_dec k (finish_evaluation default_soft month_of s stored f).cache.entries
        ≡ some e
      → ((x : QuotaEntry) × (scope_key s ≡ k)
          × (lookup text_dec k f.computing ≡ some x)
          × (e ≡ written x stored f))
        ⊎ (lookup text_dec k f.cache.entries ≡ some e)
  unfolding finish_evaluation keep_entry
  finish_evaluation-entries s stored f k e h =
      elim (Option-cases (lookup text_dec (scope_key s) f.computing)) [
        | inl nobody ↦ inr (ground (arith, nobody, h))
        | inr (x, there) ↦
            let put = lookup-insert text_dec (scope_key s) k (written x stored f) f.cache.entries in
            elim (text_dec (scope_key s) k) [
              | yes q ↦ inl (x, q, ground (arith, there, q), ground (arith, there, h, put, q))
              | no n ↦ inr (ground (arith, there, h, put, n))
            ]
      ]

  quota_step-Traced :
      (ttl : ℕ) (step : QuotaStep) (earlier : List QuotaStep) (k : Text) (f : Flights)
      → Traced ttl earlier k f
      → Traced ttl (step ∷ earlier) k (quota_step default_soft month_of step f)
  unfolding quota_step forget_quotas
  quota_step-Traced ttl (began s locked m read) earlier k f before =
      let same = start_evaluation-cache s locked m read f in
      (
        same.0 ∙ before.0,
        λ x h. elim (start_evaluation-computing s locked m read f k x h) [
          | inl new ↦ inl new
          | inr old ↦ inr (before.1 x old)
        ],
        λ e h. before.2 e (ap (λ es. lookup text_dec k es) (sym same.1) ∙ h),
      )
  quota_step-Traced ttl (ended s stored) earlier k f before = (
    finish_evaluation-ttl s stored f ∙ before.0,
    λ x h. let old = finish_evaluation-computing s stored f k x h in (old.0, before.1 x old.1),
    λ e h. elim (finish_evaluation-entries s stored f k e h) [
      | inl (x, same, there, new) ↦
          inl (same, ground (arith, new, before.0), subst_entry x e new (before.1 x there))
      | inr old ↦ inr (before.2 e old)
    ],
  )
    where
      subst_entry :
          (x : QuotaEntry) (e : CachedEntry)
          → e ≡ written x stored f
          → Computed earlier k x
          → Computed earlier k e.entry
      subst_entry x e new h = rw (new) h
  quota_step-Traced ttl (changed tenant) earlier k f before = (
    before.0,
    before.1,
    λ e h.
        let old = without_prefix-gone (tenant ++ (0 ∷ [])) k f.cache.entries e h in
        (old.1, before.2 e old.0),
  )

  pub after_steps-Traced :
      (steps : List QuotaStep) (k : Text) (f : Flights)
      → Unknown k f
      → Traced f.cache.ttl steps k (after_steps default_soft month_of steps f)
  unfolding after_steps
  after_steps-Traced [] k f u =
      (refl, λ x h. absurd (ground (arith, u, h)), λ e h. absurd (ground (arith, u, h)))
  after_steps-Traced (step ∷ earlier) k f u =
      quota_step-Traced f.cache.ttl step earlier k (after_steps default_soft month_of earlier f)
        (after_steps-Traced earlier k f u)

  pub after_steps-append :
      (late early : List QuotaStep) (f : Flights)
      → after_steps default_soft month_of (late ++ early) f
        ≡ after_steps default_soft month_of late (after_steps default_soft month_of early f)
  unfolding after_steps
  after_steps-append [] early f = refl
  after_steps-append (step ∷ late) early f =
      ap (quota_step default_soft month_of step) (after_steps-append late early f)
