-- ===== src/Quota/Since.antt =====
-- What readings of the store an evaluation of gateway/internal/server/quota.go is judged by, as evaluations interleave.
use cogni_gate.Prelude.{
  ℕ, ◌≡◌, ◌≢◌, ◌∙◌, refl, ap, ◌⊎◌, inl, inr, arith, Bool, false, Option, some, List, [], ◌∷◌, ◌++◌,
  Text, text_eq,
}
use cogni_gate.Memory.{Memory}
use cogni_gate.Quota.{Period, SlotPosition, QuotaEntry, QuotaState, bind_slots}
use cogni_gate.Quota.Cached.{
  QuotaScope, scope_key, CachedEntry, Readings, quota_slots, entry_at, get_entry, quota_verdict,
}
use cogni_gate.Quota.Flights.{Flights, QuotaStep, began, ended, changed, after_steps}
use cogni_gate.Quota.Traces.{Computed, Kept, Unknown}
use cogni_gate.Quota.Staleness.{get_entry-Recent}
use cogni_gate.Quota.Enforced.{Judged, verdict_at-Judged}
use cogni_gate.Server.ApiErrors.{ApiError}

module _ (default_soft : ℕ) (month_of : ℕ → Period) where
  -- The slots that an evaluation of the key read in the steps.
  abbrev pub ReadIn : List QuotaStep → Text → List SlotPosition → Type 0
  ReadIn [] k slots = ⊥
  ReadIn (began s locked m read ∷ earlier) k slots =
      ((scope_key s ≡ k) × (slots ≡ quota_slots default_soft month_of m s read))
      ⊎ ReadIn earlier k slots
  ReadIn (ended s stored ∷ earlier) k slots = ReadIn earlier k slots
  ReadIn (changed tenant ∷ earlier) k slots = ReadIn earlier k slots

  Computed-ReadIn :
      (steps : List QuotaStep) (k : Text) (x : QuotaEntry)
      → Computed default_soft month_of steps k x
      → (slots : List SlotPosition) × ReadIn steps k slots × (x ≡ bind_slots slots)
  Computed-ReadIn [] k x h = absurd h
  Computed-ReadIn (began s locked m read ∷ earlier) k x (inl (same, e)) =
      (quota_slots default_soft month_of m s read, inl (same, refl), e)
  Computed-ReadIn (began s locked m read ∷ earlier) k x (inr h) =
      let before = Computed-ReadIn earlier k x h in (before.0, inr before.1, before.2)
  Computed-ReadIn (ended s stored ∷ earlier) k x h = Computed-ReadIn earlier k x h.1
  Computed-ReadIn (changed tenant ∷ earlier) k x h = Computed-ReadIn earlier k x h

  Kept-ReadIn :
      (ttl : ℕ) (steps : List QuotaStep) (k : Text) (e : CachedEntry)
      → Kept default_soft month_of ttl steps k e
      → (slots : List SlotPosition) × ReadIn steps k slots × (e.entry ≡ bind_slots slots)
  Kept-ReadIn ttl [] k e h = absurd h
  Kept-ReadIn ttl (began s locked m read ∷ earlier) k e h =
      let before = Kept-ReadIn ttl earlier k e h in (before.0, inr before.1, before.2)
  Kept-ReadIn ttl (ended s stored ∷ earlier) k e (inl h) = Computed-ReadIn earlier k e.entry h.2
  Kept-ReadIn ttl (ended s stored ∷ earlier) k e (inr h) = Kept-ReadIn ttl earlier k e h
  Kept-ReadIn ttl (changed tenant ∷ earlier) k e h = Kept-ReadIn ttl earlier k e h.1

  ReadIn-append :
      (late early : List QuotaStep) (k : Text) (slots : List SlotPosition)
      → ReadIn early k slots
      → ReadIn (late ++ early) k slots
  ReadIn-append [] early k slots h = h
  ReadIn-append (began s locked m read ∷ late) early k slots h =
      inr (ReadIn-append late early k slots h)
  ReadIn-append (ended s stored ∷ late) early k slots h = ReadIn-append late early k slots h
  ReadIn-append (changed tenant ∷ late) early k slots h = ReadIn-append late early k slots h

  -- The slots that an answer of get is bound by.
  abbrev Answered : List QuotaStep → QuotaScope → Memory → ℕ → Option CachedEntry → Type 0
  Answered steps s m read answer =
      (slots : List SlotPosition) × ((slots ≡ quota_slots default_soft month_of m s read)
        ⊎ ReadIn steps (scope_key s) slots)
      × (expires : ℕ) × (answer ≡ some (record { entry = bind_slots slots; expires = expires }))

  get_entry-Answered :
      (f : Flights) (before between : List QuotaStep) (s : QuotaScope) (m : Memory) (t : Readings)
      → Unknown default_soft month_of (scope_key s) f
      → let first = after_steps default_soft month_of before f in
        let c = after_steps default_soft month_of between first in
        Answered
          (between ++ before)
          s
          m
          t.read
          (get_entry default_soft month_of s (some m) t first.cache c.cache).0
  unfolding entry_at
  get_entry-Answered f before between s m t u =
      let recent = get_entry-Recent default_soft month_of f before between s m t u in
      let e = recent.0 in
      elim recent.2 [
        | inl new ↦
            (quota_slots default_soft month_of m s t.read, inl refl, _, recent.1 ∙ ap some new)
        | inr (inl (kept_then, _)) ↦
            let found = Kept-ReadIn f.cache.ttl before (scope_key s) e kept_then in
            (
              found.0,
              inr (ReadIn-append between before (scope_key s) found.0 found.1),
              e.expires,
              recent.1 ∙ ap (λ x. some (record { entry = x; expires = e.expires })) found.2,
            )
        | inr (inr (kept_then, _)) ↦
            let found = Kept-ReadIn f.cache.ttl (between ++ before) (scope_key s) e kept_then in
            (
              found.0,
              inr found.1,
              e.expires,
              recent.1 ∙ ap (λ x. some (record { entry = x; expires = e.expires })) found.2,
            )
      ]

  -- Slots that an evaluation is judged by: those it reads itself, or some read for its scope in the steps.
  abbrev pub JudgedSince :
      List QuotaStep → Bool → QuotaScope → Memory → ℕ → QuotaState × Option ApiError → Type 0
  JudgedSince steps enforced s m read v =
      (slots : List SlotPosition) × ((slots ≡ quota_slots default_soft month_of m s read)
        ⊎ ReadIn steps (scope_key s) slots)
      × Judged default_soft month_of enforced slots v

  pub quota_verdict-JudgedSince :
      (f : Flights) (before between : List QuotaStep) (enforced : Bool) (s : QuotaScope)
      (m : Memory) (t : Readings)
      → Unknown default_soft month_of (scope_key s) f
      → s.tenant_id ≢ []
      → let first = after_steps default_soft month_of before f in
        let c = after_steps default_soft month_of between first in
        JudgedSince
          (between ++ before)
          enforced
          s
          m
          t.read
          (quota_verdict default_soft month_of enforced s (some m) t first.cache c.cache).0
  unfolding quota_verdict
  quota_verdict-JudgedSince f before between enforced s m t u named =
      let answer = get_entry-Answered f before between s m t u in
      let tested : text_eq s.tenant_id [] ≡ false = ground (arith, named) in
      (
        answer.0,
        answer.1,
        rw (tested, answer.3)
            (verdict_at-Judged default_soft month_of enforced t.judged answer.2 answer.0),
      )
