-- ===== src/Quota/Staleness.antt =====
-- How old the quota state is that a request is judged by, in gateway/internal/server/quota.go.
use cogni_gate.Prelude.{
  ℕ, ◌≡◌, ◌<◌, refl, ◌∙◌, ap, ◌⊎◌, inl, inr, arith, some, List, [], ◌∷◌, ◌++◌, text_dec, lookup,
  Option-cases, Text,
}
use cogni_gate.Memory.{Memory}
use cogni_gate.Quota.{Period}
use cogni_gate.Quota.Cached.{
  QuotaScope, scope_key, CachedEntry, QuotaCache, Readings, entry_at, live_entry, get_entry,
}
use cogni_gate.Quota.Flights.{Flights, QuotaStep, began, ended, changed, after_steps}
use cogni_gate.Quota.Traces.{Kept, Unknown, after_steps-Traced, after_steps-append}

module _ (default_soft : ℕ) (month_of : ℕ → Period) where
  live_entry-found :
      (c : QuotaCache) (s : QuotaScope) (now : ℕ) (e : CachedEntry)
      → live_entry default_soft month_of c s now ≡ some e
      → (lookup text_dec (scope_key s) c.entries ≡ some e) × (now < e.expires)
  unfolding live_entry
  live_entry-found c s now e h = ground (arith, h)

  -- What an answer of get that can read the store comes from: its own reading, or an entry that it finds alive.
  get_entry-cases :
      (s : QuotaScope) (m : Memory) (t : Readings) (first c : QuotaCache)
      → (e : CachedEntry) × ((get_entry default_soft month_of s (some m) t first c).0 ≡ some e)
        × ((e ≡ entry_at default_soft month_of c.ttl m s t.read t.stored)
            ⊎ (live_entry default_soft month_of first s t.asked ≡ some e)
            ⊎ (live_entry default_soft month_of c s t.locked ≡ some e))
  unfolding get_entry
  get_entry-cases s m t first c =
      elim (Option-cases (live_entry default_soft month_of first s t.asked)) [
        | inr (e, live) ↦ (e, ground (arith, live), inr (inl live))
        | inl dead ↦ elim (Option-cases (live_entry default_soft month_of c s t.locked)) [
          | inr (e, live) ↦ (e, ground (arith, dead, live), inr (inr live))
          | inl gone ↦ (
            entry_at default_soft month_of c.ttl m s t.read t.stored,
            ground (arith, dead, gone),
            inl refl,
          )
        ]
      ]

  -- An entry kept in the steps that is alive at a time.
  abbrev pub Fresh : ℕ → List QuotaStep → Text → ℕ → CachedEntry → Type 0
  Fresh ttl steps k now e = Kept default_soft month_of ttl steps k e × (now < e.expires)

  live_entry-Fresh :
      (f : Flights) (steps : List QuotaStep) (s : QuotaScope) (now : ℕ) (e : CachedEntry)
      → Unknown default_soft month_of (scope_key s) f
      → live_entry default_soft month_of (after_steps default_soft month_of steps f).cache s now
        ≡ some e
      → Fresh f.cache.ttl steps (scope_key s) now e
  live_entry-Fresh f steps s now e u live =
      let found = live_entry-found (after_steps default_soft month_of steps f).cache s now e live in
      ((after_steps-Traced default_soft month_of steps (scope_key s) f u).2 e found.0, found.1)

  -- An evaluation that can read the store always has an answer, whatever other evaluations of any scopes and reported
  -- changes came before its first look and between its two looks, interleaved in any order from a state in which
  -- its scope has no entry and no evaluation under way: what it reads itself, or an entry that an evaluation of
  -- the same tenant and key kept less than the time to live before the look that finds it, with no change reported
  -- for the tenant since it was kept, and computed from the store by an evaluation since whose reading no other of
  -- the scope has ended. How long before it is kept an entry was read is left open, and so is a change reported in
  -- that time.
  pub get_entry-Recent :
      (f : Flights) (before between : List QuotaStep) (s : QuotaScope) (m : Memory) (t : Readings)
      → Unknown default_soft month_of (scope_key s) f
      → let first = after_steps default_soft month_of before f in
        let c = after_steps default_soft month_of between first in
        (e : CachedEntry) × ((get_entry default_soft month_of s (some m) t first.cache c.cache).0
          ≡ some e)
        × ((e ≡ entry_at default_soft month_of c.cache.ttl m s t.read t.stored)
            ⊎ Fresh f.cache.ttl before (scope_key s) t.asked e
            ⊎ Fresh f.cache.ttl (between ++ before) (scope_key s) t.locked e)
  get_entry-Recent f before between s m t u =
      let first = after_steps default_soft month_of before f in
      let c = after_steps default_soft month_of between first in
      let answer = get_entry-cases s m t first.cache c.cache in
      (
        answer.0,
        answer.1,
        elim answer.2 [
          | inl new ↦ inl new
          | inr (inl early) ↦ inr (inl (live_entry-Fresh f before s t.asked answer.0 u early))
          | inr (inr late) ↦ inr (
              inr (
                live_entry-Fresh f (between ++ before) s t.locked answer.0 u (
                  ap (λ (g : Flights). live_entry default_soft month_of g.cache s t.locked)
                    (after_steps-append default_soft month_of between before f)
                  ∙ late)))
        ],
      )

  -- The state after an evaluation of a scope over a change of its tenant that is reported before its entry is kept.
  abbrev pub overtaken : QuotaScope → ℕ → Memory → ℕ → ℕ → Flights → Flights
  overtaken s locked m read stored f =
      after_steps default_soft month_of
        (ended s stored ∷ changed s.tenant_id ∷ began s locked m read ∷ []) f
