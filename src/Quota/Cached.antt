-- ===== src/Quota/Cached.antt =====
-- gateway/internal/server/quota.go: the cache of the quota states, and what computeQuota reads to fill it. A store that
-- cannot be read is none. The day of periodWindow is that of UTC, counted from the epoch; the month, which Go's
-- calendar gives, is an argument, and all reads of one evaluation are of one state of the store. `get_entry` is a call of
-- get that nobody comes between once it computes; Quota.Flights has the calls that come between.
use cogni_gate.Prelude.{
  ℕ, ◌+◌, ◌-◌, ◌%◌, ◌==◌, ltb, Bool, true, false, Option, none, some, List, [], ◌∷◌, ◌++◌,
  if◌then◌else◌, Text, text_dec, text_eq, codes, has_prefix, lookup, insert,
}
use cogni_gate.Store.{UsageTotals}
use cogni_gate.Memory.{Memory, ok, err}
use cogni_gate.Memory.Quotas.{get_quota}
use cogni_gate.Memory.Usage.{usage, key_usage, no_usage}
use cogni_gate.Quota.{
  Quota, QuotaWindow, WindowTotals, Window, window_day, window_month, Period, SlotPosition,
  QuotaEntry, QuotaState, quota_ok, Announcement, Rejection, budget_exceeded, quota_exceeded,
  positions, bind_slots, verdict_of, should_announce, quota_gauge,
}
use cogni_gate.Server.ApiErrors.{
  ApiError, with_retry_after, budget_exceeded_error, quota_exceeded_error,
}

abbrev pub quota_cache_ttl : ℕ
quota_cache_ttl = 5000000000

pub record QuotaScope : Type 0 where
  pub tenant_id : Text
  pub key_id : Text
  pub key_prefix : Text

unfoldable pub scope_key : QuotaScope → Text
scope_key s = s.tenant_id ++ (0 ∷ s.key_id)

pub record CachedEntry : Type 0 where
  pub entry : QuotaEntry
  pub expires : ℕ

pub record QuotaCache : Type 0 where
  pub entries : List (Text × CachedEntry)
  pub announced : List (Text × Announcement)
  pub ttl : ℕ

unfoldable pub new_quota_cache : ℕ → QuotaCache
new_quota_cache ttl = record {
  entries = [];
  announced = [];
  ttl = if ttl == 0 then quota_cache_ttl else ttl;
}

unfoldable pub without_prefix : Text → List (Text × CachedEntry) → List (Text × CachedEntry)
without_prefix prefix [] = []
without_prefix prefix ((k, e) ∷ es) =
    let rest = without_prefix prefix es in if has_prefix prefix k then rest else (k, e) ∷ rest

unfoldable pub forget_quotas : Text → QuotaCache → QuotaCache
forget_quotas tenant c = record c { entries = without_prefix (tenant ++ (0 ∷ [])) c.entries }

-- The readings of the clock by one evaluation: before the first look into the cache, at the second, where the store is
-- read, before the entry is kept, and for the wait of a rejection.
pub record Readings : Type 0 where
  pub asked : ℕ
  pub locked : ℕ
  pub read : ℕ
  pub stored : ℕ
  pub judged : ℕ

abbrev pub has_cap : QuotaWindow → Bool
has_cap w = elim w.tokens [
  | some _ ↦ true
  | none ↦ elim w.cost [ some _ ↦ true | none ↦ elim w.requests [ some _ ↦ true | none ↦ false ] ]
]

unfoldable pub is_empty_quota : Quota → Bool
is_empty_quota q = if has_cap q.day then false else (if has_cap q.month then false else true)

unfoldable pub load_quota : Memory → Text → Text → Option Quota
load_quota m tenant key = elim (get_quota m tenant key) [
  | err _ ↦ none
  | ok q ↦ if is_empty_quota q then none else some q
]

abbrev pub day_length : ℕ
day_length = 86400000000000

module _ (month_of : ℕ → Period) where
  unfoldable pub period_window : Window → ℕ → Period
  period_window window_day now = record {
    since = now - now % day_length;
    until = now - now % day_length + day_length;
  }
  period_window window_month now = month_of now

-- The configuration's default threshold, and the month that a time falls in.
module _ (default_soft : ℕ) (month_of : ℕ → Period) where
  -- The closure `read` of usageFor.
  unfoldable pub read_usage : Memory → Text → Text → Period → UsageTotals
  read_usage m tenant prefix p =
      if text_eq prefix []
      then usage m tenant p.since p.until
      else key_usage m tenant prefix p.since p.until

  unfoldable pub usage_for : Memory → Text → Text → ℕ → Quota → WindowTotals
  usage_for m tenant prefix now q = record {
    day =
        if has_cap q.day
        then read_usage m tenant prefix (period_window month_of window_day now)
        else no_usage;
    month =
        if has_cap q.month
        then read_usage m tenant prefix (period_window month_of window_month now)
        else no_usage;
  }

  -- The slots of one quota, none where there is no quota.
  unfoldable pub slots_of : Memory → Text → Text → ℕ → Bool → Option Quota → List SlotPosition
  slots_of m tenant prefix now key_level none = []
  slots_of m tenant prefix now key_level (some q) =
      positions default_soft q (usage_for m tenant prefix now q)
        (period_window month_of window_day now) (period_window month_of window_month now) key_level

  unfoldable pub quota_slots : Memory → QuotaScope → ℕ → List SlotPosition
  quota_slots m s now =
      slots_of m s.tenant_id [] now false (load_quota m s.tenant_id [])
      ++ (if text_eq s.key_id []
          then []
          else slots_of m s.tenant_id s.key_prefix now true (load_quota m s.tenant_id s.key_id))

  -- The last loop of computeQuota: the crossings that are told.
  unfoldable pub announce_all :
      Text
      → List SlotPosition
      → List (Text × Announcement)
      → List (Text × Announcement) × List SlotPosition
  announce_all key [] announced = (announced, [])
  announce_all key (p ∷ slots) announced =
      let first = should_announce announced key p in
      let rest = announce_all key slots first.0 in if first.1 then (rest.0, p ∷ rest.1) else rest

  -- An evaluation's entry, of the store that it read at `read` and kept at `stored`.
  unfoldable pub entry_at : ℕ → Memory → QuotaScope → ℕ → ℕ → CachedEntry
  entry_at ttl m s read stored = record {
    entry = bind_slots (quota_slots m s read);
    expires = stored + ttl;
  }

  -- computeQuota: the entry, the cache with the crossings noted, and the crossings that are told.
  unfoldable pub computed :
      QuotaScope → Memory → ℕ → QuotaCache → QuotaEntry × QuotaCache × List SlotPosition
  computed s m read c =
      let told = announce_all (scope_key s) (quota_slots m s read) c.announced in
      (bind_slots (quota_slots m s read), record c { announced = told.0 }, told.1)

  -- The last lines of get: an entry is kept, from the time `stored` on.
  unfoldable pub keep_entry : QuotaScope → QuotaEntry → ℕ → QuotaCache → QuotaCache
  keep_entry s entry stored c = record c {
    entries =
        insert text_dec (scope_key s) (record { entry = entry; expires = stored + c.ttl })
          c.entries;
  }

  unfoldable pub live_entry : QuotaCache → QuotaScope → ℕ → Option CachedEntry
  live_entry c s now = elim (lookup text_dec (scope_key s) c.entries) [
    | none ↦ none
    | some e ↦ if ltb now e.expires then some e else none
  ]

  -- get: `first` is the cache at the first look and `c` at the second, under the scope's lock; between the second
  -- look and the last write nobody else changes the cache.
  unfoldable pub get_entry :
      QuotaScope
      → Option Memory
      → Readings
      → QuotaCache
      → QuotaCache
      → Option CachedEntry × QuotaCache × List SlotPosition
  get_entry s store t first c = elim (live_entry first s t.asked) [
    | some e ↦ (some e, c, [])
    | none ↦ elim (live_entry c s t.locked) [
      | some e ↦ (some e, c, [])
      | none ↦ elim store [
        | none ↦ (none, c, [])
        | some m ↦ (
          some (entry_at c.ttl m s t.read t.stored),
          keep_entry s (computed s m t.read c).0 t.stored (computed s m t.read c).1,
          (computed s m t.read c).2,
        )
      ]
    ]
  ]

  unfoldable pub refusal_at : ℕ → Option Rejection → Option ApiError
  refusal_at now none = none
  refusal_at now (some (budget_exceeded t)) =
      some (with_retry_after (t - now) budget_exceeded_error)
  refusal_at now (some (quota_exceeded t)) = some (with_retry_after (t - now) quota_exceeded_error)

  unfoldable pub verdict_at : Bool → ℕ → Option CachedEntry → QuotaState × Option ApiError
  verdict_at enforced now none = (quota_ok, none)
  verdict_at enforced now (some e) =
      ((verdict_of enforced e.entry).0, refusal_at now (verdict_of enforced e.entry).1)

  -- evaluateQuota; a caller without a tenant has no quota.
  unfoldable pub quota_verdict :
      Bool
      → QuotaScope
      → Option Memory
      → Readings
      → QuotaCache
      → QuotaCache
      → (QuotaState × Option ApiError) × QuotaCache × List SlotPosition
  quota_verdict enforced s store t first c =
      if text_eq s.tenant_id [] then ((quota_ok, none), c, []) else (
        verdict_at enforced t.judged (get_entry s store t first c).0,
        (get_entry s store t first c).1,
        (get_entry s store t first c).2,
      )

-- The event of a crossing, and its data.
pub record Crossing : Type 0 where
  pub event : Text
  pub tenant : Text
  pub slot : SlotPosition
  pub scope : Text
  pub key_prefix : Option Text
  pub enforcement : Text

unfoldable pub crossing_of : Text → QuotaScope → SlotPosition → Crossing
crossing_of enforcement s p = record {
  event =
      if quota_gauge p.state == 2
      then codes "quota.hard_cap_reached"
      else codes "quota.threshold_crossed";
  tenant = s.tenant_id;
  slot = p;
  scope = if p.key_level then codes "key" else codes "tenant";
  key_prefix = if p.key_level then some s.key_prefix else none;
  enforcement = enforcement;
}
