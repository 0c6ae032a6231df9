-- ===== src/Quota/Tests.antt =====
-- Quotas on concrete slots.
use cogni_gate.Prelude.{
  ℕ, List, ◌⊎◌, some, ◌≡◌, refl, true, false, [], ◌∷◌, All, codes, ltb, lookup,
}
use cogni_gate.Memory.{new_memory}
use cogni_gate.Quota.Cached.{
  QuotaScope, CachedEntry, Readings, scope_key, get_entry, entry_at, new_quota_cache,
}
use cogni_gate.Quota.Flights.{Flights, QuotaStep, began, ended, changed, after_steps}
use cogni_gate.Quota.Staleness.{Fresh, get_entry-Recent}
use cogni_gate.Quota.{
  Period, SlotPosition, window_day, unit_cost, unit_tokens, quota_soft_exceeded,
  quota_hard_exceeded, position, bind_slots, quota_gauge, should_announce, told_before,
}
use cogni_gate.Quota.Binding.{Covers, bind_slots-Covers}
use cogni_gate.Quota.Announcing.{announced_once}

abbrev soft_cost : SlotPosition
soft_cost = record {
  window = window_day;
  unit = unit_cost;
  state = quota_soft_exceeded;
  used = 85;
  cap = 100;
  soft_pct = 80;
  since = 1000;
  resets_at = 2000;
  key_level = false;
}

abbrev soft_cost_of_key : SlotPosition
soft_cost_of_key = record soft_cost { key_level = true; used = 9; cap = 10 }

abbrev hard_tokens : SlotPosition
hard_tokens = record soft_cost { unit = unit_tokens; state = quota_hard_exceeded; used = 100 }

bind_slots-Covers_example :
    All (Covers (bind_slots (soft_cost ∷ hard_tokens ∷ []))) (soft_cost ∷ hard_tokens ∷ [])
bind_slots-Covers_example = bind_slots-Covers (soft_cost ∷ hard_tokens ∷ [])

-- The crossing of the tenant's slot hides that of the key's.
announced_once_example :
    (should_announce (should_announce [] (codes "t") soft_cost).0 (codes "t") soft_cost_of_key).1
    ≡ ltb (quota_gauge quota_soft_exceeded) (quota_gauge quota_soft_exceeded)
unfolding should_announce told_before lookup quota_gauge
announced_once_example =
    announced_once [] (codes "t") soft_cost soft_cost_of_key refl refl refl refl

soft_at_threshold : position 85 100 80 ≡ quota_soft_exceeded
unfolding position
soft_at_threshold = refl

abbrev calendar : ℕ → Period
calendar now = record { since = 0; until = 100 }

abbrev acme_caller : QuotaScope
acme_caller = record { tenant_id = codes "ten_1"; key_id = codes "key_1"; key_prefix = codes "cg" }

abbrev other_caller : QuotaScope
other_caller = record acme_caller { tenant_id = codes "ten_2" }

abbrev cold : Flights
cold = record { cache = new_quota_cache 5; computing = [] }

abbrev clock : Readings
clock = record { asked = 14; locked = 14; read = 15; stored = 16; judged = 17 }

-- An evaluation over a change that is reported for another tenant, whose evaluation is under way.
abbrev before_it : List QuotaStep
before_it =
    ended acme_caller 12
    ∷ changed (codes "ten_2")
    ∷ began other_caller 11 (new_memory false) 11
    ∷ began acme_caller 10 (new_memory false) 10
    ∷ []

abbrev looked : Flights
looked = after_steps 80 calendar before_it cold

abbrev found : Flights
found = after_steps 80 calendar (ended other_caller 14 ∷ []) looked

get_entry-Recent_example :
    (e : CachedEntry) × ((get_entry 80 calendar acme_caller
        (some (new_memory false))
        clock
        looked.cache
        found.cache).0
      ≡ some e)
    × ((e ≡ entry_at 80 calendar found.cache.ttl (new_memory false) acme_caller 15 16)
        ⊎ Fresh 80 calendar (new_quota_cache 5).ttl before_it (scope_key acme_caller) 14 e
        ⊎ Fresh 80 calendar
            (new_quota_cache 5).ttl
            (ended other_caller 14 ∷ before_it)
            (scope_key acme_caller)
            14
            e)
unfolding new_quota_cache lookup
get_entry-Recent_example =
    get_entry-Recent 80 calendar cold before_it (ended other_caller 14 ∷ []) acme_caller
      (new_memory false) clock (refl, refl)
