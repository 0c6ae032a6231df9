-- ===== src/Quota/Flights.antt =====
-- The evaluations of quotas in gateway/internal/server/quota.go as they interleave: get computes an entry under the lock
-- of its scope only, so that other evaluations, and an invalidation, come between the read of the store and the write
-- of the entry. A step is one stretch of get or of invalidate. What others do inside a stretch, between the second look
-- and the reading or between the reading and the crossings, could as well be done before it: nobody else keeps an entry
-- for a scope whose lock is held, an invalidation only takes entries away, and an entry and the memory of the crossings
-- do not depend on each other. An evaluation that cannot read the store gives its lock back and changes nothing.
use cogni_gate.Prelude.{ℕ, none, some, List, [], ◌∷◌, Text, text_dec, lookup, insert, delete}
use cogni_gate.Memory.{Memory}
use cogni_gate.Quota.{Period, QuotaEntry}
use cogni_gate.Quota.Cached.{
  QuotaScope, scope_key, QuotaCache, forget_quotas, live_entry, computed, keep_entry,
}

-- `computing` has a scope while its lock is held, with the entry that the evaluation has computed.
pub record Flights : Type 0 where
  pub cache : QuotaCache
  pub computing : List (Text × QuotaEntry)

pub data QuotaStep : Type 0 where
  -- From the second look, at a time, to the entry computed from what the store has, at a later one.
  began : QuotaScope → ℕ → Memory → ℕ → QuotaStep
  -- The write of the entry, and the end of the lock.
  ended : QuotaScope → ℕ → QuotaStep
  -- invalidate, of a tenant.
  changed : Text → QuotaStep

module _ (default_soft : ℕ) (month_of : ℕ → Period) where
  -- Where the lock of the scope is held, the evaluation waits, and nothing changes.
  unfoldable pub start_evaluation : QuotaScope → ℕ → Memory → ℕ → Flights → Flights
  start_evaluation s locked m read f = elim (lookup text_dec (scope_key s) f.computing) [
    | some _ ↦ f
    | none ↦ elim (live_entry default_soft month_of f.cache s locked) [
      | some _ ↦ f
      | none ↦ record {
        cache = (computed default_soft month_of s m read f.cache).1;
        computing =
            insert text_dec (scope_key s) (computed default_soft month_of s m read f.cache).0
              f.computing;
      }
    ]
  ]

  unfoldable pub finish_evaluation : QuotaScope → ℕ → Flights → Flights
  finish_evaluation s stored f = elim (lookup text_dec (scope_key s) f.computing) [
    | none ↦ f
    | some entry ↦ record {
      cache = keep_entry default_soft month_of s entry stored f.cache;
      computing = delete text_dec (scope_key s) f.computing;
    }
  ]

  unfoldable pub quota_step : QuotaStep → Flights → Flights
  quota_step (began s locked m read) f = start_evaluation s locked m read f
  quota_step (ended s stored) f = finish_evaluation s stored f
  quota_step (changed tenant) f = record f { cache = forget_quotas tenant f.cache }

  -- The steps, the last one first.
  unfoldable pub after_steps : List QuotaStep → Flights → Flights
  after_steps [] f = f
  after_steps (step ∷ earlier) f = quota_step step (after_steps earlier f)
