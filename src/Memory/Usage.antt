-- ===== src/Memory/Usage.antt =====
-- The methods of the store on usage records.
pub mod Breakdown
use cogni_gate.Prelude.{
  ℕ, ◌+◌, Bool, true, false, ◌&&◌, not, Option, none, some, List, [], ◌∷◌, ◌++◌, ltb, ◌==◌,
  if◌then◌else◌, Text, text_dec, text_eq, text_ltb, insert, lookup, keep_if, sort_by,
}
use cogni_gate.Store.{UsageTotals}
use cogni_gate.Memory.Tables.{Memory, UsageRecord, rows, last_of}

abbrev pub max_memory_usage_records : ℕ
max_memory_usage_records = 50000

unfoldable pub record_usage : Memory → UsageRecord → Memory
record_usage m r = record m {
  usage =
      insert text_dec r.tenant_id
        (last_of max_memory_usage_records (rows m.usage r.tenant_id ++ (r ∷ []))) m.usage;
}

unfoldable pub in_window : ℕ → ℕ → ℕ → Bool
in_window t since until = not (ltb t since) && ltb t until

unfoldable pub no_usage : UsageTotals
no_usage = record {
  requests = 0;
  cached_requests = 0;
  prompt_tokens = 0;
  completion_tokens = 0;
  total_tokens = 0;
  cost_usd = 0;
  charge_usd = 0;
}

-- The sums are exact: the wrap-around of the int64 counters, and the rounding of the float64 amounts, are left out.
unfoldable pub add_usage : UsageTotals → UsageRecord → UsageTotals
add_usage dst r = record {
  requests = dst.requests + 1;
  cached_requests = if r.cached then dst.cached_requests + 1 else dst.cached_requests;
  prompt_tokens = dst.prompt_tokens + r.prompt_tokens;
  completion_tokens = dst.completion_tokens + r.completion_tokens;
  total_tokens = dst.total_tokens + r.total_tokens;
  cost_usd = dst.cost_usd + r.cost_usd;
  charge_usd = dst.charge_usd + r.charge_usd;
}

-- The loop of Usage and KeyUsage: the records that a test takes are added up.
unfoldable pub usage_from : (UsageRecord → Bool) → List UsageRecord → UsageTotals → UsageTotals
usage_from test [] out = out
usage_from test (r ∷ rs) out = usage_from test rs (if test r then add_usage out r else out)

unfoldable pub usage : Memory → Text → ℕ → ℕ → UsageTotals
usage m tenant since until =
    usage_from (λ r. in_window r.recorded_at since until) (rows m.usage tenant) no_usage

unfoldable pub key_usage : Memory → Text → Text → ℕ → ℕ → UsageTotals
key_usage m tenant prefix since until =
    usage_from (λ r. text_eq r.key_prefix prefix && in_window r.recorded_at since until)
      (rows m.usage tenant) no_usage

-- The spellings of group_by; any other is refused where a record falls in the window.
pub data GroupBy : Type 0 where
  by_model : GroupBy
  by_provider : GroupBy
  by_key : GroupBy
  by_client_request_id : GroupBy
  by_other : GroupBy

-- The group of a record: an unlabelled one has none under client_request_id.
pub data Grouped : Type 0 where
  group : Text → Grouped
  skip : Grouped
  unsupported : Grouped

unfoldable pub group_of : GroupBy → UsageRecord → Grouped
group_of by_model r = group r.model
group_of by_provider r = group r.provider
group_of by_key r = group r.key_prefix
group_of by_client_request_id r =
    if text_eq r.client_request_id [] then skip else group r.client_request_id
group_of by_other r = unsupported

unfoldable pub bucket_at : List (Text × UsageTotals) → Text → UsageTotals
bucket_at buckets k = elim (lookup text_dec k buckets) [ none ↦ no_usage | some t ↦ t ]

unfoldable pub put_group :
    List (Text × UsageTotals) → UsageRecord → Grouped → Option (List (Text × UsageTotals))
put_group buckets r (group k) = some (insert text_dec k (add_usage (bucket_at buckets k) r) buckets)
put_group buckets r skip = some buckets
put_group buckets r unsupported = none

unfoldable pub breakdown_from :
    (UsageRecord → Bool)
    → GroupBy
    → List UsageRecord
    → List (Text × UsageTotals)
    → Option (List (Text × UsageTotals))
breakdown_from test by [] buckets = some buckets
breakdown_from test by (r ∷ rs) buckets = elim (test r) [
  | false ↦ breakdown_from test by rs buckets
  | true ↦ elim (put_group buckets r (group_of by r)) [
    | none ↦ none
    | some buckets' ↦ breakdown_from test by rs buckets'
  ]
]

-- By spend, the largest first.
unfoldable pub spend_before : Text × UsageTotals → Text × UsageTotals → Bool
spend_before (j, s) (k, t) =
    if s.cost_usd == t.cost_usd then text_ltb j k else ltb t.cost_usd s.cost_usd

unfoldable pub usage_breakdown :
    Memory → Text → ℕ → ℕ → GroupBy → Option (List (Text × UsageTotals))
usage_breakdown m tenant since until by =
    elim (breakdown_from (λ r. in_window r.recorded_at since until) by (rows m.usage tenant) []) [
      | none ↦ none
      | some buckets ↦ some (sort_by spend_before buckets)
    ]
