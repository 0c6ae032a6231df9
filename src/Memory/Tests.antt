-- ===== src/Memory/Tests.antt =====
-- The store on concrete calls.
use cogni_gate.Prelude.{
  sort_by, trim_space, ℕ, ◌≡◌, refl, false, none, some, List, [], ◌∷◌, Text, text_dec, codes,
  lookup, insert,
}
use cogni_gate.Memory.Tables.{
  last_of, has_tenant, Memory, ApiKey, plane_data, Tenant, UsageRecord, new_memory, ok, rows,
}
use cogni_gate.Memory.Tenants.{name_taken, delete_tenant, create_tenant, new_tenant}
use cogni_gate.Memory.ApiKeys.{
  revoked, resolved_tenant, not_revoked, not_expired, is_admin, is_active, key_of_hash, minted,
  with_key, may_mint, create_api_key, resolve_key, revoke_api_key,
}
use cogni_gate.Memory.ApiKeys.Calls.{Call, creating_tenant, minting, run, apply}
use cogni_gate.Memory.Usage.{
  spend_before, group_of, put_group, breakdown_from, record_usage, usage_breakdown, by_key,
  bucket_at, key_usage, in_window, add_usage, no_usage,
}
use cogni_gate.Store.{UsageTotals}
use cogni_gate.Memory.Usage.Breakdown.{IsBreakdown, usage_breakdown-rows}
use cogni_gate.Memory.Credentials.{key_prefix, generate_api_key}
use cogni_gate.Memory.Deletion.{Deleted, delete_tenant-Deleted}

abbrev acme : Text
acme = codes "ten_1"

-- A stand-in for SHA-256.
abbrev as_is : Text → Text
as_is t = t

abbrev earlier : List Call
earlier =
    creating_tenant (codes "Acme") acme 1
    ∷ minting acme plane_data (codes "ci") (codes "") none (codes "key_1") (codes "s3cret") 2
    ∷ minting acme plane_data (codes "web") (codes "") none (codes "key_2") (codes "other") 3
    ∷ []

abbrev built : Memory
built = run as_is (new_memory false) earlier

abbrev web_key : ApiKey
web_key = record {
  id = codes "key_2";
  tenant_id = acme;
  plane = plane_data;
  name = codes "web";
  prefix = codes "cg-other";
  hash = codes "cg-other";
  scope = [];
  created_at = 3;
  expires_at = none;
  revoked_at = none;
}

abbrev after : List Call
after = minting acme plane_data (codes "new") (codes "") none (codes "key_3") (codes "third") 9 ∷ []

abbrev acme_tenant : Tenant
acme_tenant = new_tenant acme (codes "Acme") 1

revoked_ok : (revoke_api_key built acme (codes "key_1") 5).1 ≡ ok tt
unfolding revoke_api_key lookup run apply create_api_key may_mint text_dec has_tenant create_tenant
    trim_space name_taken new_memory insert with_key minted
revoked_ok = refl

web_resolves :
    resolve_key as_is
      (run as_is (revoke_api_key built acme (codes "key_1") 5).0 after)
      (codes "cg-other")
      10
    ≡ ok (web_key, some acme_tenant)
unfolding revoke_api_key resolve_key key_of_hash is_active is_admin not_expired not_revoked
    resolved_tenant revoked generate_api_key key_prefix new_tenant lookup run apply create_api_key
    may_mint text_dec has_tenant create_tenant trim_space name_taken new_memory insert with_key
    minted
web_resolves = refl

deleted_ok : (delete_tenant built acme).1 ≡ ok tt
unfolding delete_tenant lookup run apply create_api_key may_mint text_dec has_tenant create_tenant
    trim_space name_taken new_memory insert with_key minted
deleted_ok = refl

delete_tenant-Deleted_example : Deleted built (delete_tenant built acme).0 acme
delete_tenant-Deleted_example = delete_tenant-Deleted built acme deleted_ok

abbrev spent : Text → ℕ → UsageRecord
spent prefix cost = record {
  request_id = [];
  client_request_id = [];
  tenant_id = acme;
  key_prefix = prefix;
  provider = codes "p";
  model = codes "m";
  requested_model = codes "m";
  fallback_depth = 0;
  prompt_tokens = 1;
  completion_tokens = 2;
  total_tokens = 3;
  cost_usd = cost;
  charge_usd = cost;
  billing_mode = [];
  cached = false;
  streamed = false;
  status_code = 200;
  duration_ms = 4;
  recorded_at = 7;
}

abbrev metered : Memory
metered =
    record_usage
      (record_usage (record_usage (new_memory false) (spent (codes "a") 5)) (spent (codes "b") 9))
      (spent (codes "a") 1)

abbrev two_rows : List (Text × UsageTotals)
two_rows =
    (codes "b", add_usage no_usage (spent (codes "b") 9))
    ∷ (codes "a", add_usage (add_usage no_usage (spent (codes "a") 5)) (spent (codes "a") 1))
    ∷ []

two_rows_found : usage_breakdown metered acme 0 10 by_key ≡ some two_rows
unfolding usage_breakdown breakdown_from rows lookup record_usage insert text_dec new_memory last_of
    in_window put_group group_of bucket_at add_usage no_usage sort_by spend_before
two_rows_found = refl

usage_breakdown-rows_example :
    IsBreakdown metered acme 0 10 by_key two_rows
    × (by_key ≡ by_key
        → (prefix : Text) → bucket_at two_rows prefix ≡ key_usage metered acme prefix 0 10)
usage_breakdown-rows_example = usage_breakdown-rows metered acme 0 10 by_key two_rows two_rows_found
