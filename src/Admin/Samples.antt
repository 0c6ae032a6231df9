-- ===== src/Admin/Samples.antt =====
-- The states, keys and calls that the tests of the control plane share.
use cogni_gate.Prelude.{false, none, some, [], ◌∷◌, Text, codes}
use cogni_gate.Memory.{Memory, ApiKey, plane_admin, new_memory}
use cogni_gate.Memory.Tenants.{new_tenant}
use cogni_gate.Memory.ApiKeys.{scope_root}
use cogni_gate.Quota.Cached.{new_quota_cache}
use cogni_gate.Cache.{new_cache}
use cogni_gate.Capture as Capture
use cogni_gate.Limits.{EffectiveLimits}
use cogni_gate.Admin.{Gateway, AdminConfig, Externals, Draw}
use cogni_gate.Admin.Calls.{AdminCall, post_key}

abbrev pub acme_id : Text
acme_id = codes "ten_1"

abbrev pub other_id : Text
other_id = codes "ten_2"

abbrev pub stand_in : Externals
stand_in = record {
  quote = λ t. t;
  decimal = λ _. [];
  duration = λ _. [];
  error_text = λ _. [];
  parse_url = λ _. some (codes "https", codes "host");
  atoi = λ _. none;
  hash = λ t. t;
  adapters = record { adapter = λ _. none; quote = λ t. t };
}

abbrev pub ceilings : EffectiveLimits
ceilings = record {
  max_request_bytes = 1000;
  request_timeout = 1000;
  stream_idle_timeout = 1000;
  max_concurrent_per_key = 10;
  requests_per_second = 10;
  burst_capacity = 10;
  requests_per_minute = 10;
}

abbrev pub settings : AdminConfig
settings = record {
  limits = ceilings;
  cache_max_ttl = 1000;
  debug_default_ttl = 1000;
  debug_max_ttl = 1000;
  debug_default_sample_rate = 0;
  max_fallback_depth = 3;
  default_soft_threshold_pct = 80;
}

abbrev pub two_tenants : Memory
two_tenants = record (new_memory false) {
  tenants =
      (acme_id, new_tenant acme_id (codes "Acme") 1)
      ∷ (other_id, new_tenant other_id (codes "Other") 2)
      ∷ [];
}

abbrev pub started : Gateway
started = record {
  store = two_tenants;
  catalog = record {
    opts = record { ttl = 1; provider_timeout = 1; prices = []; watched = false };
    per_tenant = [];
    announced = [];
  };
  quotas = new_quota_cache 5;
  cache = new_cache 100 10;
  captures = Capture.new_store 100;
}

abbrev pub acme_admin : ApiKey
acme_admin = record {
  id = codes "key_1";
  tenant_id = acme_id;
  plane = plane_admin;
  name = codes "ops";
  prefix = codes "cg-admin";
  hash = codes "h";
  scope = codes "tenant:ten_1";
  created_at = 1;
  expires_at = none;
  revoked_at = none;
}

abbrev pub drawn : Draw
drawn = record { now = 10; id = λ _. codes "key_9"; token = codes "secret" }

-- The tenant's admin key asks for a root key.
abbrev pub asking_root : AdminCall
asking_root = post_key acme_id (
    some
      (record { name = codes "x"; plane = codes "admin"; scope = scope_root; expires_at = none }))
