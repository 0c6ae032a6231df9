-- ===== src/Admin/Tests.antt =====
-- The control plane on concrete calls.
use cogni_gate.Prelude.{
  ℕ, ◌≡◌, refl, arith, true, false, none, some, List, [], ◌∷◌, Text, text_dec, codes, lookup,
  insert, pos, int64, scale, ◌++◌, trim_space, trim_left, trim_end, is_space, cut_prefix,
}
use cogni_gate.Memory.{ApiKey, new_memory, has_tenant, last_of}
use cogni_gate.Memory.History.{record_audit, max_memory_audit_entries}
use cogni_gate.Memory.ApiKeys.{scope_root, is_admin}
use cogni_gate.Quota.{Period, Quota}
use cogni_gate.Quota.Cached.{
  new_quota_cache, QuotaScope, load_quota, forget_quotas, is_empty_quota, without_prefix, Readings,
  quota_verdict,
}
use cogni_gate.Quota.Flights.{Flights, QuotaStep, began, ended, after_steps}
use cogni_gate.Quota.Since.{JudgedSince}
use cogni_gate.Admin.Keys.{create_key, create_key_in, asked_plane, scope_error, caller_is_root}
use cogni_gate.Admin.{
  checked, Gateway, is_root, trim_scope, scoped, tenant_scope, parsed, store_reply,
}
use cogni_gate.Memory.Quotas.{set_quota, quota_key}
use cogni_gate.Admin.Quotas.{
  set_quota_call, at_target, set_quota_in, quota_of, and_then, normalised_window,
  normalise_quota_limit, with_threshold, quota_from, with_quotas_forgotten, WindowRequest,
}
use cogni_gate.Admin.Calls.{sealed, administer, answer_call, asked, method_of, status_of}
use cogni_gate.Admin.Policies.{validate_tenant_cache, longer_than}
use cogni_gate.Admin.Audit.{AuditedRequest, get_method, audit_action, audited}
use cogni_gate.Admin.Isolation.{Untouched, administer-Untouched}
use cogni_gate.Admin.Privileges.{root_key_was_root}
use cogni_gate.Admin.Trail.Entries.{administer-Audited, logged_entry}
use cogni_gate.Admin.QuotaChanges.{set_quota_call-Effective}
use cogni_gate.Admin.Samples.{
  acme_id, other_id, stand_in, settings, two_tenants, started, acme_admin, drawn, asking_root,
}

abbrev operator : ApiKey
operator = record acme_admin {
  id = codes "key_0";
  tenant_id = [];
  scope = scope_root;
  hash = codes "h0";
}

administer-Untouched_example :
    Untouched other_id started
      (administer stand_in settings
        (codes "/keys")
        (codes "r")
        (some acme_admin)
        asking_root
        drawn
        (codes "aud_1")
        started).0
unfolding is_root text_dec trim_scope cut_prefix lookup new_memory
administer-Untouched_example =
    administer-Untouched stand_in settings started other_id acme_admin refl
      (λ h. absurd (ground (arith, h))) (ground arith) (ground arith) drawn refl (codes "/keys")
      (codes "r") (codes "aud_1") asking_root

abbrev operated : Gateway
operated = record started { store = record two_tenants { keys = (codes "key_0", operator) ∷ [] } }

root_key_was_root_example :
    (i : ApiKey) × (lookup text_dec (codes "key_0") operated.store.keys ≡ some i)
    × (is_root i ≡ true)
    × (i.hash ≡ operator.hash)
unfolding is_root text_dec lookup administer answer_call audited audit_action method_of record_audit
    sealed create_key scoped tenant_scope trim_space trim_left trim_end is_space trim_scope
    cut_prefix parsed create_key_in asked_plane checked scope_error is_admin caller_is_root
root_key_was_root_example =
    root_key_was_root stand_in settings operated acme_admin refl drawn (codes "/keys") (codes "r")
      (codes "aud_1") asking_root (codes "key_0") operator refl refl

abbrev reading_keys : AuditedRequest
reading_keys = record {
  method = get_method;
  path = codes "/keys";
  tenant = [];
  request_id = codes "r";
}

administer-Audited_example :
    (audited (some operator) reading_keys 200 (codes "aud_1") drawn.now started ≡ started)
    × (action : Text) × (audit_action (method_of asking_root) ≡ some action)
    × ((administer stand_in settings
          (codes "/keys")
          (codes "r")
          (some operator)
          asking_root
          drawn
          (codes "aud_1")
          started).0.store.audit
        ≡ last_of max_memory_audit_entries (
            started.store.audit
            ++ (logged_entry operator action
                  (asked (codes "/keys") (codes "r") asking_root)
                  (status_of
                    (administer stand_in settings
                      (codes "/keys")
                      (codes "r")
                      (some operator)
                      asking_root
                      drawn
                      (codes "aud_1")
                      started).1)
                  (codes "aud_1")
                  drawn.now
                ∷ [])))
administer-Audited_example =
    administer-Audited stand_in settings started operator drawn (codes "/keys") (codes "r")
      (codes "aud_1") asking_root reading_keys 200 refl

abbrev nobody : Gateway
nobody = record started { store = new_memory false }

abbrev one_request : WindowRequest
one_request = record {
  tokens = none;
  cost = none;
  requests = some (record { cap = pos 1; soft_threshold_pct = pos 0 });
}

abbrev no_request : WindowRequest
no_request = record { tokens = none; cost = none; requests = none }

abbrev month_of : ℕ → Period
month_of now = record { since = 0; until = 100 }

abbrev acme_quota : Quota
acme_quota = record {
  tenant_id = acme_id;
  key_id = [];
  day = record {
    tokens = none;
    cost = none;
    requests = some (record { cap = 1; soft_threshold_pct = 80 });
  };
  month = record { tokens = none; cost = none; requests = none };
  updated_at = 10;
}

abbrev with_cap : Gateway
with_cap = record started {
  store = record two_tenants { quotas = (codes "ten_1" ++ (0 ∷ []), acme_quota) ∷ [] };
}

abbrev caller : QuotaScope
caller = record { tenant_id = acme_id; key_id = []; key_prefix = [] }

abbrev just_changed : Flights
just_changed = record { cache = with_cap.quotas; computing = [] }

abbrev one_evaluation : List QuotaStep
one_evaluation = ended caller 22 ∷ began caller 21 with_cap.store 21 ∷ []

abbrev no_more : List QuotaStep
no_more = []

abbrev times : Readings
times = record { asked = 23; locked = 23; read = 24; stored = 25; judged = 26 }

set_quota_call-Effective_example :
    (load_quota with_cap.store acme_id [] ≡ some acme_quota)
    × JudgedSince 80 month_of
        (no_more ++ one_evaluation)
        true
        caller
        with_cap.store
        24
        (quota_verdict 80 month_of true caller
          (some with_cap.store)
          times
          (after_steps 80 month_of one_evaluation just_changed).cache
          (after_steps 80 month_of no_more
            (after_steps 80 month_of one_evaluation just_changed)).cache).0
unfolding set_quota_call at_target scoped tenant_scope text_dec trim_space is_root trim_scope
    cut_prefix parsed set_quota_in quota_of and_then normalised_window normalise_quota_limit
    with_threshold quota_from with_quotas_forgotten store_reply quota_key set_quota has_tenant
    insert lookup is_space trim_end trim_left forget_quotas is_empty_quota without_prefix
    new_quota_cache new_memory
set_quota_call-Effective_example =
    set_quota_call-Effective stand_in settings month_of (some acme_admin) acme_id []
      (some (record { day = one_request; month = no_request })) drawn started with_cap 200
      acme_quota caller true with_cap.store times just_changed one_evaluation no_more refl refl
      (λ h. absurd (ground (arith, h))) refl refl

-- A time to live of 584 years passes the ceiling of an hour: in nanoseconds it wraps to 0.29 seconds.
long_ttl_passes :
    validate_tenant_cache stand_in
      (record settings { cache_max_ttl = 3600000000000 })
      (record { enabled = true; ttl_seconds = pos 18446744074 })
    ≡ none
unfolding validate_tenant_cache longer_than int64 scale
long_ttl_passes = refl
