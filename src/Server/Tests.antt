-- ===== src/Server/Tests.antt =====
-- Concrete runs of the theorems on errors, credentials and pages.
use cogni_gate.Prelude.{
  true, subst, some_inj, ℕ, suc, ◌≡◌, ◌≢◌, List, [], ◌∷◌, Option, none, some, Text, codes, refl,
  arith, inr, ◌⊎◌, false, lookup, text_dec, trim_space, trim_left, trim_end, insert, equal_fold,
  to_lower, lower_byte, is_space, has_prefix, cut_prefix,
}
use cogni_gate.Memory.{Memory, plane_data, ApiKey, Tenant, ok, new_memory, has_tenant}
use cogni_gate.Memory.Tenants.{create_tenant, name_taken, new_tenant}
use cogni_gate.Memory.ApiKeys.{
  revoke_api_key, create_api_key, may_mint, with_key, minted, resolve_key, key_of_hash, is_active,
  is_admin, not_expired, not_revoked, resolved_tenant, revoked,
}
use cogni_gate.Memory.Credentials.{generate_api_key, key_prefix, scheme_of, plane_of}
use cogni_gate.Memory.ApiKeys.Calls.{Call, creating_tenant, minting, run, apply}
use cogni_gate.Server.ApiErrors.{rate_limited, with_retry_after, new_err}
use cogni_gate.Server.Answers.{fail, Covers, fail-RetryAfter}
use cogni_gate.Server.Auth.{
  auth, bearer, bootstrap_matches, by_store, judged, is_suspended, admitted,
}
use cogni_gate.Server.Auth.Credentials.{Bootstraps, Resolves, revoked_key_refused}
use cogni_gate.Server.Paging.{page_limit}
use cogni_gate.Limits.{EffectiveLimits, limits_for}
use cogni_gate.Server.Admission.{Arrival, Limiters, enter}
use cogni_gate.Server.Admission.Holds.{Fair, enter-Fair}
use cogni_gate.Cache.{Entry, get, put, add, replaced, evict, entry_size, new_cache, remove_element}
use cogni_gate.Routing.Dispatch.{Candidate}
use cogni_gate.Routing.Resolve.{served_by}
use cogni_gate.Server.Completions.{
  Completion, replayed, completion, completions, complete_by, cache_key_for, key_for, response_key,
  after_lookup, store_answer, entry_for, reply_of,
}
use cogni_gate.Server.Completions.Replays.{NulFree}
use cogni_gate.Server.Completions.Isolation.{Clean, SomeAsked, replay_faithful}
use cogni_gate.Server.Paging.Walk.{walk, walk_sees_all}

abbrev acme : Text
acme = codes "ten_1"

abbrev as_is : Text → Text
as_is t = t

abbrev earlier : List Call
earlier =
    creating_tenant (codes "Acme") acme 1
    ∷ minting acme plane_data (codes "ci") (codes "") none (codes "key_1") (codes "s3cret") 2
    ∷ minting acme plane_data (codes "web") (codes "") none (codes "key_2") (codes "other") 3
    ∷ []

abbrev built : Memory
built = run as_is (new_memory false) earlier

abbrev after : List Call
after = minting acme plane_data (codes "new") (codes "") none (codes "key_3") (codes "third") 9 ∷ []

abbrev web_key : ApiKey
web_key = record {
  id = codes "key_2";
  tenant_id = acme;
  plane = plane_data;
  name = codes "web";
  prefix = codes "cg-other";
  hash = codes "cg-other";
  scope = [];
  created_at = 3;
  expires_at = none;
  revoked_at = none;
}

abbrev acme_tenant : Tenant
acme_tenant = new_tenant acme (codes "Acme") 1

revoked_ok : (revoke_api_key built acme (codes "key_1") 5).1 ≡ ok tt
unfolding revoke_api_key lookup run apply create_api_key may_mint text_dec has_tenant create_tenant
    trim_space name_taken new_memory insert with_key minted
revoked_ok = refl

abbrev web_header : Text
web_header = codes "Bearer cg-other"

web_admitted :
    auth as_is [] plane_data web_header
      (run as_is (revoke_api_key built acme (codes "key_1") 5).0 after)
      10
    ≡ admitted web_key (some acme_tenant)
unfolding auth bearer bootstrap_matches by_store judged is_suspended plane_of revoke_api_key
    resolve_key key_of_hash is_active is_admin not_expired not_revoked resolved_tenant revoked
    generate_api_key key_prefix new_tenant lookup run apply create_api_key may_mint text_dec
    has_tenant create_tenant trim_space trim_left trim_end name_taken new_memory insert with_key
    minted scheme_of equal_fold to_lower lower_byte is_space has_prefix cut_prefix
web_admitted = refl

revoked_key_refused_example :
    Bootstraps [] plane_data (bearer web_header) web_key (some acme_tenant)
    ⊎ (Resolves as_is plane_data
          (bearer web_header)
          (run as_is (revoke_api_key built acme (codes "key_1") 5).0 after)
          10
          web_key
          (some acme_tenant)
        × (web_key.id ≢ codes "key_1"))
revoked_key_refused_example =
    revoked_key_refused as_is false earlier after acme (codes "key_1") 5 [] plane_data web_header 10
      web_key (some acme_tenant) revoked_ok ((λ h. absurd (ground (arith, h))), tt) web_admitted

limited : rate_limited.status ≡ 429
unfolding rate_limited new_err
limited = refl

abbrev client_header : Text
client_header = codes "1"

-- The answer to a request that brings the header itself.
fail-RetryAfter_example :
    ((client_header ≡ [])
      × ((n : ℕ) × ((fail
              (codes "req_1")
              client_header
              (some (with_retry_after 1500000000 rate_limited))).retry_after
            ≡ some n)
          × Covers 1500000000 n))
    ⊎ ((client_header ≢ [])
        × ((fail
              (codes "req_1")
              client_header
              (some (with_retry_after 1500000000 rate_limited))).retry_after
            ≡ none))
fail-RetryAfter_example =
    fail-RetryAfter (codes "req_1") client_header 1500000000 rate_limited limited

abbrev three_ids : List Text
three_ids = codes "a" ∷ codes "b" ∷ codes "c" ∷ []

abbrev only_two : Text → Option ℕ
only_two t = some 2

two_a_page : page_limit only_two (codes "2") ≡ inr (suc 1)
unfolding page_limit trim_space trim_left trim_end is_space text_dec
two_a_page = refl

walk_sees_all_example : walk (λ (t : Text). t) only_two (codes "2") three_ids 3 [] ≡ three_ids
unfolding trim_space trim_left trim_end is_space
walk_sees_all_example =
    walk_sees_all (λ (t : Text). t) only_two (codes "2") 1 two_a_page three_ids 3
      (
        (λ h. absurd (ground (arith, h))),
        refl,
        ((λ h. absurd (ground (arith, h))), ((λ h. absurd (ground (arith, h))), tt)),
        (
          (λ h. absurd (ground (arith, h))),
          refl,
          ((λ h. absurd (ground (arith, h))), tt),
          ((λ h. absurd (ground (arith, h))), refl, tt, tt),
        ),
      )
      (omega arith)

abbrev west : Candidate
west = record {
  tenant_id = acme;
  provider = codes "west";
  provider_id = codes "p1";
  model = codes "m";
}

abbrev asked_at : ℕ → Completion
asked_at now = record {
  tenant_id = acme;
  body = codes "hi";
  plan = record { lookup = true; header = []; ttl = 100 };
  primary = some west;
  answer = some (west, codes "hello");
  asked_at = now;
  answered_at = now;
}

abbrev parses : Text → Option Text
parses t = some t

asked_at-Clean : (now : ℕ) → Clean (asked_at now)
unfolding served_by
asked_at-Clean now = (
  ground arith,
  λ primary e.
      subst (λ (c : Candidate). NulFree (served_by c)) (some_inj west primary e) (ground arith),
)

abbrev hello : Entry
hello = record { body = codes "hello"; provider = codes "west"; model = codes "m" }

second_replayed :
    (completion parses as_is
      (asked_at 5)
      (completions parses as_is (asked_at 1 ∷ []) (new_cache 1000 500))).0
    ≡ replayed hello
unfolding completion completions complete_by cache_key_for key_for response_key after_lookup
    store_answer entry_for reply_of get put add replaced evict entry_size new_cache lookup insert
    text_dec served_by remove_element
second_replayed = refl

replay_faithful_example : SomeAsked parses as_is (asked_at 5) hello (asked_at 1 ∷ [])
replay_faithful_example =
    replay_faithful parses as_is (asked_at 1 ∷ []) (asked_at 5) 1000 500 hello (λ s t e. e)
      (asked_at-Clean 5) (asked_at-Clean 1, tt) second_replayed

abbrev ceilings : EffectiveLimits
ceilings = record {
  max_request_bytes = 100;
  request_timeout = 0;
  stream_idle_timeout = 0;
  max_concurrent_per_key = 2;
  requests_per_second = 1;
  burst_capacity = 1;
  requests_per_minute = 0;
}

abbrev web_request : Arrival
web_request = record {
  key = web_key;
  tenant = some acme_tenant;
  declared = none;
  body_bytes = 10;
  path = codes "/v1/chat/completions";
}

abbrev no_requests : Limiters
no_requests = record { rates = []; limiter = record { in_use = []; limit = 32 } }

enter-Fair_example :
    Fair
      (limits_for ceilings (some acme_tenant.limits))
      web_request
      no_requests
      (enter as_is (λ n. []) ceilings web_request 7 no_requests)
enter-Fair_example = enter-Fair as_is (λ n. []) ceilings web_request acme_tenant 7 no_requests refl
