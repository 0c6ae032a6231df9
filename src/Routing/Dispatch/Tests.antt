-- ===== src/Routing/Dispatch/Tests.antt =====
-- Dispatches through a small upstream, and the theorems at inputs that meet their hypotheses.
use cogni_gate.Prelude.{
  ℕ, ◌+◌, ◌≡◌, refl, inr, true, false, none, some, List, [], ◌∷◌, arith, if◌then◌else◌, Text,
  text_dec, text_eq, codes, lookup,
}
use cogni_gate.Store.{Provider}
use cogni_gate.Provider.{fail_none, fail_rate_limit, fail_client, Request, Response}
use cogni_gate.Routing.Breaker.{Entry, state_open, find, allow}
use cogni_gate.Routing.BreakerKey.{key}
use cogni_gate.Routing.KeyPool.{Pools, PoolKey, key_order, ready_keys}
use cogni_gate.Routing.Dispatch.{
  Upstream, State, Candidate, candidate_key, client_error, stopped, step, dispatch, prepare,
  try_candidate, try_keys, find_provider, proceed,
}
use cogni_gate.Routing.Dispatch.Probe.{Job, serve, lost_probe_blocks}
use cogni_gate.Routing.Dispatch.Accounts.{Accounts, dispatch-Accounts}

-- Every exchange takes one tick. The key "slow" is rate limited, "good" is served, and any other
-- is told that its request is bad.
abbrev reply : Text → Response
reply k = record {
  status_code =
      if text_eq k (codes "slow") then 429 else if text_eq k (codes "good") then 200 else 400;
  retry_after = none;
  body = [];
  failure =
      if text_eq k (codes "slow")
      then fail_rate_limit
      else if text_eq k (codes "good")
      then fail_none
      else fail_client;
}

abbrev upstream : Upstream ℕ
upstream = record {
  now = λ w. w;
  has_adapter = λ kind. true;
  send =
      λ w kind cred req. record { world = w + 1; response = some (reply cred.api_key); err = none };
  with_model = λ body model. some body;
  trim_space = λ s. s;
  atoi = λ s. none;
  parse_time = λ s. none;
}

abbrev pool : List Text → Provider
pool keys = record {
  id = codes "prv_1";
  name = codes "primary";
  kind = codes "openai";
  base_url = codes "http://up";
  enabled = true;
  tenant_id = codes "t";
  key_prefixes = [];
  created_at = 0;
  key_strategy = codes "";
  keys = keys;
}

abbrev gpt : Candidate
gpt = record {
  tenant_id = codes "t";
  provider = codes "primary";
  provider_id = codes "prv_1";
  model = codes "gpt";
}

-- Open since tick 3, for ten ticks.
abbrev opened : Entry
opened = record { failures = []; state = state_open; opened_at = 3; probing = false }

abbrev quiet : Pools
quiet = record { cursors = []; cooldowns = [] }

abbrev at_tick : ℕ → List (Text × Entry) → State ℕ
at_tick now entries = record {
  world = now;
  breaker = record {
    settings = record { threshold = 5; window = 30; open_for = 10 };
    entries = entries;
    changes = [];
  };
  pools = quiet;
}

abbrev probed : List (Text × Entry)
probed = (codes "t/primary/gpt", opened) ∷ []

gpt_found : find (at_tick 20 probed).breaker (candidate_key gpt) ≡ some opened
unfolding find candidate_key key lookup text_dec
gpt_found = refl

bad_request_stops :
    (step upstream (at_tick 20 probed) (pool (codes "bad" ∷ []) ∷ []) gpt [] false []).1
    ≡ stopped (client_error (reply (codes "bad")))
unfolding step allow find lookup text_dec candidate_key key proceed prepare find_provider
    try_candidate try_keys ready_keys key_order
bad_request_stops = refl

abbrev later_job : Job ℕ
later_job = record {
  world = 500;
  providers = pool (codes "good" ∷ []) ∷ [];
  candidates = gpt ∷ [];
  body = [];
  stream = false;
  path = [];
}

lost_probe_blocks_example :
    let t = step upstream (at_tick 20 probed) (pool (codes "bad" ∷ []) ∷ []) gpt [] false [] in
    (allow (serve upstream t.0 (later_job ∷ [])).breaker (candidate_key gpt) 900).1 ≡ false
lost_probe_blocks_example =
    lost_probe_blocks upstream (pool (codes "bad" ∷ []) ∷ []) [] false [] (at_tick 20 probed) gpt
      opened (later_job ∷ []) 900 gpt_found refl (omega arith)
      (inr (client_error (reply (codes "bad")), bad_request_stops))

abbrev chain : List Candidate
chain = record gpt { provider_id = codes "prv_9" } ∷ gpt ∷ []

abbrev good_pool : List Provider
good_pool = pool (codes "slow" ∷ codes "good" ∷ []) ∷ []

dispatch-Accounts_example :
    Accounts upstream good_pool [] false [] 0 [] chain
      (dispatch upstream (at_tick 0 []) good_pool chain [] false [])
dispatch-Accounts_example = dispatch-Accounts upstream good_pool [] false [] (at_tick 0 []) chain

abbrev no_request : Request
no_request = record { model = []; body = []; stream = false; path = [] }

abbrev slow_pool : Provider
slow_pool = pool (codes "slow" ∷ codes "slow" ∷ [])

abbrev three : Provider
three = pool (codes "a" ∷ codes "b" ∷ codes "c" ∷ [])

abbrev at_four : Pools
at_four = record { cursors = (codes "prv_1", 4) ∷ []; cooldowns = [] }

abbrev parked : Pools
parked = record { cursors = []; cooldowns = ((codes "prv_1", codes "a"), 50) ∷ [] }

abbrev key_a : PoolKey
key_a = (codes "prv_1", codes "a")

abbrev key_b : PoolKey
key_b = (codes "prv_1", codes "b")
