-- ===== src/Routing/Resolve/Tests.antt =====
-- The resolver on a small catalog.
use cogni_gate.Prelude.{
  false, member, lower_byte, to_lower, text_ltb, ◌≡◌, ◌≤◌, refl, some, [], ◌∷◌, Text, text_dec,
  codes, lookup, insert, keep_if, ℕ_discrete,
}
use cogni_gate.Store.{Alias, Route}
use cogni_gate.Routing.Dispatch.{Candidate}
use cogni_gate.Catalog.{CatalogEntry, Snapshot, lookup_id, after_slash, model_of}
use cogni_gate.Routing.Resolve.{
  resolve, resolved, model_not_found, resolve_ref, by_name, chain_for, sort_stable, concluded,
  collect, first_unseen, resolve_alias, matching, meets, has_all, all_in, before, cost_before,
  entry_candidate, is_alias, pref_rank, put_sorted, rank_of, served_by,
}
use cogni_gate.Routing.Resolve.Chains.{Sound, resolve-Sound}

abbrev big : CatalogEntry
big = record {
  model = record {
    id = codes "big";
    provider = codes "east";
    context_window = 8000;
    capabilities = codes "Chat" ∷ [];
    input_cost_per_mtok = 30;
    output_cost_per_mtok = 60;
    max_output_tokens = 0;
    deprecated = false;
  };
  provider_id = codes "p1";
}

abbrev small : CatalogEntry
small = record {
  model = record {
    id = codes "small";
    provider = codes "west";
    context_window = 4000;
    capabilities = codes "chat" ∷ [];
    input_cost_per_mtok = 3;
    output_cost_per_mtok = 6;
    max_output_tokens = 0;
    deprecated = false;
  };
  provider_id = codes "p2";
}

abbrev snap : Snapshot
snap = record {
  models = big ∷ small ∷ [];
  by_id = (codes "big", big) ∷ (codes "small", small) ∷ [];
  fetched_at = 1;
  stale = false;
  errors = [];
}

abbrev cheap : Alias
cheap = record {
  name = codes "cheap";
  pin = [];
  capabilities = codes "CHAT" ∷ [];
  min_context_window = 0;
  provider_preference = codes "west" ∷ [];
  cost_tier = codes "best";
  id = [];
  tenant_id = [];
  created_at = 0;
}

abbrev route : Route
route = record {
  match = codes "main";
  id = [];
  tenant_id = [];
  created_at = 0;
  chain = codes "gone" ∷ codes "cheap" ∷ codes "cheap" ∷ codes "small" ∷ [];
}

abbrev tenant : Text
tenant = codes "t1"

abbrev west_small : Candidate
west_small = record {
  tenant_id = tenant;
  provider = codes "west";
  provider_id = codes "p2";
  model = codes "small";
}

abbrev east_big : Candidate
east_big = record {
  tenant_id = tenant;
  provider = codes "east";
  provider_id = codes "p1";
  model = codes "big";
}

main_resolves :
    resolve 5 tenant (codes "main") (some snap) (some (cheap ∷ [])) (some (route ∷ []))
    ≡ resolved (west_small ∷ east_big ∷ [])
unfolding resolve concluded collect chain_for text_dec first_unseen resolve_ref lookup by_name
    insert lookup_id resolve_alias matching sort_stable keep_if meets has_all after_slash all_in
    before cost_before entry_candidate is_alias lower_byte member model_of pref_rank put_sorted
    rank_of served_by text_ltb to_lower ℕ_discrete
main_resolves = refl

resolve-Sound_example : (1 ≤ 2) × Sound 5 [] tenant (west_small ∷ east_big ∷ [])
resolve-Sound_example =
    resolve-Sound 5 tenant (codes "main") (some snap) (some (cheap ∷ [])) (some (route ∷ []))
      (west_small ∷ east_big ∷ []) main_resolves

gone_missing :
    resolve 5 tenant (codes "gone") (some snap) (some (cheap ∷ [])) (some (route ∷ []))
    ≡ model_not_found (codes "gone")
unfolding resolve concluded collect chain_for text_dec first_unseen resolve_ref lookup by_name
    insert lookup_id is_alias
gone_missing = refl
