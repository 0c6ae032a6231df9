-- ===== src/Catalog/Tests.antt =====
-- Concrete runs of the catalog's theorems.
use cogni_gate.Prelude.{
  ◌≡◌, ◌↔◌, List, [], ◌∷◌, true, false, Option, none, some, Text, codes, refl, arith, inr, lookup,
  insert, is_space, lower_byte, member, text_dec, text_ltb, to_lower, trim_end, trim_left,
  trim_space, keep_if, insert_by, sort_by, ℕ_discrete,
}
use cogni_gate.Store.{Model, Provider}
use cogni_gate.Catalog.{CatalogEntry, Snapshot, lookup_id, age, model_of, after_slash}
use cogni_gate.Catalog.Polling.{
  Listing, failed, listed, refresh, finished, poll_all, poll_one, first_key, install, ask_adapter,
  merge, claim, claim_as, entry_of, priced, price_for, fold_key, fold_kinds, fold_models,
  normalize_prices, join_errors, joined, model_before, noted_error, qualified, with_id,
}
use cogni_gate.Catalog.Tenants.{
  Catalog, Upstreams, served, snapshot_of, get_snapshot, fresh_snapshot, new_catalog, reload,
  poll_now, absent_from, announce, as_set, diff, put_snapshot, with_state, refresh_now,
}
use cogni_gate.Catalog.Serving.{get_snapshot-Current, Current}
use cogni_gate.Catalog.Runs.{run, reading, refreshing, invalidating, Call, always_served}
use cogni_gate.Catalog.Addressing.{Unsplit, entry_candidate-listed_id}
use cogni_gate.Routing.Resolve.{entry_candidate}

abbrev llama : Model
llama = record {
  id = codes "meta/llama";
  provider = [];
  context_window = 8192;
  max_output_tokens = 4096;
  capabilities = [];
  input_cost_per_mtok = 0;
  output_cost_per_mtok = 0;
  deprecated = false;
}

abbrev upstream : Text → Text → Provider
upstream id name = record {
  id = id;
  tenant_id = codes "acme";
  name = name;
  kind = codes "openai";
  base_url = name;
  enabled = true;
  key_strategy = [];
  keys = codes "k" ∷ [];
  key_prefixes = [];
  created_at = 0;
}

abbrev answers : Listing → Text → Option (Text → Text → Listing)
answers l kind = some (λ url key. l)

abbrev up : Upstreams
up = record {
  adapters = record { adapter = answers (listed (llama ∷ [])); quote = λ t. t };
  providers = inr (upstream (codes "p1") (codes "a") ∷ upstream (codes "p2") (codes "b") ∷ []);
}

abbrev down : Upstreams
down = record {
  adapters = record { adapter = answers (failed (codes "timeout")); quote = λ t. t };
  providers = inr (upstream (codes "p1") (codes "a") ∷ []);
}

abbrev acme : Text
acme = codes "acme"

abbrev cold : Catalog
cold = new_catalog (record { ttl = 10; provider_timeout = 0; prices = []; watched = true })

abbrev warm : Catalog
warm = (get_snapshot up 100 acme cold).1

abbrev fetched : Snapshot
fetched = elim (snapshot_of acme warm) [
  | some s ↦ s
  | none ↦ record { models = []; by_id = []; fetched_at = 0; stale = false; errors = [] }
]

warm_snapshot : snapshot_of acme warm ≡ some fetched
unfolding refresh finished poll_all poll_one first_key install ask_adapter merge claim claim_as
    entry_of priced price_for fold_key fold_kinds fold_models normalize_prices join_errors joined
    model_before noted_error qualified with_id snapshot_of get_snapshot fresh_snapshot new_catalog
    reload poll_now absent_from announce as_set diff put_snapshot with_state refresh_now lookup_id
    age lookup insert is_space lower_byte member text_dec text_ltb to_lower trim_end trim_left
    trim_space keep_if insert_by sort_by ℕ_discrete
warm_snapshot = refl

-- The models of the poll before are served when the next poll fails.
get_snapshot-Current_example : Current down 200 acme warm (record fetched { stale = true })
unfolding refresh finished poll_all poll_one first_key install ask_adapter merge claim claim_as
    entry_of priced price_for fold_key fold_kinds fold_models normalize_prices join_errors joined
    model_before noted_error qualified with_id snapshot_of get_snapshot fresh_snapshot new_catalog
    reload poll_now absent_from announce as_set diff put_snapshot with_state refresh_now lookup_id
    age lookup insert is_space lower_byte member text_dec text_ltb to_lower trim_end trim_left
    trim_space keep_if insert_by sort_by ℕ_discrete
get_snapshot-Current_example =
    get_snapshot-Current down 200 acme warm (record fetched { stale = true }) (omega arith) refl

abbrev outage : List Call
outage = reading down 105 acme ∷ invalidating (codes "other") ∷ refreshing down 106 acme ∷ []

always_served_example :
    ((snap : Snapshot) × ((get_snapshot down 300 acme (run outage warm)).0 ≡ served snap))
    × ((snap : Snapshot) × ((refresh_now down 300 acme (run outage warm)).0 ≡ served snap))
always_served_example =
    always_served acme outage warm down 300 (fetched, warm_snapshot)
      (tt, ((λ e. ground (arith, e)), (tt, tt)))

abbrev both : List Provider
both = upstream (codes "p1") (codes "a") ∷ upstream (codes "p2") (codes "b") ∷ []

second :
    (lookup text_dec (codes "meta/llama") fetched.by_id)
    ≡ some (record { model = record llama { provider = codes "a" }; provider_id = codes "p1" })
unfolding refresh finished poll_all poll_one first_key install ask_adapter merge claim claim_as
    entry_of priced price_for fold_key fold_kinds fold_models normalize_prices join_errors joined
    model_before noted_error qualified with_id snapshot_of get_snapshot fresh_snapshot new_catalog
    reload poll_now absent_from announce as_set diff put_snapshot with_state refresh_now lookup_id
    age lookup insert is_space lower_byte member text_dec text_ltb to_lower trim_end trim_left
    trim_space keep_if insert_by sort_by ℕ_discrete
second = refl

abbrev entry : CatalogEntry
entry = record { model = llama; provider_id = codes "p1" }

entry_candidate-listed_id_example :
    (((entry_candidate (entry_of [] (upstream (codes "p1") (codes "a")) llama)).model
        ≡ codes "meta/llama")
      ↔ Unsplit (codes "meta/llama"))
    × ((entry_candidate (
          with_id
            (codes "a/meta/llama")
            (entry_of [] (upstream (codes "p1") (codes "a")) llama))).model
        ≡ codes "meta/llama")
unfolding qualified
entry_candidate-listed_id_example =
    entry_candidate-listed_id [] (upstream (codes "p1") (codes "a")) llama 97 [] refl
      ((λ h. absurd (ground (arith, h))), tt)

-- The provider of `meta/llama` is asked for `llama`.
sent : (entry_candidate entry).model ≡ codes "llama"
unfolding entry_candidate model_of after_slash
sent = refl
