-- ===== src/Memory/Providers.antt =====
-- The methods of the store on providers.
use cogni_gate.Prelude.{
  ℕ, Bool, false, ◌||◌, Option, none, some, List, [], ◌∷◌, ◌++◌, ◌-◌, ◌==◌, leb, map, take, drop,
  length, if◌then◌else◌, Text, text_dec, text_eq, equal_fold, trim_end, insert,
}
use cogni_gate.Store.{Provider}
use cogni_gate.Memory.Tables.{
  Memory, Result, ok, err, not_found, conflict, has_tenant, rows, remove_first, find_first,
}
use cogni_gate.Memory.Tenants.{or_keep}

unfoldable pub stars : Text → Text
stars raw = map (λ _. 42) raw

-- The first six bytes and the last four, with an ellipsis between them (UTF-8, three bytes).
unfoldable pub mask_provider_key : Text → Text
mask_provider_key raw =
    if leb (length raw) 10
    then stars raw
    else take 6 raw ++ (226 ∷ 128 ∷ 166 ∷ []) ++ drop (length raw - 4) raw

unfoldable pub name_registered : Text → List Provider → Bool
name_registered name [] = false
name_registered name (p ∷ ps) = equal_fold p.name name || name_registered name ps

unfoldable pub saved_provider : Provider → Text → ℕ → Provider
saved_provider p id now = record p {
  id = id;
  created_at = now;
  key_prefixes = map mask_provider_key p.keys;
}

unfoldable pub create_provider : Memory → Provider → Text → ℕ → Memory × Result Provider
create_provider m p id now =
    if has_tenant m p.tenant_id
    then (if name_registered p.name (rows m.providers p.tenant_id) then (m, err conflict) else (
      record m {
        providers =
            insert text_dec p.tenant_id
              (rows m.providers p.tenant_id ++ (saved_provider p id now ∷ [])) m.providers;
      },
      ok (saved_provider p id now),
    ))
    else (m, err not_found)

unfoldable pub list_providers : Memory → Text → List Provider
list_providers m tenant = rows m.providers tenant

-- A provider is named by its id or by its name.
unfoldable pub named : Text → Provider → Bool
named id p = text_eq p.id id || equal_fold p.name id

unfoldable pub get_provider : Memory → Text → Text → Result Provider
get_provider m tenant id = elim (find_first (named id) (rows m.providers tenant)) [
  | none ↦ err not_found
  | some p ↦ ok p
]

-- An absent key pool is none.
pub record ProviderPatch : Type 0 where
  pub base_url : Option Text
  pub enabled : Option Bool
  pub key_strategy : Option Text
  pub keys : Option (List Text)

unfoldable pub trim_url : Option Text → Option Text
trim_url none = none
trim_url (some url) = some (trim_end (λ c. c == 47) url)

unfoldable pub with_keys : Provider → Option (List Text) → Provider
with_keys p none = p
with_keys p (some ks) = record p { keys = ks; key_prefixes = map mask_provider_key ks }

unfoldable pub patched_provider : ProviderPatch → Provider → Provider
patched_provider patch p = record (with_keys p patch.keys) {
  base_url = or_keep p.base_url (trim_url patch.base_url);
  enabled = or_keep p.enabled patch.enabled;
  key_strategy = or_keep p.key_strategy patch.key_strategy;
}

-- The first row that a test takes, changed in place.
unfoldable pub update_first :
    (Provider → Bool) → (Provider → Provider) → List Provider → Option (List Provider × Provider)
update_first test f [] = none
update_first test f (p ∷ ps) =
    let rest = update_first test f ps in
    if test p
    then some (f p ∷ ps, f p)
    else elim rest [ none ↦ none | some (qs, q) ↦ some (p ∷ qs, q) ]

unfoldable pub update_provider : Memory → Text → Text → ProviderPatch → Memory × Result Provider
update_provider m tenant id patch =
    elim (update_first (named id) (patched_provider patch) (rows m.providers tenant)) [
      | none ↦ (m, err not_found)
      | some (ps, p) ↦ (record m { providers = insert text_dec tenant ps m.providers }, ok p)
    ]

unfoldable pub delete_provider : Memory → Text → Text → Memory × Result (Unit {0})
delete_provider m tenant id = elim (remove_first (named id) (rows m.providers tenant)) [
  | none ↦ (m, err not_found)
  | some ps ↦ (record m { providers = insert text_dec tenant ps m.providers }, ok tt)
]
