-- ===== src/Memory/Quotas.antt =====
-- The methods of the store on quotas.
use cogni_gate.Prelude.{
  ℕ, none, some, ◌∷◌, ◌++◌, if◌then◌else◌, Text, text_dec, lookup, insert, delete,
}
use cogni_gate.Quota.{Quota}
use cogni_gate.Memory.Tables.{Memory, Result, ok, err, not_found, has_tenant}

unfoldable pub quota_key : Text → Text → Text
quota_key tenant key = tenant ++ (0 ∷ key)

unfoldable pub set_quota : Memory → Quota → ℕ → Memory × Result Quota
set_quota m q now =
    let saved = record q { updated_at = now } in
    if has_tenant m q.tenant_id
    then (
      record m { quotas = insert text_dec (quota_key q.tenant_id q.key_id) saved m.quotas },
      ok saved,
    )
    else (m, err not_found)

unfoldable pub get_quota : Memory → Text → Text → Result Quota
get_quota m tenant key = elim (lookup text_dec (quota_key tenant key) m.quotas) [
  | none ↦ err not_found
  | some q ↦ ok q
]

unfoldable pub delete_quota : Memory → Text → Text → Memory × Result (Unit {0})
delete_quota m tenant key = elim (lookup text_dec (quota_key tenant key) m.quotas) [
  | none ↦ (m, err not_found)
  | some _ ↦ (record m { quotas = delete text_dec (quota_key tenant key) m.quotas }, ok tt)
]
