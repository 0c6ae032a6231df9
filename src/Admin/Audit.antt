-- ===== src/Admin/Audit.antt =====
-- gateway/internal/server/audit.go: what the audit writes behind a handler, and the list of the log.
use cogni_gate.Prelude.{ℕ, Bool, Option, none, some, List, Text, codes, []}
use cogni_gate.Memory.{ApiKey, AuditEntry}
use cogni_gate.Memory.History.{record_audit, list_audit}
use cogni_gate.Admin.{Gateway, Externals, Reply, PageQuery, require_root, checked, send_page}

-- What the method of a request does, none for one that changes nothing.
pub data Method : Type 0 where
  get_method : Method
  post_method : Method
  put_method : Method
  patch_method : Method
  delete_method : Method

unfoldable pub audit_action : Method → Option Text
audit_action get_method = none
audit_action post_method = some (codes "create")
audit_action put_method = some (codes "upsert")
audit_action patch_method = some (codes "update")
audit_action delete_method = some (codes "delete")

-- The request as the audit sees it.
pub record AuditedRequest : Type 0 where
  pub method : Method
  pub path : Text
  pub tenant : Text
  pub request_id : Text

unfoldable pub audit_entry : ApiKey → Text → AuditedRequest → ℕ → AuditEntry
audit_entry k action r status = record {
  id = [];
  at = 0;
  actor = k.prefix;
  actor_key_id = k.id;
  actor_scope = k.scope;
  action = action;
  resource = r.path;
  tenant_id = r.tenant;
  status = status;
  request_id = r.request_id;
}

-- The audit behind a handler that answered with a status.
unfoldable pub audited : Option ApiKey → AuditedRequest → ℕ → Text → ℕ → Gateway → Gateway
audited none r status id now g = g
audited (some k) r status id now g = elim (audit_action r.method) [
  | none ↦ g
  | some action ↦ record g { store = record_audit g.store (audit_entry k action r status) id now }
]

module _ (x : Externals) where
  unfoldable pub list_audit_call :
      Option ApiKey → PageQuery → Gateway → Gateway × Reply (List AuditEntry × Bool)
  list_audit_call key q g =
      checked x (require_root key) g
        (g, send_page x (λ (e : AuditEntry). e.id) q (list_audit g.store))
