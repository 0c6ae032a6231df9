-- ===== src/Admin/Trail/Entries.antt =====
-- The audit log behind a call of the admin plane.
use cogni_gate.Prelude.{ℕ, ◌≡◌, ◌∙◌, refl, ap, some, [], ◌∷◌, ◌++◌, Text, codes}
use cogni_gate.Memory.{ApiKey, AuditEntry, last_of}
use cogni_gate.Memory.History.{record_audit, max_memory_audit_entries}
use cogni_gate.Admin.{Gateway, AdminConfig, Externals, Draw}
use cogni_gate.Admin.Audit.{AuditedRequest, get_method, audit_action, audit_entry, audited}
use cogni_gate.Admin.Calls.{
  AdminCall, post_tenant, patch_tenant, drop_tenant, post_key, post_admin_key, drop_admin_key,
  drop_key, post_provider, patch_provider, drop_provider, put_alias, drop_alias, put_route,
  drop_route, put_quota, drop_quota, post_webhook, drop_webhook, post_refresh, post_flush,
  method_of, asked, status_of, answer_call, administer,
}
use cogni_gate.Admin.Trail.{answered-audit}

-- The entry that the audit of a call appends.
abbrev pub logged_entry : ApiKey → Text → AuditedRequest → ℕ → Text → ℕ → AuditEntry
logged_entry k action r status id now = record (audit_entry k action r status) { id = id; at = now }

action_of-call :
    (call : AdminCall) → (action : Text) × (audit_action (method_of call) ≡ some action)
unfolding audit_action method_of
action_of-call (post_tenant _) = (codes "create", refl)
action_of-call (patch_tenant _ _) = (codes "update", refl)
action_of-call (drop_tenant _ _) = (codes "delete", refl)
action_of-call (post_key _ _) = (codes "create", refl)
action_of-call (post_admin_key _) = (codes "create", refl)
action_of-call (drop_admin_key _) = (codes "delete", refl)
action_of-call (drop_key _ _) = (codes "delete", refl)
action_of-call (post_provider _ _) = (codes "create", refl)
action_of-call (patch_provider _ _ _) = (codes "update", refl)
action_of-call (drop_provider _ _) = (codes "delete", refl)
action_of-call (put_alias _ _ _) = (codes "upsert", refl)
action_of-call (drop_alias _ _) = (codes "delete", refl)
action_of-call (put_route _ _) = (codes "upsert", refl)
action_of-call (drop_route _ _) = (codes "delete", refl)
action_of-call (put_quota _ _ _) = (codes "upsert", refl)
action_of-call (drop_quota _ _) = (codes "delete", refl)
action_of-call (post_webhook _ _) = (codes "create", refl)
action_of-call (drop_webhook _ _) = (codes "delete", refl)
action_of-call (post_refresh _) = (codes "create", refl)
action_of-call (post_flush _) = (codes "create", refl)

audited-entry :
    (k : ApiKey) (r : AuditedRequest) (status : ℕ) (id action : Text) (now : ℕ) (g : Gateway)
    → audit_action r.method ≡ some action
    → (audited (some k) r status id now g).store.audit
      ≡ last_of max_memory_audit_entries
          (g.store.audit ++ (logged_entry k action r status id now ∷ []))
unfolding audited record_audit
audited-entry k r status id action now g h = rw (h, audited) refl

audited-get :
    (k : ApiKey) (r : AuditedRequest) (status : ℕ) (id : Text) (now : ℕ) (g : Gateway)
    → r.method ≡ get_method
    → audited (some k) r status id now g ≡ g
unfolding audited audit_action
audited-get k r status id now g h = rw (h, audited) refl

-- A call of a route that changes something, with a key on the admin plane, served or refused: the audit log afterwards is
-- the one before and one entry, within the bound of the log: the key's prefix, id and scope, the action of the
-- route, the path and the status that the caller is answered with. Behind any other handler, answering a GET with any
-- status, the audit changes nothing.
pub administer-Audited :
    (x : Externals) (conf : AdminConfig) (g : Gateway) (k : ApiKey) (d : Draw)
    (path request_id audit_id : Text) (call : AdminCall) (read_only : AuditedRequest) (status : ℕ)
    → read_only.method ≡ get_method
    → (audited (some k) read_only status audit_id d.now g ≡ g)
      × (action : Text) × (audit_action (method_of call) ≡ some action)
      × ((administer x conf path request_id (some k) call d audit_id g).0.store.audit
          ≡ last_of max_memory_audit_entries (
              g.store.audit
              ++ (logged_entry k action
                    (asked path request_id call)
                    (status_of (administer x conf path request_id (some k) call d audit_id g).1)
                    audit_id
                    d.now
                  ∷ [])))
unfolding administer
administer-Audited x conf g k d path request_id audit_id call read_only status reads =
    let served = answer_call x conf (some k) call d g in
    let found = action_of-call call in
    let entry =
      logged_entry k found.0 (asked path request_id call) (status_of served.1) audit_id d.now in
    (
      audited-get k read_only status audit_id d.now g reads,
      found.0,
      found.1,
      audited-entry k (asked path request_id call) (status_of served.1) audit_id found.0 d.now
            served.0 found.1
          ∙ ap (λ log. last_of max_memory_audit_entries (log ++ (entry ∷ [])))
              (answered-audit x conf (some k) d g call),
    )
