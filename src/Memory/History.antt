-- ===== src/Memory/History.antt =====
-- The methods of the store on events and on the audit log: histories of a bounded depth.
use cogni_gate.Prelude.{ℕ, List, [], ◌∷◌, ◌++◌, reverse, Text, text_dec, insert}
use cogni_gate.Memory.Tables.{Memory, Event, AuditEntry, rows, last_of}

abbrev pub max_tenant_events : ℕ
max_tenant_events = 1000

abbrev pub max_memory_audit_entries : ℕ
max_memory_audit_entries = 5000

unfoldable pub record_event : Memory → Event → Memory
record_event m e = record m {
  events =
      insert text_dec e.tenant_id
        (last_of max_tenant_events (rows m.events e.tenant_id ++ (e ∷ []))) m.events;
}

-- From the last to the first.
unfoldable pub list_events : Memory → Text → List Event
list_events m tenant = reverse (rows m.events tenant)

unfoldable pub record_audit : Memory → AuditEntry → Text → ℕ → Memory
record_audit m e id now = record m {
  audit = last_of max_memory_audit_entries (m.audit ++ (record e { id = id; at = now } ∷ []));
}

unfoldable pub list_audit : Memory → List AuditEntry
list_audit m = reverse m.audit
