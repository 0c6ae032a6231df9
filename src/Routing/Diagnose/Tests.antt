-- ===== src/Routing/Diagnose/Tests.antt =====
-- The diagnosis of a route on a small catalog.
use cogni_gate.Prelude.{false, [], ◌∷◌, codes}
use cogni_gate.Store.{Route}
use cogni_gate.Catalog.{Snapshot}

abbrev nothing : Snapshot
nothing = record { models = []; by_id = []; fetched_at = 1; stale = false; errors = [] }

abbrev dead : Route
dead = record {
  id = [];
  tenant_id = [];
  created_at = 0;
  match = codes "main";
  chain = codes "gone" ∷ codes "lost" ∷ [];
}
