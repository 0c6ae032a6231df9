-- ===== src/Admin/Foreign.antt =====
-- What a key that is not of root scope is told of another tenant.
use cogni_gate.Prelude.{Option, Text, codes, trim_space}
use cogni_gate.Memory.{Memory}
use cogni_gate.Server.ApiErrors.{ApiError, resource_not_found}
use cogni_gate.Admin.{Externals}
use cogni_gate.Admin.Tenants.{TenantUpdate}
use cogni_gate.Admin.Calls.{AdminCall, patch_tenant, drop_tenant}

-- The answer for a tenant that there is not.
abbrev pub no_tenant : Externals → Text → ApiError
no_tenant x path = resource_not_found x.quote x.decimal (codes "tenant") (trim_space path)

-- A change or a deletion of the tenant itself.
pub data OnTenant (p : Text) : AdminCall → Type 0 where
  on_patch : (body : Option TenantUpdate) → OnTenant p (patch_tenant p body)
  on_drop : (confirm : Text) → OnTenant p (drop_tenant p confirm)
