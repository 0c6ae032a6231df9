-- ===== src/Memory/Credentials.antt =====
-- gateway/internal/store/keys.go: the spelling of a credential. The random part is an argument.
use cogni_gate.Prelude.{
  ◌≡◌, refl, Bool, true, false, Option, none, some, ◌++◌, take, if◌then◌else◌, Text, codes,
  has_prefix, cut_prefix, length, drop,
}
use cogni_gate.Memory.Tables.{Plane, plane_data, plane_admin}

abbrev pub data_key_prefix : Text
data_key_prefix = codes "cg-"

abbrev pub admin_key_prefix : Text
admin_key_prefix = codes "cga-"

unfoldable pub scheme_of : Plane → Bool → Text
scheme_of plane_data dev = if dev then codes "cg-dev-" else data_key_prefix
scheme_of plane_admin dev = if dev then codes "cga-dev-" else admin_key_prefix

unfoldable pub generate_api_key : Plane → Bool → Text → Text
unfolding scheme_of
generate_api_key plane dev token = scheme_of plane dev ++ token

-- KeyPrefix takes credentials of either scheme: it slices the scheme off without a test.
unfoldable pub key_prefix : Text → Text
unfolding has_prefix
key_prefix plaintext =
    let scheme =
      if has_prefix admin_key_prefix plaintext then admin_key_prefix else data_key_prefix in
    let after = drop (length scheme) plaintext in
    let scheme' = if has_prefix (codes "dev-") after then scheme ++ codes "dev-" else scheme in
    scheme' ++ take 8 (drop (length scheme') plaintext)

unfoldable pub plane_of : Text → Option Plane
unfolding has_prefix
plane_of plaintext =
    if has_prefix admin_key_prefix plaintext
    then some plane_admin
    else (if has_prefix data_key_prefix plaintext then some plane_data else none)

-- A minted credential is of the plane it was minted for.
pub plane_of-generate :
    (p : Plane) (dev : Bool) (token : Text) → plane_of (generate_api_key p dev token) ≡ some p
unfolding plane_of generate_api_key cut_prefix
plane_of-generate plane_data true token = refl
plane_of-generate plane_data false token = refl
plane_of-generate plane_admin true token = refl
plane_of-generate plane_admin false token = refl
