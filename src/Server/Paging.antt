-- ===== src/Server/Paging.antt =====
-- gateway/internal/server/page.go: a page of a list. `atoi` is strconv.Atoi, none where it fails or gives a negative
-- number, which the limit refuses alike. The two texts are what the query has, empty for nothing.
pub mod Walk
use cogni_gate.Prelude.{
  ℕ, zero, suc, ◌≡◌, ◌≢◌, ◌≤◌, ◌<◌, ◌+◌, ◌∙◌, ltb, leb, ◌==◌, ◌&&◌, ◌||◌, List, [], ◌∷◌, ◌++◌, Bool,
  true, false, Option, none, some, Text, text_dec, text_eq, codes, if◌then◌else◌, length, take,
  drop, trim_space, refl, sym, ap, arith, All, ◌⊎◌, inl, inr, take-append-drop, length-append,
  subst,
}
use cogni_gate.Server.ApiErrors.{ApiError, invalid_request, with_param}

abbrev pub default_page_limit : ℕ
default_page_limit = 50

abbrev pub max_page_limit : ℕ
max_page_limit = 200

abbrev pub bad_limit : ApiError
bad_limit =
    with_param (codes "limit")
      (invalid_request (codes "limit must be an integer between 1 and 200."))

abbrev pub unknown_cursor : ApiError
unknown_cursor =
    with_param (codes "after")
      (invalid_request (codes "Unknown cursor: no item with that id in this collection."))

unfoldable pub page_limit : (Text → Option ℕ) → Text → ApiError ⊎ ℕ
page_limit atoi raw =
    if text_eq (trim_space raw) [] then inr default_page_limit else elim (atoi (trim_space raw)) [
      | none ↦ inl bad_limit
      | some n ↦ if ltb n 1 || ltb max_page_limit n then inl bad_limit else inr n
    ]

pub data Paged {ℓ} (A : Type ℓ) : Type ℓ where
  page : List A → Bool → Paged A
  page_refused : ApiError → Paged A

module _ {ℓ} {A : Type ℓ} (id_of : A → Text) where
  -- What stands behind the first item with an id.
  unfoldable pub behind : Text → List A → Option (List A)
  behind after [] = none
  behind after (x ∷ items) = if text_eq (id_of x) after then some items else behind after items

  unfoldable pub cut_page : ℕ → List A → Paged A
  cut_page limit items = page (take limit items) (ltb limit (length items))

  unfoldable pub after_cursor : ℕ → Text → List A → Paged A
  after_cursor limit after items =
      if text_eq after [] then cut_page limit items else elim (behind after items) [
        | none ↦ page_refused unknown_cursor
        | some rest ↦ cut_page limit rest
      ]

  unfoldable pub paginate : (Text → Option ℕ) → Text → Text → List A → Paged A
  paginate atoi limit after items = elim (page_limit atoi limit) [
    | inl e ↦ page_refused e
    | inr n ↦ after_cursor n (trim_space after) items
  ]
