-- ===== src/Routing/BreakerKey.antt =====
-- gateway/internal/routing/breaker.go: `Key` and `SplitKey`, over bytes.
use cogni_gate.Prelude.{
  ℕ, zero, suc, ◌≡◌, ◌≢◌, refl, Option, none, some, List, [], ◌∷◌, ◌++◌, arith, ◌==◌, if◌then◌else◌,
  All, Text,
}

-- strings.Cut at a byte.
unfoldable pub cut : ℕ → Text → Option (Text × Text)
cut sep [] = none
cut sep (c ∷ cs) =
    if c == sep
    then some ([], cs)
    else (elim (cut sep cs) [ none ↦ none | some (before, after) ↦ some (c ∷ before, after) ])

abbrev pub slash : ℕ
slash = b'/'

-- strings.SplitN at slashes, for a positive count.
unfoldable pub split_n : ℕ → Text → List Text
unfolding cut
split_n zero s = []
split_n (suc zero) s = s ∷ []
split_n (suc (suc n)) s = elim (cut slash s) [
  | none ↦ s ∷ []
  | some (before, after) ↦ before ∷ split_n (suc n) after
]

unfoldable pub key : Text → Text → Text → Text
key tenant_id provider_name model = tenant_id ++ (slash ∷ (provider_name ++ (slash ∷ model)))

-- `parts` when there are three, and the whole key as the model when not.
of_parts : Text → List Text → Text × Text × Text
of_parts whole (tenant_id ∷ provider_name ∷ model ∷ []) = (tenant_id, provider_name, model)
of_parts whole _ = ([], [], whole)

unfoldable pub split_key : Text → Text × Text × Text
unfolding of_parts split_n
split_key key = of_parts key (split_n 3 key)

abbrev pub NoSlash : Text → Type 0
NoSlash = All (λ c. c ≢ slash)

cut-append : (s rest : Text) → NoSlash s → cut slash (s ++ (slash ∷ rest)) ≡ some (s, rest)
unfolding cut
cut-append [] rest h = refl
cut-append (c ∷ s) rest h = ground (arith, cut-append s rest h.1)

-- Splitting a key gives back its parts. Tenant and provider hold no slash; the model may.
pub split_key-key :
    (tenant_id provider_name model : Text)
    → NoSlash tenant_id
    → NoSlash provider_name
    → split_key (key tenant_id provider_name model) ≡ (tenant_id, provider_name, model)
unfolding split_key key
split_key-key t p m ht hp = ground (arith, cut-append t (p ++ (slash ∷ m)) ht, cut-append p m hp)
