-- ===== src/Prelude/Bytes.antt =====
-- Go strings as lists of bytes: a string that the code compares, joins or splits.
use Prim.Native.Nat.{ℕ, ◌+◌}
use Prim.Native.Char.{code}
use Prim.Native.String.{String}
use mathlib.Core.Bool.{Bool, true, false, ◌&&◌, ◌||◌}
use mathlib.Core.List.{List, [], ◌∷◌, map}
use mathlib.Core.Option.{Option, none, some}
use native.Mathlib.Decide.{ℕ_discrete}
use cogni_gate.Prelude.Tests.{ltb, leb, ◌==◌, if◌then◌else◌}

abbrev pub Text : Type 0
Text = List ℕ

unfoldable pub text_dec : Discrete Text
unfolding ℕ_discrete
text_dec = hlevel ℕ_discrete

-- A literal's bytes; the literals below are ASCII.
abbrev pub codes : String → Text
codes String.[] = []
codes (String.◌∷◌ c s) = code c ∷ codes s

abbrev pub text_eq : Text → Text → Bool
text_eq s t = elim (text_dec s t) [ yes _ ↦ true | no _ ↦ false ]

-- A Go map to bool, or a scan of a list.
unfoldable pub member : Text → List Text → Bool
member t [] = false
member t (s ∷ ss) = text_eq s t || member t ss

-- Case folding and white space are those of ASCII.
unfoldable pub lower_byte : ℕ → ℕ
lower_byte c = if leb 65 c && leb c 90 then c + 32 else c

unfoldable pub to_lower : Text → Text
to_lower t = map lower_byte t

unfoldable pub equal_fold : Text → Text → Bool
unfolding to_lower
equal_fold s t = text_eq (to_lower s) (to_lower t)

unfoldable pub is_space : ℕ → Bool
is_space c = c == 32 || (leb 9 c && leb c 13)

unfoldable pub trim_left : Text → Text
unfolding is_space
trim_left [] = []
trim_left (c ∷ t) = let rest = trim_left t in if is_space c then rest else c ∷ t

-- Without the trailing bytes that pass a test.
unfoldable pub trim_end : (ℕ → Bool) → Text → Text
trim_end p [] = []
trim_end p (c ∷ t) = elim (trim_end p t) [ [] ↦ if p c then [] else c ∷ [] | d ∷ u ↦ c ∷ d ∷ u ]

unfoldable pub trim_space : Text → Text
unfolding is_space trim_left trim_end
trim_space t = trim_end is_space (trim_left t)

-- What follows a prefix.
unfoldable pub cut_prefix : Text → Text → Option Text
cut_prefix [] t = some t
cut_prefix (p ∷ ps) [] = none
cut_prefix (p ∷ ps) (c ∷ t) = let rest = cut_prefix ps t in if p == c then rest else none

unfoldable pub has_prefix : Text → Text → Bool
unfolding cut_prefix
has_prefix p t = elim (cut_prefix p t) [ none ↦ false | some _ ↦ true ]

unfoldable pub text_ltb : Text → Text → Bool
text_ltb s [] = false
text_ltb [] (d ∷ t) = true
text_ltb (c ∷ s) (d ∷ t) = if c == d then text_ltb s t else ltb c d
