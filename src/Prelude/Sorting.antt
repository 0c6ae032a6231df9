-- ===== src/Prelude/Sorting.antt =====
-- A stable sort by a Boolean order, as the outcome of Go's sorts.
use Prim.Native.Nat.{ℕ, ◌+◌}
use mathlib.Core.Path.{◌≡◌, ◌∙◌, refl}
use mathlib.Core.Bool.{Bool, true, false}
use mathlib.Core.List.{List, [], ◌∷◌}
use native.Mathlib.Omega.{arith}
use cogni_gate.Prelude.Tests.{if◌then◌else◌}
use cogni_gate.Prelude.Lists.{All}
use cogni_gate.Prelude.Assoc.{lookup, Distinct}
use mathlib.Core.Option.{none}

module _ {ℓ} {A : Type ℓ} where
  unfoldable pub insert_by : (A → A → Bool) → A → List A → List A
  insert_by before x [] = x ∷ []
  insert_by before x (y ∷ ys) =
      let rest = insert_by before x ys in if before y x then y ∷ rest else x ∷ y ∷ ys

  unfoldable pub sort_by : (A → A → Bool) → List A → List A
  unfolding insert_by
  sort_by before [] = []
  sort_by before (x ∷ xs) = insert_by before x (sort_by before xs)

  unfoldable pub number : (A → Bool) → List A → ℕ
  number p [] = 0
  number p (x ∷ xs) = if p x then number p xs + 1 else number p xs

  pub number-insert_by :
      (p : A → Bool) (before : A → A → Bool) (x : A) (ys : List A)
      → number p (insert_by before x ys) ≡ number p (x ∷ ys)
  unfolding insert_by number
  number-insert_by p before x [] = refl
  number-insert_by p before x (y ∷ ys) = ground (arith, number-insert_by p before x ys)

  -- A sort keeps the elements, each as often as before.
  pub number-sort_by :
      (p : A → Bool) (before : A → A → Bool) (xs : List A)
      → number p (sort_by before xs) ≡ number p xs
  unfolding sort_by number
  number-sort_by p before [] = refl
  number-sort_by p before (x ∷ xs) =
      ground (arith, number-sort_by p before xs, number-insert_by p before x (sort_by before xs))

  -- Each element stands in the relation to all behind it.
  abbrev pub Ordered {κ} : (A → A → Type κ) → List A → Type κ
  Ordered R [] = Unit
  Ordered R (x ∷ xs) = All (R x) xs × Ordered R xs

  -- An order that a Boolean test decides one way or the other.
  pub record Decides {κ} (before : A → A → Bool) (R : A → A → Type κ) : Type (ℓ ⊔ κ) where
    pub first : (x y : A) → before x y ≡ true → R x y
    pub second : (x y : A) → before x y ≡ false → R y x
    pub trans : (x y z : A) → R x y → R y z → R x z

  All-trans {κ} :
      (before : A → A → Bool) (R : A → A → Type κ)
      → Decides before R
      → (x y : A) (zs : List A) → R x y
      → All (R y) zs
      → All (R x) zs
  All-trans before R d x y [] r h = tt
  All-trans before R d x y (z ∷ zs) r h = (d.trans x y z r h.0, All-trans before R d x y zs r h.1)

  All-insert_by {κ} :
      (before : A → A → Bool) (P : A → Type κ) (x : A) (ys : List A)
      → P x
      → All P ys
      → All P (insert_by before x ys)
  unfolding insert_by
  All-insert_by before P x [] p h = (p, tt)
  All-insert_by before P x (y ∷ ys) p h = go (before y x) (All-insert_by before P x ys p h.1)
    where
      go :
          (b : Bool)
          → All P (insert_by before x ys)
          → All P (if b then y ∷ insert_by before x ys else x ∷ y ∷ ys)
      go true rest = (h.0, rest)
      go false rest = (p, h)

  Ordered-insert_by {κ} :
      (before : A → A → Bool) (R : A → A → Type κ)
      → Decides before R
      → (x : A) (ys : List A) → Ordered R ys
      → Ordered R (insert_by before x ys)
  unfolding insert_by
  Ordered-insert_by before R d x [] h = (tt, tt)
  Ordered-insert_by before R d x (y ∷ ys) h =
      go (before y x) refl (Ordered-insert_by before R d x ys h.1)
    where
      go :
          (b : Bool)
          → before y x ≡ b
          → Ordered R (insert_by before x ys)
          → Ordered R (if b then y ∷ insert_by before x ys else x ∷ y ∷ ys)
      go true e rest = (All-insert_by before (R y) x ys (d.first y x e) h.0, rest)
      go false e rest = ((d.second y x e, All-trans before R d x y ys (d.second y x e) h.0), h)

  pub sort_by-Ordered {κ} :
      (before : A → A → Bool) (R : A → A → Type κ)
      → Decides before R
      → (xs : List A) → Ordered R (sort_by before xs)
  unfolding sort_by
  sort_by-Ordered before R d [] = tt
  sort_by-Ordered before R d (x ∷ xs) =
      Ordered-insert_by before R d x (sort_by before xs) (sort_by-Ordered before R d xs)

-- A sorted map is the same map.
module _ {ℓ} {K V : Type ℓ} (dec : Discrete K) where
  lookup-insert_by :
      (before : K × V → K × V → Bool) (k j : K) (v : V) (m : List (K × V))
      → lookup dec k m ≡ none
      → lookup dec j (insert_by before (k, v) m) ≡ lookup dec j ((k, v) ∷ m)
  unfolding insert_by lookup
  lookup-insert_by before k j v [] h = refl
  lookup-insert_by before k j v ((i, w) ∷ m) h = ground (arith, h, lookup-insert_by before k j v m)

  pub lookup-sort_by :
      (before : K × V → K × V → Bool) (j : K) (m : List (K × V))
      → Distinct dec m
      → lookup dec j (sort_by before m) ≡ lookup dec j m
  unfolding sort_by lookup
  lookup-sort_by before j [] d = refl
  lookup-sort_by before j ((k, v) ∷ m) d = ground (
    arith,
    d.0,
    lookup-sort_by before j m d.1,
    lookup-sort_by before k m d.1,
    lookup-insert_by before k j v (sort_by before m),
  )

  sort_by-Distinct_insert :
      (before : K × V → K × V → Bool) (k : K) (v : V) (m : List (K × V))
      → lookup dec k m ≡ none
      → Distinct dec m
      → Distinct dec (insert_by before (k, v) m)
  unfolding insert_by lookup
  sort_by-Distinct_insert before k v [] h d = (refl, tt)
  sort_by-Distinct_insert before k v ((i, w) ∷ m) h d =
      ground (arith, h, d.0, sort_by-Distinct_insert before k v m, lookup-insert_by before k i v m)

  pub sort_by-Distinct :
      (before : K × V → K × V → Bool) (m : List (K × V))
      → Distinct dec m
      → Distinct dec (sort_by before m)
  unfolding sort_by
  sort_by-Distinct before [] d = tt
  sort_by-Distinct before ((k, v) ∷ m) d =
      sort_by-Distinct_insert before k v (sort_by before m) (lookup-sort_by before k m d.1 ∙ d.0)
        (sort_by-Distinct before m d.1)
