-- ===== src/Routing/Resolve/Ranks.antt =====
-- The order of an alias's candidates, and the check of a chain.
use cogni_gate.Prelude.{
  member, ℕ, ◌+◌, ◌≤◌, ◌≡◌, refl, Bool, true, false, Option, none, some, List, [], ◌∷◌, arith,
  if◌then◌else◌, All, Text, text_eq, ltb,
}
use cogni_gate.Store.{Alias}
use cogni_gate.Catalog.{CatalogEntry}
use cogni_gate.Routing.Resolve.{
  put_sorted, sort_stable, before, rank_of, validate_chain, duplicate_from,
}

-- How often a text stands in a list.
unfoldable pub times : Text → List Text → ℕ
times m [] = 0
times m (x ∷ xs) = if text_eq x m then times m xs + 1 else times m xs

times-member : (m : Text) (seen : List Text) → member m seen ≡ ltb 0 (times m seen)
unfolding member times
times-member m [] = refl
times-member m (x ∷ xs) = ground (arith, times-member m xs)

duplicate_from-none :
    (seen chain : List Text) (m : Text)
    → duplicate_from seen chain ≡ none
    → times m seen ≤ 1
    → times m seen + times m chain ≤ 1
unfolding duplicate_from times
duplicate_from-none seen [] m h s = omega arith
duplicate_from-none seen (x ∷ chain) m h s =
    ground (arith, h, times-member x seen, duplicate_from-none (x ∷ seen) chain m)

duplicate_from-some :
    (seen chain : List Text) (m : Text)
    → duplicate_from seen chain ≡ some m
    → 2 ≤ times m seen + times m chain
unfolding duplicate_from times
duplicate_from-some seen [] m h = absurd (ground (arith, h))
duplicate_from-some seen (x ∷ chain) m h =
    ground (arith, h, times-member x seen, duplicate_from-some (x ∷ seen) chain m)

abbrev pub Judged : List Text → Option Text → Type 0
Judged chain none = (m : Text) → times m chain ≤ 1
Judged chain (some m) = 2 ≤ times m chain

judge_of : (chain : List Text) (r : Option Text) → duplicate_from [] chain ≡ r → Judged chain r
unfolding times
judge_of chain none h = λ m. ground (arith, duplicate_from-none [] chain m h)
judge_of chain (some m) h = ground (arith, duplicate_from-some [] chain m h)

-- A chain passes where it names no model more than once, and the model that a refusal names stands
-- in the chain at least twice.
pub validate_chain-Judged : (chain : List Text) → Judged chain (validate_chain chain)
unfolding validate_chain
validate_chain-Judged chain = judge_of chain (duplicate_from [] chain) refl

before-rank :
    (a : Alias) (x y : CatalogEntry)
    → (if before a x y then rank_of a x else rank_of a y)
      ≤ (if before a x y then rank_of a y else rank_of a x)
unfolding before
before-rank a x y = ground arith

abbrev NoSooner : Alias → ℕ → List CatalogEntry → Type 0
NoSooner a n xs = All (λ (e : CatalogEntry). n ≤ rank_of a e) xs

abbrev pub Ranked : Alias → List CatalogEntry → Type 0
Ranked a [] = Unit
Ranked a (x ∷ xs) = All (λ (e : CatalogEntry). rank_of a x ≤ rank_of a e) xs × Ranked a xs

weaken-NoSooner :
    (a : Alias) (m n : ℕ) (xs : List CatalogEntry) → m ≤ n → NoSooner a n xs → NoSooner a m xs
weaken-NoSooner a m n [] l h = tt
weaken-NoSooner a m n (x ∷ xs) l h = (ground (arith, h.0), weaken-NoSooner a m n xs l h.1)

put_sorted-NoSooner :
    (a : Alias) (n : ℕ) (x : CatalogEntry) (ys : List CatalogEntry)
    → n ≤ rank_of a x
    → NoSooner a n ys
    → NoSooner a n (put_sorted a x ys)
unfolding put_sorted
put_sorted-NoSooner a n x [] l h = (l, tt)
put_sorted-NoSooner a n x (y ∷ ys) l h =
    elim (before a y x) as (λ b. NoSooner a n (if b then y ∷ put_sorted a x ys else x ∷ y ∷ ys)) [
      | true ↦ (h.0, put_sorted-NoSooner a n x ys l h.1)
      | false ↦ (l, h)
    ]

put_sorted-Ranked :
    (a : Alias) (x : CatalogEntry) (ys : List CatalogEntry)
    → Ranked a ys
    → Ranked a (put_sorted a x ys)
unfolding put_sorted
put_sorted-Ranked a x [] h = (tt, tt)
put_sorted-Ranked a x (y ∷ ys) h = go (before a y x) refl (put_sorted-Ranked a x ys h.1)
  where
    go :
        (b : Bool)
        → before a y x ≡ b
        → Ranked a (put_sorted a x ys)
        → Ranked a (if b then y ∷ put_sorted a x ys else x ∷ y ∷ ys)
    go true e rest =
        let l : rank_of a y ≤ rank_of a x = ground (arith, e, before-rank a y x) in
        (put_sorted-NoSooner a (rank_of a y) x ys l h.0, rest)
    go false e rest =
        let l : rank_of a x ≤ rank_of a y = ground (arith, e, before-rank a y x) in
        ((l, weaken-NoSooner a (rank_of a x) (rank_of a y) ys l h.0), h)

sort_stable-Ranked : (a : Alias) (xs : List CatalogEntry) → Ranked a (sort_stable a xs)
unfolding sort_stable
sort_stable-Ranked a [] = tt
sort_stable-Ranked a (x ∷ xs) = put_sorted-Ranked a x (sort_stable a xs) (sort_stable-Ranked a xs)

-- How many entries pass a test.
unfoldable pub number : (CatalogEntry → Bool) → List CatalogEntry → ℕ
number p [] = 0
number p (x ∷ xs) = if p x then number p xs + 1 else number p xs

number-put_sorted :
    (p : CatalogEntry → Bool) (a : Alias) (x : CatalogEntry) (ys : List CatalogEntry)
    → number p (put_sorted a x ys) ≡ number p (x ∷ ys)
unfolding number put_sorted
number-put_sorted p a x [] = refl
number-put_sorted p a x (y ∷ ys) = ground (arith, number-put_sorted p a x ys)

number-sort_stable :
    (p : CatalogEntry → Bool) (a : Alias) (xs : List CatalogEntry)
    → number p (sort_stable a xs) ≡ number p xs
unfolding sort_stable number
number-sort_stable p a [] = refl
number-sort_stable p a (x ∷ xs) =
    ground (arith, number-sort_stable p a xs, number-put_sorted p a x (sort_stable a xs))

abbrev pub Sorted : Alias → List CatalogEntry → List CatalogEntry → Type 0
Sorted a xs ys = Ranked a ys × ((p : CatalogEntry → Bool) → number p ys ≡ number p xs)

-- The sort of an alias's matches keeps the entries, each as often as before, and puts those of a
-- preferred provider in front of those of a less preferred one and of the providers not listed.
pub sort_stable-Sorted : (a : Alias) (xs : List CatalogEntry) → Sorted a xs (sort_stable a xs)
sort_stable-Sorted a xs = (sort_stable-Ranked a xs, λ p. number-sort_stable p a xs)
