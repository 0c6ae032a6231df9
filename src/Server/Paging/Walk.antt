-- ===== src/Server/Paging/Walk.antt =====
-- A caller that follows the cursors of gateway/internal/server/page.go.
use cogni_gate.Prelude.{
  ℕ, zero, suc, ◌≡◌, ◌≢◌, ◌≤◌, ◌<◌, ◌∙◌, ltb, List, [], ◌∷◌, ◌++◌, Bool, true, false, Option, some,
  Text, text_dec, if◌then◌else◌, length, take, drop, trim_space, trim_left, trim_end, refl, sym, ap,
  arith, All, inl, inr, take-append-drop, subst, Bool-cases,
}
use mathlib.Core.List.{append_assoc}
use cogni_gate.Server.Paging.{
  page, page_refused, page_limit, behind, cut_page, after_cursor, paginate,
}

module _ {ℓ} {A : Type ℓ} (id_of : A → Text) where
  -- The id of the last item, empty for none.
  abbrev pub last_id : List A → Text
  last_id [] = []
  last_id (x ∷ []) = id_of x
  last_id (x ∷ y ∷ items) = last_id (y ∷ items)

  -- The items of the pages that a caller gets who asks again behind the last item as long as there are more.
  unfoldable pub walk : (Text → Option ℕ) → Text → List A → ℕ → Text → List A
  walk atoi limit items zero after = []
  walk atoi limit items (suc fuel) after = elim (paginate id_of atoi limit after items) [
    | page_refused e ↦ []
    | page data_ more ↦
        let rest = walk atoi limit items fuel (last_id data_) in
        if more then data_ ++ rest else data_
  ]

  -- Ids as the store draws them: not empty, without white space at an end, and no two alike.
  abbrev pub Cursors : List A → Type 0
  Cursors [] = Unit
  Cursors (x ∷ items) =
      (id_of x ≢ [])
      × (trim_space (id_of x) ≡ id_of x)
      × All (λ (y : A). id_of x ≢ id_of y) items
      × Cursors items

  behind-split :
      (pre : List A) (x : A) (rest : List A)
      → All (λ (p : A). id_of p ≢ id_of x) pre
      → behind id_of (id_of x) (pre ++ (x ∷ rest)) ≡ some rest
  unfolding behind
  behind-split [] x rest h = ground arith
  behind-split (p ∷ pre) x rest h = ground (arith, h.0, behind-split pre x rest h.1)

  -- What a cursor needs of the item that it names.
  abbrev Named : List A → A → Type 0
  Named pre y =
      All (λ (p : A). id_of p ≢ id_of y) pre × (id_of y ≢ []) × (trim_space (id_of y) ≡ id_of y)

  All-here {κ} :
      (P : A → Type κ) (pre : List A) (y : A) (rest : List A) → All P (pre ++ (y ∷ rest)) → P y
  All-here P [] y rest h = h.0
  All-here P (p ∷ pre) y rest h = All-here P pre y rest h.1

  Cursors-Named : (pre : List A) (y : A) (rest : List A) → Cursors (pre ++ (y ∷ rest)) → Named pre y
  Cursors-Named [] y rest h = (tt, h.0, h.1)
  Cursors-Named (p ∷ pre) y rest h =
      let named = Cursors-Named pre y rest h.3 in
      ((All-here (λ (z : A). id_of p ≢ id_of z) pre y rest h.2, named.0), named.1, named.2)

  take-last :
      (n : ℕ) (x : A) (xs : List A)
      → n < length xs
      → (pre : List A) × (y : A) × (take (suc n) (x ∷ xs) ≡ pre ++ (y ∷ []))
        × (x ∷ xs ≡ pre ++ (y ∷ drop (suc n) (x ∷ xs)))
  take-last n x [] h = absurd (omega (arith, h))
  take-last zero x (z ∷ xs) h = ([], x, refl, refl)
  take-last (suc n) x (z ∷ xs) h =
      let (pre, y, e, d) = take-last n z xs (omega (arith, h)) in
      (x ∷ pre, y, ap (λ l. x ∷ l) e, ap (λ l. x ∷ l) d)

  last_id-append : (pre : List A) (y : A) → last_id (pre ++ (y ∷ [])) ≡ id_of y
  last_id-append [] y = refl
  last_id-append (p ∷ []) y = refl
  last_id-append (p ∷ q ∷ pre) y = last_id-append (q ∷ pre) y

  take_all : (n : ℕ) (xs : List A) → length xs ≤ n → take n xs ≡ xs
  take_all zero [] h = refl
  take_all zero (x ∷ xs) h = absurd (omega (arith, h))
  take_all (suc n) [] h = refl
  take_all (suc n) (x ∷ xs) h = ap (λ l. x ∷ l) (take_all n xs (omega (arith, h)))

  drop_shorter : (n : ℕ) (x : A) (xs : List A) → length (drop (suc n) (x ∷ xs)) ≤ length xs
  drop_shorter zero x xs = omega arith
  drop_shorter (suc n) x [] = omega arith
  drop_shorter (suc n) x (z ∷ xs) = omega (arith, drop_shorter n z xs)

  module _ (atoi : Text → Option ℕ) (limit : Text) (n : ℕ)
      (ok : page_limit atoi limit ≡ inr (suc n)) where
    paginate_by :
        (after : Text) (items : List A)
        → paginate id_of atoi limit after items
          ≡ after_cursor id_of (suc n) (trim_space after) items
    unfolding paginate
    paginate_by after items = rw (ok, paginate) refl

    found_behind :
        (after : Text) (items rest : List A)
        → after ≢ []
        → behind id_of after items ≡ some rest
        → after_cursor id_of (suc n) after items ≡ cut_page id_of (suc n) rest
    unfolding after_cursor
    found_behind after items rest h e = ground (arith, h, e)

    at_cursor :
        (items pre : List A) (y : A) (rest : List A)
        → Cursors items
        → items ≡ pre ++ (y ∷ rest)
        → paginate id_of atoi limit (id_of y) items ≡ cut_page id_of (suc n) rest
    at_cursor items pre y rest c e =
        let named = Cursors-Named pre y rest (subst Cursors e c) in
        paginate_by (id_of y) items
        ∙ ap (λ after. after_cursor id_of (suc n) after items) named.2
        ∙ found_behind (id_of y) items rest named.1
            (ap (behind id_of (id_of y)) e ∙ behind-split pre y rest named.0)

    walk_page :
        (items : List A) (fuel : ℕ) (after : Text) (d : List A) (more : Bool)
        → paginate id_of atoi limit after items ≡ page d more
        → walk atoi limit items (suc fuel) after
          ≡ (if more then d ++ walk atoi limit items fuel (last_id d) else d)
    unfolding walk
    walk_page items fuel after d more e = rw (e, walk) refl

    walk_from :
        (items : List A) (fuel : ℕ) (after : Text) (pre rest : List A)
        → Cursors items
        → items ≡ pre ++ rest
        → paginate id_of atoi limit after items ≡ cut_page id_of (suc n) rest
        → length rest ≤ fuel
        → walk atoi limit items fuel after ≡ rest
    unfolding walk cut_page
    walk_from items zero after pre [] c e p h = refl
    walk_from items zero after pre (x ∷ rest) c e p h = absurd (omega (arith, h))
    walk_from items (suc fuel) after pre [] c e p h =
        walk_page items fuel after [] false (p ∙ ground arith) ∙ refl
    walk_from items (suc fuel) after pre (x ∷ rest) c e p h =
        elim (Bool-cases (ltb n (length rest))) [
          | inr last ↦
              walk_page items fuel after _ false (p ∙ ground (arith, last))
              ∙ take_all (suc n) (x ∷ rest) (ground (arith, last))
          | inl more ↦
              let (pre', y, t, r) = take-last n x rest (ground (arith, more)) in
              let next =
                walk_from items fuel (id_of y) (pre ++ take (suc n) (x ∷ rest))
                  (drop (suc n) (x ∷ rest)) c
                  (e
                    ∙ ap (λ l. pre ++ l) (sym (take-append-drop (suc n) (x ∷ rest)))
                    ∙ sym (append_assoc pre (take (suc n) (x ∷ rest)) (drop (suc n) (x ∷ rest))))
                  (at_cursor items (pre ++ pre') y (drop (suc n) (x ∷ rest)) c
                    (e ∙ ap (λ l. pre ++ l) r ∙ sym (append_assoc pre pre' _)))
                  (omega (arith, h, drop_shorter n x rest)) in
              walk_page items fuel after (take (suc n) (x ∷ rest)) true (p ∙ ground (arith, more))
              ∙ ap (λ l. take (suc n) (x ∷ rest) ++ l)
                  (ap (walk atoi limit items fuel) (ap last_id t ∙ last_id-append pre' y) ∙ next)
              ∙ take-append-drop (suc n) (x ∷ rest)
        ]

    -- A caller that starts without a cursor and asks again behind the last item of the page as long as there are
    -- more, with a limit that is accepted, gets every item once and in order, in at most one page for each item.
    pub walk_sees_all :
        (items : List A) (fuel : ℕ)
        → Cursors items
        → length items ≤ fuel
        → walk atoi limit items fuel [] ≡ items
    unfolding after_cursor trim_space trim_left trim_end cut_page text_dec
    walk_sees_all items fuel c h =
        walk_from items fuel [] [] items c refl (paginate_by [] items ∙ refl) h
