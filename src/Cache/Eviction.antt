-- ===== src/Cache/Eviction.antt =====
-- The loop of Put that takes elements off the back: it ends within the budget and keeps the newest.
use cogni_gate.Prelude.{
  ℕ, zero, suc, ◌≤◌, ◌≡◌, ◌≢◌, refl, inl, inr, true, false, Option, none, some, List, [], ◌∷◌,
  arith, ltb, length, Option-cases, Bool-cases,
}
use cogni_gate.Cache.{Cache, Item, unlink, back, remove_element, evict}
use cogni_gate.Cache.Indexes.{linked, OnceEach, total, Agrees, remove_element-Agrees}
use cogni_gate.Cache.Operations.{back-linked, length-unlink}

back-none : (order : List Item) → back order ≡ none → order ≡ []
unfolding back
back-none [] h = refl
back-none (x ∷ []) h = ground arith
back-none (x ∷ y ∷ order) h = ground (arith, back-none (y ∷ order) h)

pub evict-stop : (n : ℕ) (c : Cache) → ltb c.max_bytes c.bytes ≡ false → evict (suc n) c ≡ c
unfolding evict
evict-stop n c h = rw (h, evict)

pub evict-empty :
    (n : ℕ) (c : Cache) → ltb c.max_bytes c.bytes ≡ true → back c.order ≡ none → evict (suc n) c ≡ c
unfolding evict
evict-empty n c h b = rw (h, b, evict)

pub evict-next :
    (n : ℕ) (c : Cache) (it : Item)
    → ltb c.max_bytes c.bytes ≡ true
    → back c.order ≡ some it
    → evict (suc n) c ≡ evict n (remove_element c it)
unfolding evict
evict-next n c it h b = rw (h, b, evict)

no_bytes : (c : Cache) → Agrees c → c.order ≡ [] → c.bytes ≡ 0
unfolding total
no_bytes c a h = ground (arith, a.counted, h)

length-zero : (order : List Item) → length order ≤ 0 → order ≡ []
length-zero [] h = refl
length-zero (x ∷ order) h = ground arith

-- The budget holds and the indexes agree.
abbrev pub Within : Cache → Cache → Type 0
Within c d = Agrees d × (d.bytes ≤ c.max_bytes) × (d.max_bytes ≡ c.max_bytes)

Within-remove : (c : Cache) (it : Item) (d : Cache) → Within (remove_element c it) d → Within c d
unfolding remove_element
Within-remove c it d w = w

length-remove :
    (n : ℕ) (c : Cache) (it : Item)
    → length c.order ≤ suc n
    → linked it.key c.order ≡ some it
    → length (remove_element c it).order ≤ n
unfolding remove_element
length-remove n c it l h = ground (arith, length-unlink it.key c.order it h)

pub evict-Within : (n : ℕ) (c : Cache) → Agrees c → length c.order ≤ n → Within c (evict n c)
unfolding evict
evict-Within zero c a l = (a, ground (arith, no_bytes c a (length-zero c.order l)), refl)
evict-Within (suc n) c a l = elim (Bool-cases (ltb c.max_bytes c.bytes)) [
  | inr h ↦ rw (evict-stop n c h) (a, ground arith, refl)
  | inl h ↦ elim (Option-cases (back c.order)) [
    | inl b ↦ rw (evict-empty n c h b) (a, ground (arith, no_bytes c a (back-none c.order b)), refl)
    | inr (it, b) ↦
        let here = back-linked c.order it a.once b in
        rw (evict-next n c it h b) (
          Within-remove c it (evict n (remove_element c it)) (
            evict-Within n (remove_element c it) (remove_element-Agrees c it a here)
              (length-remove n c it l here)))
  ]
]

-- The first element stays when it fits the budget by itself.
unfoldable pub front : List Item → Option Item
front [] = none
front (it ∷ order) = some it

front-unlink-back :
    (order : List Item) (it b : Item)
    → OnceEach order
    → front order ≡ some it
    → back order ≡ some b
    → total order ≢ it.size
    → front (unlink b.key order) ≡ some it
unfolding front back unlink total
front-unlink-back [] it b o f e n = ground arith
front-unlink-back (x ∷ []) it b o f e n = ground arith
front-unlink-back (x ∷ y ∷ order) it b o f e n =
    ground (arith, o.0, back-linked (y ∷ order) b o.1 e)

pub evict-front :
    (n : ℕ) (c : Cache) (it : Item)
    → Agrees c
    → front c.order ≡ some it
    → it.size ≤ c.max_bytes
    → front (evict n c).order ≡ some it
unfolding evict remove_element
evict-front zero c it a f s = f
evict-front (suc n) c it a f s = elim (Bool-cases (ltb c.max_bytes c.bytes)) [
  | inr h ↦ rw (evict-stop n c h) f
  | inl h ↦ elim (Option-cases (back c.order)) [
    | inl b ↦ rw (evict-empty n c h b) f
    | inr (x, b) ↦
        let here = back-linked c.order x a.once b in
        rw (evict-next n c x h b) (
          evict-front n (remove_element c x) it (remove_element-Agrees c x a here)
            (front-unlink-back c.order it x a.once f b
              (λ q. absurd (ground (arith, a.counted, q, h))))
            s)
  ]
]
