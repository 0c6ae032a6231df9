-- ===== src/Cache/Operations.antt =====
-- What get, put and flush do to the agreement of the indexes and to the byte budget.
use cogni_gate.Prelude.{
  ℕ, ◌+◌, ◌≡◌, refl, inl, inr, true, false, none, some, List, [], ◌∷◌, arith, ltb, length, Text,
  text_dec, lookup, Option-cases, Bool-cases,
}
use cogni_gate.Cache.{Cache, Item, unlink, back, remove_element, get, replaced, new_cache}
use cogni_gate.Cache.Indexes.{
  linked, OnceEach, total, held, Agrees, linked_key, linked-unlink, unlink-OnceEach, total-unlink,
  owner_is, has_key, remove_element-Agrees,
}

pub empty-Agrees : (m e : ℕ) → Agrees (new_cache m e)
unfolding new_cache linked held owner_is total lookup has_key
empty-Agrees m e = record { once = tt; indexed = λ k. refl; owned = λ t k. refl; counted = refl }

-- Moving an element to the front keeps what the list holds.
front_linked :
    (it : Item) (order : List Item) (k : Text)
    → OnceEach order
    → linked it.key order ≡ some it
    → linked k (it ∷ unlink it.key order) ≡ linked k order
unfolding linked
front_linked it order k o h = ground (arith, h, linked-unlink it.key k order o)

front-OnceEach :
    (it : Item) (order : List Item)
    → OnceEach order
    → linked it.key order ≡ some it
    → OnceEach (it ∷ unlink it.key order)
front-OnceEach it order o h =
    (ground (arith, linked-unlink it.key it.key order o), unlink-OnceEach it.key order o)

touch-Agrees :
    (c : Cache) (it : Item)
    → Agrees c
    → linked it.key c.order ≡ some it
    → Agrees (record c { order = it ∷ unlink it.key c.order })
unfolding total
touch-Agrees c it a h = record {
  once = front-OnceEach it c.order a.once h;
  indexed = λ k. ground (arith, front_linked it c.order k a.once h, a.indexed k);
  owned = λ t k. ground (arith, front_linked it c.order k a.once h, a.owned t k);
  counted = ground (arith, total-unlink it.key c.order it h, a.counted);
}

pub found :
    (c : Cache) (k : Text) (it : Item)
    → Agrees c
    → lookup text_dec k c.items ≡ some it
    → linked it.key c.order ≡ some it
found c k it a h = ground (arith, h, a.indexed k, linked_key k c.order it)

pub get-none :
    (c : Cache) (k : Text) (now : ℕ) → lookup text_dec k c.items ≡ none → (get c k now).0 ≡ c
unfolding get
get-none c k now h = rw (h, get)

pub get-live :
    (c : Cache) (k : Text) (now : ℕ) (it : Item)
    → lookup text_dec k c.items ≡ some it
    → ltb now it.expires ≡ true
    → (get c k now).0 ≡ record c { order = it ∷ unlink it.key c.order }
unfolding get
get-live c k now it h l = rw (h, l, get)

pub get-expired :
    (c : Cache) (k : Text) (now : ℕ) (it : Item)
    → lookup text_dec k c.items ≡ some it
    → ltb now it.expires ≡ false
    → (get c k now).0 ≡ remove_element c it
unfolding get
get-expired c k now it h l = rw (h, l, get)

-- For a cache whose indexes and byte count agree, they agree after a get.
pub get-Agrees : (c : Cache) (k : Text) (now : ℕ) → Agrees c → Agrees (get c k now).0
get-Agrees c k now a = elim (Option-cases (lookup text_dec k c.items)) [
  | inl h ↦ rw (get-none c k now h) a
  | inr (it, h) ↦ elim (Bool-cases (ltb now it.expires)) [
    | inl l ↦ rw (get-live c k now it h l) (touch-Agrees c it a (found c k it a h))
    | inr l ↦ rw (get-expired c k now it h l) (remove_element-Agrees c it a (found c k it a h))
  ]
]

pub replaced-none : (c : Cache) (k : Text) → lookup text_dec k c.items ≡ none → replaced c k ≡ c
unfolding replaced
replaced-none c k h = rw (h, replaced)

pub replaced-some :
    (c : Cache) (k : Text) (it : Item)
    → lookup text_dec k c.items ≡ some it
    → replaced c k ≡ remove_element c it
unfolding replaced
replaced-some c k it h = rw (h, replaced)

pub replaced-Agrees : (c : Cache) (k : Text) → Agrees c → Agrees (replaced c k)
replaced-Agrees c k a = elim (Option-cases (lookup text_dec k c.items)) [
  | inl h ↦ rw (replaced-none c k h) a
  | inr (it, h) ↦ rw (replaced-some c k it h) (remove_element-Agrees c it a (found c k it a h))
]

pub replaced-linked : (c : Cache) (k : Text) → Agrees c → linked k (replaced c k).order ≡ none
unfolding remove_element
replaced-linked c k a = elim (Option-cases (lookup text_dec k c.items)) [
  | inl h ↦ ground (arith, h, replaced-none c k h, a.indexed k)
  | inr (it, h) ↦ ground (
    arith,
    h,
    replaced-some c k it h,
    a.indexed k,
    linked_key k c.order it,
    linked-unlink it.key k c.order a.once,
  )
]

pub back-linked :
    (order : List Item) (it : Item)
    → OnceEach order
    → back order ≡ some it
    → linked it.key order ≡ some it
unfolding back linked
back-linked [] it o h = ground arith
back-linked (x ∷ []) it o h = ground arith
back-linked (x ∷ y ∷ order) it o h =
    ground (arith, back-linked (y ∷ order) it o.1, linked_key x.key (y ∷ order))

pub length-unlink :
    (k : Text) (order : List Item) (it : Item)
    → linked k order ≡ some it
    → length (unlink k order) + 1 ≡ length order
unfolding linked unlink
length-unlink k [] it h = ground arith
length-unlink k (x ∷ order) it h = ground (arith, length-unlink k order it)
