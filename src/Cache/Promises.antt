-- ===== src/Cache/Promises.antt =====
-- What the response cache promises: the budget and the entry put last.
use cogni_gate.Prelude.{
  ℕ, ◌+◌, ◌≤◌, ◌<◌, ◌≡◌, ◌∙◌, refl, inl, inr, true, false, ◌||◌, some, List, [], ◌∷◌, arith, ltb,
  leb, lt→ltb, length, Text, text_dec, lookup, Option-cases, Bool-cases,
}
use cogni_gate.Cache.{
  Cache, Item, Entry, remove_element, get, evict, entry_size, replaced, add, put,
}
use cogni_gate.Cache.Indexes.{linked, Agrees, add-Agrees}
use cogni_gate.Cache.Operations.{replaced-Agrees, replaced-linked, replaced-none, replaced-some}
use cogni_gate.Cache.Eviction.{Within, evict-Within, evict-front, front}

-- The item that Put makes.
abbrev item_of : Text → Text → Entry → ℕ → ℕ → Item
item_of tenant k e ttl now = record {
  key = k;
  tenant = tenant;
  entry = e;
  expires = now + ttl;
  size = entry_size k e;
}

stored : Cache → Text → Text → Entry → ℕ → ℕ → Cache
stored c tenant k e ttl now = add (replaced c k) (item_of tenant k e ttl now)

put-kept :
    (c : Cache) (tenant k : Text) (e : Entry) (ttl now : ℕ)
    → (leb ttl 0 || ltb c.max_entry_bytes (entry_size k e)) ≡ false
    → put c tenant k e ttl now
      ≡ evict (length (stored c tenant k e ttl now).order) (stored c tenant k e ttl now)
unfolding put stored
put-kept c tenant k e ttl now h = rw (h, put)

put-refused :
    (c : Cache) (tenant k : Text) (e : Entry) (ttl now : ℕ)
    → (leb ttl 0 || ltb c.max_entry_bytes (entry_size k e)) ≡ true
    → put c tenant k e ttl now ≡ c
unfolding put
put-refused c tenant k e ttl now h = rw (h, put)

stored-Agrees :
    (c : Cache) (tenant k : Text) (e : Entry) (ttl now : ℕ)
    → Agrees c
    → Agrees (stored c tenant k e ttl now)
unfolding stored
stored-Agrees c tenant k e ttl now a =
    add-Agrees (replaced c k) (item_of tenant k e ttl now) (replaced-Agrees c k a)
      (replaced-linked c k a)

stored-max_bytes :
    (c : Cache) (tenant k : Text) (e : Entry) (ttl now : ℕ)
    → (stored c tenant k e ttl now).max_bytes ≡ c.max_bytes
unfolding stored add remove_element
stored-max_bytes c tenant k e ttl now = elim (Option-cases (lookup text_dec k c.items)) [
  | inl h ↦ ground (arith, replaced-none c k h)
  | inr (it, h) ↦ ground (arith, replaced-some c k it h)
]

Within-same : (c d x : Cache) → d.max_bytes ≡ c.max_bytes → Within d x → Within c x
Within-same c d x h w = (w.0, ground (arith, w.1), ground (arith, w.2))

-- For a cache whose indexes and byte count agree and whose bytes are within the budget, after a
-- put the indexes and the byte count agree and the bytes are within the same budget.
pub put-Within :
    (c : Cache) (tenant k : Text) (e : Entry) (ttl now : ℕ)
    → Agrees c
    → c.bytes ≤ c.max_bytes
    → Within c (put c tenant k e ttl now)
put-Within c tenant k e ttl now a b =
    elim (Bool-cases (leb ttl 0 || ltb c.max_entry_bytes (entry_size k e))) [
      | inl h ↦ rw (put-refused c tenant k e ttl now h) (a, b, refl)
      | inr h ↦
          let d = stored c tenant k e ttl now in
          rw (put-kept c tenant k e ttl now h) (
            Within-same c d (evict (length d.order) d) (stored-max_bytes c tenant k e ttl now) (
              evict-Within (length d.order) d (stored-Agrees c tenant k e ttl now a)
                (ground arith)))
    ]

stored-front :
    (c : Cache) (tenant k : Text) (e : Entry) (ttl now : ℕ)
    → front (stored c tenant k e ttl now).order ≡ some (item_of tenant k e ttl now)
unfolding stored add front
stored-front c tenant k e ttl now = refl

put-front :
    (c : Cache) (tenant k : Text) (e : Entry) (ttl now : ℕ)
    → Agrees c
    → (leb ttl 0 || ltb c.max_entry_bytes (entry_size k e)) ≡ false
    → entry_size k e ≤ c.max_bytes
    → front (put c tenant k e ttl now).order ≡ some (item_of tenant k e ttl now)
put-front c tenant k e ttl now a h s =
    let d = stored c tenant k e ttl now in
    rw (put-kept c tenant k e ttl now h) (
      evict-front (length d.order) d (item_of tenant k e ttl now)
        (stored-Agrees c tenant k e ttl now a) (stored-front c tenant k e ttl now)
        (ground (arith, stored-max_bytes c tenant k e ttl now)))

front-linked :
    (order : List Item) (it : Item) → front order ≡ some it → linked it.key order ≡ some it
unfolding front linked
front-linked [] it h = ground arith
front-linked (x ∷ order) it h = ground arith

kept : (ttl size max : ℕ) → 0 < ttl → size ≤ max → (leb ttl 0 || ltb max size) ≡ false
kept ttl size max p s = ground (arith, leb, ltb)

get-entry :
    (c : Cache) (k : Text) (now : ℕ) (it : Item)
    → lookup text_dec k c.items ≡ some it
    → ltb now it.expires ≡ true
    → (get c k now).1 ≡ some it.entry
unfolding get
get-entry c k now it h l = rw (h, l, get)

-- For a cache whose indexes and byte count agree and whose bytes are within the budget, an entry
-- put with a positive lifetime, within the entry limit and the budget, is what a get of its key
-- returns at any time before its lifetime ends.
pub get-put :
    (c : Cache) (tenant k : Text) (e : Entry) (ttl now later : ℕ)
    → Agrees c
    → c.bytes ≤ c.max_bytes
    → 0 < ttl
    → entry_size k e ≤ c.max_entry_bytes
    → entry_size k e ≤ c.max_bytes
    → later < now + ttl
    → (get (put c tenant k e ttl now) k later).1 ≡ some e
get-put c tenant k e ttl now later a b p s t l =
    let d = put c tenant k e ttl now in
    let it = item_of tenant k e ttl now in
    let w = put-Within c tenant k e ttl now a b in
    let f = put-front c tenant k e ttl now a (kept ttl (entry_size k e) c.max_entry_bytes p s) t in
    get-entry d k later it (w.0.indexed k ∙ front-linked d.order it f) (lt→ltb later (now + ttl) l)
