-- ===== src/Cache/Flush.antt =====
-- A flush takes out the items of its tenant and leaves the others.
use cogni_gate.Prelude.{
  ℕ, ◌+◌, ◌≡◌, ◌∙◌, refl, sym, inl, inr, Bool, true, none, some, List, [], ◌∷◌, arith,
  if◌then◌else◌, length, Text, text_dec, text_eq, lookup, Option-cases,
}
use cogni_gate.Cache.{Cache, Item, remove_element, flush_keys, flush}
use cogni_gate.Cache.Indexes.{
  linked, held, has_key, owner_is, Agrees, linked_key, linked-unlink, remove_element-Agrees,
}
use cogni_gate.Cache.Operations.{found, length-unlink}

flush_keys-skip :
    (k : Text) (v : Bool) (ks : List (Text × Bool)) (c : Cache) (n : ℕ)
    → lookup text_dec k c.items ≡ none
    → flush_keys ((k, v) ∷ ks) c n ≡ flush_keys ks c n
unfolding flush_keys
flush_keys-skip k v ks c n h = rw (h, flush_keys)

flush_keys-take :
    (k : Text) (v : Bool) (ks : List (Text × Bool)) (c : Cache) (n : ℕ) (it : Item)
    → lookup text_dec k c.items ≡ some it
    → flush_keys ((k, v) ∷ ks) c n ≡ flush_keys ks (remove_element c it) (n + 1)
unfolding flush_keys
flush_keys-take k v ks c n it h = rw (h, flush_keys)

has_key-cons :
    (k : Text) (v : Bool) (ks : List (Text × Bool)) (j : Text)
    → has_key (some ((k, v) ∷ ks)) j ≡ (if text_eq k j then true else has_key (some ks) j)
unfolding has_key lookup
has_key-cons k v ks j = ground arith

-- What a flush of a set of keys leaves.
record Left (ks : List (Text × Bool)) (c : Cache) (n : ℕ) (r : Cache × ℕ) : Type 0 where
  agrees : Agrees r.0
  linked_left :
      (j : Text) → linked j r.0.order ≡ (if has_key (some ks) j then none else linked j c.order)
  number : r.1 + length r.0.order ≡ n + length c.order

skip-Left :
    (k : Text) (v : Bool) (ks : List (Text × Bool)) (c : Cache) (n : ℕ) (r : Cache × ℕ)
    → linked k c.order ≡ none
    → Left ks c n r
    → Left ((k, v) ∷ ks) c n r
skip-Left k v ks c n r h l = record {
  agrees = l.agrees;
  linked_left = λ j. ground (arith, h, has_key-cons k v ks j, l.linked_left j);
  number = l.number;
}

take-Left :
    (k : Text) (v : Bool) (ks : List (Text × Bool)) (c : Cache) (n : ℕ) (it : Item) (r : Cache × ℕ)
    → Agrees c
    → it.key ≡ k
    → linked it.key c.order ≡ some it
    → Left ks (remove_element c it) (n + 1) r
    → Left ((k, v) ∷ ks) c n r
unfolding remove_element
take-Left k v ks c n it r a e h l = record {
  agrees = l.agrees;
  linked_left = λ j.
      ground
        (arith, e, has_key-cons k v ks j, l.linked_left j, linked-unlink it.key j c.order a.once);
  number = ground (arith, l.number, length-unlink it.key c.order it h);
}

flush_keys-Left :
    (ks : List (Text × Bool)) (c : Cache) (n : ℕ) → Agrees c → Left ks c n (flush_keys ks c n)
unfolding flush_keys has_key lookup
flush_keys-Left [] c n a = record { agrees = a; linked_left = λ j. refl; number = refl }
flush_keys-Left ((k, v) ∷ ks) c n a = elim (Option-cases (lookup text_dec k c.items)) [
  | inl h ↦
      rw (flush_keys-skip k v ks c n h) (
        skip-Left k v ks c n (flush_keys ks c n) (sym (a.indexed k) ∙ h) (flush_keys-Left ks c n a))
  | inr (it, h) ↦
      let here = found c k it a h in
      rw (flush_keys-take k v ks c n it h) (
        take-Left k v ks c n it (flush_keys ks (remove_element c it) (n + 1)) a
          (linked_key k c.order it (sym (a.indexed k) ∙ h)) here
          (flush_keys-Left ks (remove_element c it) (n + 1) (remove_element-Agrees c it a here)))
]

flush-none : (c : Cache) (t : Text) → lookup text_dec t c.by_tenant ≡ none → flush c t ≡ (c, 0)
unfolding flush
flush-none c t h = rw (h, flush)

flush-some :
    (c : Cache) (t : Text) (ks : List (Text × Bool))
    → lookup text_dec t c.by_tenant ≡ some ks
    → flush c t ≡ flush_keys ks c 0
unfolding flush
flush-some c t ks h = rw (h, flush)

abbrev pub Flushed : Cache → Text → Cache × ℕ → Type 0
Flushed c t r =
    Agrees r.0
    × ((j : Text)
        → linked j r.0.order ≡ (if owner_is t (linked j c.order) then none else linked j c.order))
    × (r.1 + length r.0.order ≡ length c.order)

-- For a cache whose indexes and byte count agree: they agree after a flush of a tenant, the list
-- then holds no item of the tenant and every other item it held, and the number returned is that of
-- the items taken out.
pub flush-Flushed : (c : Cache) (t : Text) → Agrees c → Flushed c t (flush c t)
unfolding held has_key
flush-Flushed c t a = elim (Option-cases (lookup text_dec t c.by_tenant)) [
  | inl h ↦ rw (flush-none c t h) (a, λ j. ground (arith, h, a.owned t j), ground arith)
  | inr (ks, h) ↦
      let l = flush_keys-Left ks c 0 a in
      rw (flush-some c t ks h)
        (l.agrees, λ j. ground (arith, h, a.owned t j, l.linked_left j), ground (arith, l.number))
]
