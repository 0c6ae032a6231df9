-- ===== src/Cache/Indexes.antt =====
-- The three indexes and the byte count agree.
use cogni_gate.Prelude.{
  ℕ, ◌+◌, ◌≡◌, refl, inl, inr, Bool, true, false, Option, none, some, List, [], ◌∷◌, arith, ite,
  if◌then◌else◌, Text, text_dec, text_eq, lookup, insert, delete, lookup-insert, lookup-delete,
  Option-cases,
}
use cogni_gate.Cache.{Cache, Item, unlink, forget, note, drop_if_empty, remove_element, add}

-- The list's element with a key.
unfoldable pub linked : Text → List Item → Option Item
linked k [] = none
linked k (it ∷ order) = ite (text_dec it.key k) (some it) (linked k order)

abbrev pub OnceEach : List Item → Type 0
OnceEach [] = Unit {0}
OnceEach (it ∷ order) = (linked it.key order ≡ none) × OnceEach order

unfoldable pub total : List Item → ℕ
total [] = 0
total (it ∷ order) = it.size + total order

-- Whether a tenant's set holds the key.
unfoldable pub has_key : Option (List (Text × Bool)) → Text → Bool
has_key none k = false
has_key (some ks) k = elim (lookup text_dec k ks) [ none ↦ false | some _ ↦ true ]

unfoldable pub held : List (Text × List (Text × Bool)) → Text → Text → Bool
held m tenant k = has_key (lookup text_dec tenant m) k

unfoldable pub owner_is : Text → Option Item → Bool
owner_is tenant none = false
owner_is tenant (some it) = text_eq it.tenant tenant

pub record Agrees (c : Cache) : Type 0 where
  pub once : OnceEach c.order
  pub indexed : (k : Text) → lookup text_dec k c.items ≡ linked k c.order
  pub owned : (t k : Text) → held c.by_tenant t k ≡ owner_is t (linked k c.order)
  pub counted : c.bytes ≡ total c.order

pub linked-unlink :
    (k j : Text) (order : List Item)
    → OnceEach order
    → linked j (unlink k order) ≡ ite (text_dec k j) none (linked j order)
unfolding linked unlink
linked-unlink k j [] o = ground arith
linked-unlink k j (it ∷ order) o = ground (arith, linked-unlink k j order o.1)

pub unlink-OnceEach : (k : Text) (order : List Item) → OnceEach order → OnceEach (unlink k order)
unfolding unlink
unlink-OnceEach k [] o = tt
unlink-OnceEach k (it ∷ order) o =
    ground (arith, unlink-OnceEach k order o.1, linked-unlink k it.key order o.1)

pub total-unlink :
    (k : Text) (order : List Item) (it : Item)
    → linked k order ≡ some it
    → total (unlink k order) + it.size ≡ total order
unfolding linked unlink total
total-unlink k [] it h = ground arith
total-unlink k (x ∷ order) it h = ground (arith, total-unlink k order it)

has_key-drop_if_empty :
    (t u j : Text) (ks : List (Text × Bool)) (m : List (Text × List (Text × Bool)))
    → has_key (lookup text_dec u (drop_if_empty t ks m)) j
      ≡ (if text_eq t u then has_key (some ks) j else has_key (lookup text_dec u m) j)
unfolding drop_if_empty has_key lookup
has_key-drop_if_empty t u j [] m = ground (arith, lookup-delete text_dec t u m)
has_key-drop_if_empty t u j (k ∷ ks) m = ground (arith, lookup-insert text_dec t u (k ∷ ks) m)

has_key-delete :
    (k j : Text) (ks : List (Text × Bool))
    → has_key (some (delete text_dec k ks)) j ≡ (if text_eq k j then false else has_key (some ks) j)
unfolding has_key
has_key-delete k j ks = ground (arith, lookup-delete text_dec k j ks)

forget-none :
    (t k : Text) (m : List (Text × List (Text × Bool)))
    → lookup text_dec t m ≡ none
    → forget t k m ≡ m
unfolding forget
forget-none t k m h = rw (h, forget)

forget-some :
    (t k : Text) (m : List (Text × List (Text × Bool))) (ks : List (Text × Bool))
    → lookup text_dec t m ≡ some ks
    → forget t k m ≡ drop_if_empty t (delete text_dec k ks) m
unfolding forget
forget-some t k m ks h = rw (h, forget)

note-none :
    (t k : Text) (m : List (Text × List (Text × Bool)))
    → lookup text_dec t m ≡ none
    → note t k m ≡ insert text_dec t ((k, true) ∷ []) m
unfolding note
note-none t k m h = rw (h, note)

note-some :
    (t k : Text) (m : List (Text × List (Text × Bool))) (ks : List (Text × Bool))
    → lookup text_dec t m ≡ some ks
    → note t k m ≡ insert text_dec t (insert text_dec k true ks) m
unfolding note
note-some t k m ks h = rw (h, note)

has_key-insert :
    (k j : Text) (ks : List (Text × Bool))
    → has_key (some (insert text_dec k true ks)) j
      ≡ (if text_eq k j then true else has_key (some ks) j)
unfolding has_key
has_key-insert k j ks = ground (arith, lookup-insert text_dec k j true ks)

has_key-one :
    (k j : Text)
    → has_key (some ((k, true) ∷ [])) j ≡ (if text_eq k j then true else has_key none j)
unfolding has_key lookup
has_key-one k j = ground arith

has_key-lookup-insert :
    (t u j : Text) (ks : List (Text × Bool)) (m : List (Text × List (Text × Bool)))
    → has_key (lookup text_dec u (insert text_dec t ks m)) j
      ≡ (if text_eq t u then has_key (some ks) j else has_key (lookup text_dec u m) j)
has_key-lookup-insert t u j ks m = ground (arith, lookup-insert text_dec t u ks m)

has_key-none : (k : Text) → has_key none k ≡ false
unfolding has_key
has_key-none k = refl

held-forget :
    (t u k j : Text) (m : List (Text × List (Text × Bool)))
    → held (forget t k m) u j
      ≡ (if text_eq t u then (if text_eq k j then false else held m u j) else held m u j)
unfolding held
held-forget t u k j m = elim (Option-cases (lookup text_dec t m)) [
  | inl h ↦ ground (arith, h, forget-none t k m h, has_key-none j)
  | inr (ks, h) ↦ ground (
    arith,
    h,
    forget-some t k m ks h,
    has_key-drop_if_empty t u j (delete text_dec k ks) m,
    has_key-delete k j ks,
  )
]

held-note :
    (t u k j : Text) (m : List (Text × List (Text × Bool)))
    → held (note t k m) u j
      ≡ (if text_eq t u then (if text_eq k j then true else held m u j) else held m u j)
unfolding held
held-note t u k j m = elim (Option-cases (lookup text_dec t m)) [
  | inl h ↦
      ground (
        arith,
        h,
        note-none t k m h,
        has_key-lookup-insert t u j ((k, true) ∷ []) m,
        has_key-one k j,
      )
  | inr (ks, h) ↦ ground (
    arith,
    h,
    note-some t k m ks h,
    has_key-lookup-insert t u j (insert text_dec k true ks) m,
    has_key-insert k j ks,
  )
]

pub linked_key : (k : Text) (order : List Item) (it : Item) → linked k order ≡ some it → it.key ≡ k
unfolding linked
linked_key k [] it h = ground arith
linked_key k (x ∷ order) it h = ground (arith, linked_key k order it)

remove_owned :
    (c : Cache) (it : Item)
    → Agrees c
    → linked it.key c.order ≡ some it
    → (t k : Text)
    → held (forget it.tenant it.key c.by_tenant) t k ≡ owner_is t (linked k (unlink it.key c.order))
unfolding owner_is
remove_owned c it a h t k = ground (
  arith,
  h,
  held-forget it.tenant t it.key k c.by_tenant,
  linked-unlink it.key k c.order a.once,
  a.owned t k,
)

pub remove_element-Agrees :
    (c : Cache) (it : Item)
    → Agrees c
    → linked it.key c.order ≡ some it
    → Agrees (remove_element c it)
unfolding remove_element
remove_element-Agrees c it a h = record {
  once = unlink-OnceEach it.key c.order a.once;
  indexed = λ k. ground (
    arith,
    lookup-delete text_dec it.key k c.items,
    linked-unlink it.key k c.order a.once,
    a.indexed k,
  );
  owned = remove_owned c it a h;
  counted = ground (arith, total-unlink it.key c.order it h, a.counted);
}

add_owned :
    (c : Cache) (it : Item)
    → Agrees c
    → linked it.key c.order ≡ none
    → (t k : Text)
    → held (note it.tenant it.key c.by_tenant) t k ≡ owner_is t (linked k (it ∷ c.order))
unfolding owner_is linked
add_owned c it a h t k = ground (arith, h, held-note it.tenant t it.key k c.by_tenant, a.owned t k)

pub add-Agrees :
    (c : Cache) (it : Item) → Agrees c → linked it.key c.order ≡ none → Agrees (add c it)
unfolding add linked total
add-Agrees c it a h = record {
  once = (h, a.once);
  indexed = λ k. ground (arith, lookup-insert text_dec it.key k it c.items, a.indexed k);
  owned = add_owned c it a h;
  counted = ground (arith, a.counted);
}
