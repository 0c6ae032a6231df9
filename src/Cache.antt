-- ===== src/Cache.antt =====
-- gateway/internal/cache/cache.go: the response cache, a byte-bounded LRU with a TTL for each entry.
-- An element of the list is identified by its item's key, and `order` runs from the front. The
-- three indexes are kept apart as in the code: `items`, `order` and `by_tenant`. A set of keys is a
-- map to Bool. Calls on a nil cache answer without a state and are left out.
pub mod Indexes
pub mod Operations
pub mod Eviction
pub mod Promises
pub mod Flush
mod Tests
use cogni_gate.Prelude.{
  ℕ, zero, suc, ◌+◌, ◌-◌, ◌≡◌, Bool, true, false, ◌||◌, Option, none, some, List, [], ◌∷◌, ite, leb,
  ltb, if◌then◌else◌, length, Text, text_dec, lookup, insert, delete,
}

pub record Entry : Type 0 where
  pub body : Text
  pub provider : Text
  pub model : Text

pub record Item : Type 0 where
  pub key : Text
  pub tenant : Text
  pub entry : Entry
  pub expires : ℕ
  pub size : ℕ

pub record Cache : Type 0 where
  pub items : List (Text × Item)
  pub order : List Item
  pub by_tenant : List (Text × List (Text × Bool))
  pub bytes : ℕ
  pub max_bytes : ℕ
  pub max_entry_bytes : ℕ

unfoldable pub new_cache : ℕ → ℕ → Cache
new_cache max_bytes max_entry_bytes = record {
  items = [];
  order = [];
  by_tenant = [];
  bytes = 0;
  max_bytes = max_bytes;
  max_entry_bytes = max_entry_bytes;
}

-- list.Remove of the element with this key.
unfoldable pub unlink : Text → List Item → List Item
unlink k [] = []
unlink k (it ∷ order) = ite (text_dec it.key k) order (it ∷ unlink k order)

-- list.Back.
unfoldable pub back : List Item → Option Item
back [] = none
back (it ∷ []) = some it
back (it ∷ it' ∷ order) = back (it' ∷ order)

unfoldable pub drop_if_empty :
    Text → List (Text × Bool) → List (Text × List (Text × Bool)) → List (Text × List (Text × Bool))
drop_if_empty tenant [] m = delete text_dec tenant m
drop_if_empty tenant (k ∷ ks) m = insert text_dec tenant (k ∷ ks) m

-- The tenant's set without the key, and without the set when it is empty.
unfoldable pub forget :
    Text → Text → List (Text × List (Text × Bool)) → List (Text × List (Text × Bool))
unfolding drop_if_empty
forget tenant k m = elim (lookup text_dec tenant m) [
  | none ↦ m
  | some ks ↦ drop_if_empty tenant (delete text_dec k ks) m
]

unfoldable pub note :
    Text → Text → List (Text × List (Text × Bool)) → List (Text × List (Text × Bool))
note tenant k m = elim (lookup text_dec tenant m) [
  | none ↦ insert text_dec tenant ((k, true) ∷ []) m
  | some ks ↦ insert text_dec tenant (insert text_dec k true ks) m
]

unfoldable pub remove_element : Cache → Item → Cache
remove_element c it = record c {
  order = unlink it.key c.order;
  items = delete text_dec it.key c.items;
  by_tenant = forget it.tenant it.key c.by_tenant;
  bytes = c.bytes - it.size;
}

unfoldable pub get : Cache → Text → ℕ → Cache × Option Entry
get c k now = elim (lookup text_dec k c.items) [
  | none ↦ (c, none)
  | some it ↦
      if ltb now it.expires
      then (record c { order = it ∷ unlink it.key c.order }, some it.entry)
      else (remove_element c it, none)
]

-- `for c.bytes > c.maxBytes`, with the rounds left: each takes one element off the list.
unfoldable pub evict : ℕ → Cache → Cache
evict zero c = c
evict (suc rounds) c = elim (ltb c.max_bytes c.bytes) [
  | false ↦ c
  | true ↦ elim (back c.order) [ none ↦ c | some it ↦ evict rounds (remove_element c it) ]
]

unfoldable pub entry_size : Text → Entry → ℕ
entry_size k e = length e.body + length e.provider + length e.model + length k

-- An older element with the key is taken out.
unfoldable pub replaced : Cache → Text → Cache
replaced c k = elim (lookup text_dec k c.items) [ none ↦ c | some it ↦ remove_element c it ]

unfoldable pub add : Cache → Item → Cache
add c it = record c {
  items = insert text_dec it.key it c.items;
  order = it ∷ c.order;
  by_tenant = note it.tenant it.key c.by_tenant;
  bytes = c.bytes + it.size;
}

unfoldable pub put : Cache → Text → Text → Entry → ℕ → ℕ → Cache
put c tenant k e ttl now =
    let it : Item = record {
      key = k;
      tenant = tenant;
      entry = e;
      expires = now + ttl;
      size = entry_size k e;
    } in
    let c' = add (replaced c k) it in
    if leb ttl 0 || ltb c.max_entry_bytes (entry_size k e) then c else evict (length c'.order) c'

-- The loop of `Flush` over the tenant's keys: the elements removed are counted.
unfoldable pub flush_keys : List (Text × Bool) → Cache → ℕ → Cache × ℕ
flush_keys [] c n = (c, n)
flush_keys ((k, _) ∷ ks) c n = elim (lookup text_dec k c.items) [
  | none ↦ flush_keys ks c n
  | some it ↦ flush_keys ks (remove_element c it) (n + 1)
]

unfoldable pub flush : Cache → Text → Cache × ℕ
unfolding flush_keys
flush c tenant = elim (lookup text_dec tenant c.by_tenant) [
  | none ↦ (c, 0)
  | some ks ↦ flush_keys ks c 0
]

unfoldable pub stats : Cache → ℕ × ℕ
stats c = (length c.items, c.bytes)
