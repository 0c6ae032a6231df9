-- ===== src/Routing/KeyPool/Order.antt =====
-- The order of a pool's keys: a rotation of the pool.
use cogni_gate.Prelude.{
  ℕ, zero, suc, ◌+◌, ◌%◌, ◌≤◌, ◌<◌, ◌≡◌, refl, sym, ap, ◌∙◌, false, ◌||◌, ◌≢◌, List, [], ◌∷◌, ◌++◌,
  arith, ltb, if◌then◌else◌, length, take, drop, take-append-drop, Text, dec_lt, text_dec, text_eq,
  insert, ite, lookup-insert, Bool-cases, inl, inr,
}
use mathlib.Core.List.{Perm, perm_append_comm, append-nil}
use native.Mathlib.Nat.{mod-add-mod, mod-eq_of_lt}
use cogni_gate.Store.{Provider, key_strategy_failover}
use cogni_gate.Routing.KeyPool.{Pools, uint64_mod, cursor, key_at, order_from, key_order}

-- The pool, begun at `offset`.
abbrev pub rotated : ℕ → List Text → List Text
rotated offset keys = drop offset keys ++ take offset keys

drop_at :
    (keys : List Text) (i : ℕ) → i < length keys → drop i keys ≡ key_at keys i ∷ drop (suc i) keys
unfolding key_at
drop_at [] i h = absurd (omega arith)
drop_at (k ∷ keys) zero h = refl
drop_at (k ∷ keys) (suc i) h = drop_at keys i (omega arith)

drop_all : (keys : List Text) → drop (length keys) keys ≡ []
drop_all [] = refl
drop_all (k ∷ keys) = drop_all keys

mod_low : (p n : ℕ) → p < n → p % n ≡ p
mod_low p n h = grind arith

mod_high : (p n q : ℕ) → p ≡ n + q → q < n → p % n ≡ q
mod_high p n q e h = grind arith

-- Past the end, the walk goes over the front.
order_from-front :
    (keys : List Text) (offset i left q : ℕ)
    → offset + i ≡ length keys + q
    → q + left ≤ length keys
    → order_from keys offset i left ≡ take left (drop q keys)
unfolding order_from
order_from-front keys offset i zero q e h = refl
order_from-front keys offset i (suc left) q e h =
    rw (mod_high (offset + i) (length keys) q e (omega arith), drop_at keys q (omega arith))
      (ap (◌∷◌ (key_at keys q))
        (order_from-front keys offset (i + 1) left (suc q) (omega arith) (omega arith)))

order_from-rotated :
    (keys : List Text) (offset i left r : ℕ)
    → offset + i ≤ length keys
    → offset + i + left ≡ length keys + r
    → r ≤ length keys
    → order_from keys offset i left ≡ drop (offset + i) keys ++ take r keys
unfolding order_from
order_from-rotated keys offset i zero r h e l =
    let at_end : offset + i ≡ length keys = omega arith in
    let none_left : r ≡ 0 = omega arith in rw (at_end, none_left, drop_all keys)
order_from-rotated keys offset i (suc left) r h e l = elim (dec_lt (offset + i) (length keys)) [
  | yes inside ↦
      let next : offset + (i + 1) ≡ suc (offset + i) = omega arith in
      let rest = order_from-rotated keys offset (i + 1) left r (omega arith) (omega arith) l in
      rw (mod_low (offset + i) (length keys) inside, drop_at keys (offset + i) inside)
        (ap (◌∷◌ (key_at keys (offset + i))) (rw next at rest))
  | no past ↦
      let at_end : offset + i ≡ length keys = omega arith in
      let all_left : r ≡ suc left = omega arith in
      order_from-front keys offset i (suc left) 0 (omega arith) (omega arith)
      ∙ rw (at_end, all_left, drop_all keys)
]

-- Where the next request of a provider starts.
unfoldable pub start_of : Pools → Provider → ℕ
start_of d p =
    if ltb (length p.keys) 2 || text_eq p.key_strategy key_strategy_failover
    then 0
    else cursor d p.id % length p.keys

take_zero : (keys : List Text) → rotated 0 keys ≡ keys
take_zero keys = append-nil keys

mod_bound : (a n : ℕ) → 0 < n → a % n < n
mod_bound a n h = grind arith

whole_walk :
    (keys : List Text) (offset : ℕ)
    → offset < length keys
    → order_from keys offset 0 (length keys) ≡ rotated offset keys
whole_walk keys offset h =
    let start : offset + 0 ≡ offset = omega arith in
    let walk =
      order_from-rotated keys offset 0 (length keys) offset (omega arith) (omega arith)
        (omega arith) in
    rw start at walk

abbrev TakesTurns : Provider → Type 0
TakesTurns p = (ltb (length p.keys) 2 || text_eq p.key_strategy key_strategy_failover) ≡ false

-- Every request gets the whole pool, begun at the provider's start: the first key under failover,
-- the cursor's under round robin.
pub key_order-rotated :
    (d : Pools) (p : Provider) → (key_order d p).1 ≡ rotated (start_of d p) p.keys
unfolding key_order start_of
key_order-rotated d p =
    elim (Bool-cases (ltb (length p.keys) 2 || text_eq p.key_strategy key_strategy_failover)) [
      | inl fixed ↦ ground (arith, take_zero p.keys)
      | inr turns ↦
          let several : 0 < length p.keys = ground arith in
          let inside = mod_bound (cursor d p.id) (length p.keys) several in
          ground (arith, whole_walk p.keys (cursor d p.id % length p.keys) inside)
    ]

-- So no key is left out of a request, and none is tried twice.
pub key_order-perm : (d : Pools) (p : Provider) → Perm (key_order d p).1 p.keys
key_order-perm d p =
    let start = start_of d p in
    rw (key_order-rotated d p) (
      rw (take-append-drop start p.keys) at
        (perm_append_comm (drop start p.keys) (take start p.keys)))

mod_next : (c n : ℕ) → 0 < n → (c + 1) % n ≡ (c % n + 1) % n
mod_next c n h = sym (mod-add-mod c n 1)

cursor-insert :
    (d : Pools) (id j : Text) (n : ℕ)
    → cursor (record d { cursors = insert text_dec id n d.cursors }) j
      ≡ ite (text_dec id j) n (cursor d j)
unfolding cursor
cursor-insert d id j n = ground (arith, lookup-insert text_dec id j n d.cursors)

cursor-key_order :
    (d : Pools) (p : Provider) (j : Text)
    → 2 ≤ length p.keys
    → text_eq p.key_strategy key_strategy_failover ≡ false
    → cursor (key_order d p).0 j
      ≡ ite (text_dec p.id j) ((cursor d p.id + 1) % uint64_mod) (cursor d j)
unfolding key_order
cursor-key_order d p j several turns =
    ground (arith, cursor-insert d p.id j ((cursor d p.id + 1) % uint64_mod))

-- Under round robin the next request of the provider starts one key further, and the start of a
-- provider with another id stays where it is.
pub key_order-advances :
    (d : Pools) (p : Provider)
    → 2 ≤ length p.keys
    → text_eq p.key_strategy key_strategy_failover ≡ false
    → suc (cursor d p.id) < uint64_mod
    → (start_of (key_order d p).0 p ≡ (start_of d p + 1) % length p.keys)
      × ((q : Provider) → p.id ≢ q.id → start_of (key_order d p).0 q ≡ start_of d q)
unfolding start_of
key_order-advances d p several turns room =
    let step : (cursor d p.id + 1) % uint64_mod ≡ cursor d p.id + 1 = mod-eq_of_lt (omega arith) in
    (
      ground (
        arith,
        cursor-key_order d p p.id several turns,
        step,
        mod_next (cursor d p.id) (length p.keys),
      ),
      λ q other. ground (arith, cursor-key_order d p q.id several turns),
    )
