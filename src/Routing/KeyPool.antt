-- ===== src/Routing/KeyPool.antt =====
-- gateway/internal/routing/dispatch.go: which key of a provider's pool a request starts from
-- (`keyOrder`), and the keys parked by a Retry-After (`coolKey`, `readyKeys`). A method that the
-- code runs under a lock is one function; a cursor is a uint64 and wraps.
pub mod Order
pub mod Cooldown
use cogni_gate.Prelude.{
  ℕ, zero, suc, ◌+◌, ◌%◌, ◌^◌, Bool, true, false, ◌||◌, Option, none, some, List, [], ◌∷◌, ltb,
  if◌then◌else◌, length, get_elem?, Text, text_dec, text_eq, lookup, insert, delete,
}
use cogni_gate.Store.{Provider, key_strategy_failover}

-- `poolKey`: a provider's id, and one of its keys.
abbrev pub PoolKey : Type 0
PoolKey = Text × Text

unfoldable pub pool_key_dec : Discrete PoolKey
unfolding text_dec
pool_key_dec = hlevel text_dec

pub record Pools : Type 0 where
  pub cursors : List (Text × ℕ)
  pub cooldowns : List (PoolKey × ℕ)

abbrev pub uint64_mod : ℕ
uint64_mod = 2 ^ 64

unfoldable pub cursor : Pools → Text → ℕ
cursor d id = elim (lookup text_dec id d.cursors) [ none ↦ 0 | some n ↦ n ]

-- `p.Keys[i]`; the indices below are in range.
unfoldable pub key_at : List Text → ℕ → Text
key_at keys i = elim (get_elem? keys i) [ none ↦ [] | some k ↦ k ]

-- The loop from `i`, with `left` rounds to go.
unfoldable pub order_from : List Text → ℕ → ℕ → ℕ → List Text
unfolding key_at
order_from keys offset i zero = []
order_from keys offset i (suc left) =
    key_at keys ((offset + i) % length keys) ∷ order_from keys offset (i + 1) left

unfoldable pub key_order : Pools → Provider → Pools × List Text
unfolding cursor
key_order d p =
    let n = length p.keys in
    let start = cursor d p.id in
    if ltb n 2 || text_eq p.key_strategy key_strategy_failover then (d, p.keys) else (
      record d { cursors = insert text_dec p.id ((start + 1) % uint64_mod) d.cursors },
      order_from p.keys (start % n) 0 n,
    )

unfoldable pub cool_key : Pools → Text → Text → ℕ → Pools
cool_key d provider_id key until =
    let parked = record d {
      cooldowns = insert pool_key_dec (provider_id, key) until d.cooldowns;
    } in
    elim (lookup pool_key_dec (provider_id, key) d.cooldowns) [
      | none ↦ parked
      | some cur ↦ if ltb until cur then d else parked
    ]

-- The loop of `readyKeys`: what is left of the cooldowns, and the keys that are ready.
unfoldable pub ready_from :
    List (PoolKey × ℕ) → Text → ℕ → List Text → List (PoolKey × ℕ) × List Text
ready_from cooldowns provider_id now [] = (cooldowns, [])
ready_from cooldowns provider_id now (key ∷ order) =
    elim (lookup pool_key_dec (provider_id, key) cooldowns) [
      | none ↦
          let (cooldowns', ready) = ready_from cooldowns provider_id now order in
          (cooldowns', key ∷ ready)
      | some until ↦
          if ltb now until
          then ready_from cooldowns provider_id now order
          else (let (cooldowns', ready) =
                ready_from (delete pool_key_dec (provider_id, key) cooldowns) provider_id now
                  order in
              (cooldowns', key ∷ ready))
    ]

unfoldable pub or_all : List Text → List Text → List Text
or_all order [] = order
or_all order (key ∷ ready) = key ∷ ready

unfoldable pub ready_keys : Pools → Text → ℕ → List Text → Pools × List Text
unfolding ready_from or_all
ready_keys d provider_id now order =
    let (cooldowns, ready) = ready_from d.cooldowns provider_id now order in
    elim d.cooldowns [
      | [] ↦ (d, order)
      | _ ∷ _ ↦ (record d { cooldowns = cooldowns }, or_all order ready)
    ]
