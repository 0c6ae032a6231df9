-- ===== src/Routing/KeyPool/Cooldown.antt =====
-- Parked keys.
use cogni_gate.Prelude.{
  ℕ, ◌≡◌, refl, Bool, false, not, Option, none, some, List, [], ◌∷◌, arith, ltb, keep_if, Text,
  lookup, lookup-insert, lookup-delete, delete, ◌≢◌, inl, inr, Option-cases, Bool-cases, ap,
}
use Prim.Native.Nat.{max}
use mathlib.Core.Path.{fun_ext}
use cogni_gate.Routing.KeyPool.{
  Pools, PoolKey, pool_key_dec, cool_key, ready_from, ready_keys, or_all,
}

-- `key` may not be used yet.
unfoldable pub cooling : List (PoolKey × ℕ) → Text → ℕ → Text → Bool
cooling cooldowns provider_id now key = elim (lookup pool_key_dec (provider_id, key) cooldowns) [
  | none ↦ false
  | some until ↦ ltb now until
]

-- The longest window wins.
unfoldable pub longest : Option ℕ → ℕ → ℕ
longest none until = until
longest (some cur) until = max cur until

-- Parking a key gives it the longer of the old and the new window, and no other key changes.
pub lookup-cool_key :
    (d : Pools) (provider_id key : Text) (until : ℕ) (k : PoolKey)
    → (lookup pool_key_dec (provider_id, key) (cool_key d provider_id key until).cooldowns
        ≡ some (longest (lookup pool_key_dec (provider_id, key) d.cooldowns) until))
      × ((provider_id, key) ≢ k
          → lookup pool_key_dec k (cool_key d provider_id key until).cooldowns
            ≡ lookup pool_key_dec k d.cooldowns)
unfolding cool_key longest
lookup-cool_key d provider_id key until k = (
  ground
      (arith, lookup-insert pool_key_dec (provider_id, key) (provider_id, key) until d.cooldowns),
  λ other. ground (arith, lookup-insert pool_key_dec (provider_id, key) k until d.cooldowns),
)

cooling-delete :
    (c : List (PoolKey × ℕ)) (pid key j : Text) (now until : ℕ)
    → lookup pool_key_dec (pid, key) c ≡ some until
    → ltb now until ≡ false
    → cooling (delete pool_key_dec (pid, key) c) pid now j ≡ cooling c pid now j
unfolding cooling
cooling-delete c pid key j now until found over =
    ground (arith, lookup-delete pool_key_dec (pid, key) (pid, j) c)

module _ (pid : Text) (now : ℕ) where
  abbrev ready_of : List (PoolKey × ℕ) → List Text → List Text
  ready_of c = keep_if (λ key. not (cooling c pid now key))

  ready_from-keep :
      (c : List (PoolKey × ℕ)) (order : List Text)
      → (ready_from c pid now order).1 ≡ ready_of c order
  unfolding ready_from keep_if cooling
  ready_from-keep c [] = refl
  ready_from-keep c (key ∷ order) = elim (Option-cases (lookup pool_key_dec (pid, key) c)) [
    | inl free ↦ ground (arith, ready_from-keep c order)
    | inr (until, parked) ↦ elim (Bool-cases (ltb now until)) [
      | inl waits ↦ ground (arith, ready_from-keep c order)
      | inr over ↦
          let c' = delete pool_key_dec (pid, key) c in
          let same : ready_of c' order ≡ ready_of c order =
            ap (λ p. keep_if p order)
              (fun_ext (λ j. ap not (cooling-delete c pid key j now until parked over))) in
          ground (arith, ready_from-keep c' order, same)
    ]
  ]

or_all_self : (order : List Text) → or_all order order ≡ order
unfolding or_all
or_all_self [] = refl
or_all_self (key ∷ order) = refl

none_cooling :
    (pid : Text) (now : ℕ) (order : List Text)
    → keep_if (λ key. not (cooling [] pid now key)) order ≡ order
unfolding keep_if cooling lookup
none_cooling pid now [] = refl
none_cooling pid now (key ∷ order) = ap (◌∷◌ key) (none_cooling pid now order)

-- The keys to try are those not parked, in their order; where all are parked, all are tried.
pub ready_keys-keep :
    (d : Pools) (pid : Text) (now : ℕ) (order : List Text)
    → (ready_keys d pid now order).1
      ≡ or_all order (keep_if (λ key. not (cooling d.cooldowns pid now key)) order)
unfolding ready_keys
ready_keys-keep d pid now order = ground (
  arith,
  ready_from-keep pid now d.cooldowns order,
  none_cooling pid now order,
  or_all_self order,
)
