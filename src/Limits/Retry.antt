-- ===== src/Limits/Retry.antt =====
-- The wait that take reports with a refusal is long enough.
use cogni_gate.Prelude.{
  ℕ, ◌+◌, ◌-◌, ◌*◌, ◌/◌, ◌≤◌, ◌<◌, ◌≡◌, refl, true, false, ◌||◌, none, some, List, arith, inl, inr,
  Bool-cases, Option-cases, Text, text_dec, lookup, lookup-insert_self,
}
use native.Mathlib.Nat.{add-mul, mul-le-mul_right, div-add-mod', mod-lt}
use cogni_gate.Limits.{second}
use cogni_gate.Limits.Rates.{
  Bucket, Rates, minute, bucket_on, minute_on, capped, refilled, refill, denied, spend, wait_of,
  token_wait, minute_full, longer, first_bucket, with_first, arrive, take,
}

-- After a wait longer than the division says the missing tokens are there.
refill_enough :
    (tokens rps gap : ℕ) → 0 < rps → (second - tokens) / rps < gap → second ≤ tokens + gap * rps
refill_enough tokens rps gap p h =
    let missing = second - tokens in
    let q = missing / rps in
    ground (
      arith,
      div-add-mod' missing rps,
      mod-lt missing p,
      mul-le-mul_right {m = q + 1} {n = gap} rps (omega arith),
      add-mul q 1 rps,
    )

bucket_on-positive : (r : Rates) → bucket_on r ≡ true → (0 < r.rps) × (1 ≤ r.burst)
unfolding bucket_on
bucket_on-positive r h = ground (arith, h)

refilled_enough :
    (r : Rates) (b : Bucket) (later : ℕ)
    → bucket_on r ≡ true
    → b.last ≤ later
    → token_wait r b < later - b.last
    → second ≤ refilled r b later
unfolding refilled capped token_wait
refilled_enough r b later on le h =
    ground (arith, bucket_on-positive r on, refill_enough b.tokens r.rps (later - b.last), on)

-- The bucket that a call of take for the tenant meets.
unfoldable pub met : List (Text × Bucket) → Text → Rates → ℕ → Bucket
met bs id r now = (arrive r now id bs).1

arrive-none :
    (bs : List (Text × Bucket)) (id : Text) (r : Rates) (now : ℕ)
    → lookup text_dec id bs ≡ none
    → arrive r now id bs ≡ (with_first r now id bs, first_bucket r now)
unfolding arrive
arrive-none bs id r now h = rw (h, arrive)

arrive-some :
    (bs : List (Text × Bucket)) (id : Text) (r : Rates) (now : ℕ) (b : Bucket)
    → lookup text_dec id bs ≡ some b
    → arrive r now id bs ≡ (bs, refill r b now)
unfolding arrive
arrive-some bs id r now b h = rw (h, arrive)

-- The clock has not gone back behind the tenant's window.
abbrev pub Reached : List (Text × Bucket) → Text → ℕ → Type 0
Reached bs id now = (b : Bucket) → lookup text_dec id bs ≡ some b → b.minute_start ≤ now

met_start :
    (bs : List (Text × Bucket)) (id : Text) (r : Rates) (now : ℕ)
    → Reached bs id now
    → (met bs id r now).minute_start ≤ now
unfolding met refill first_bucket
met_start bs id r now g = elim (Option-cases (lookup text_dec id bs)) [
  | inl h ↦ ground (arith, arrive-none bs id r now h)
  | inr (b, h) ↦ ground (arith, arrive-some bs id r now b h, g b h)
]

met_last :
    (bs : List (Text × Bucket)) (id : Text) (r : Rates) (now : ℕ) → (met bs id r now).last ≡ now
unfolding met refill first_bucket
met_last bs id r now = elim (Option-cases (lookup text_dec id bs)) [
  | inl h ↦ ground (arith, arrive-none bs id r now h)
  | inr (b, h) ↦ ground (arith, arrive-some bs id r now b h)
]

-- A refusal leaves the bucket as it was met.
refused :
    (bs : List (Text × Bucket)) (id : Text) (r : Rates) (now : ℕ)
    → (take bs id r now).2 ≡ false
    → (bucket_on r || minute_on r ≡ true)
      × (denied r (met bs id r now) ≡ true)
      × (lookup text_dec id (take bs id r now).0 ≡ some (met bs id r now))
      × ((take bs id r now).1 ≡ wait_of r (met bs id r now) now)
unfolding take spend met
refused bs id r now h =
    ground (arith, h, lookup-insert_self text_dec id (arrive r now id bs).1 (arrive r now id bs).0)

minute_free :
    (r : Rates) (b : Bucket) (later : ℕ)
    → b.last ≤ later
    → b.minute_start ≤ b.last
    → (minute_full r b ≡ true → minute - (b.last - b.minute_start) < later - b.last)
    → minute_full r (refill r b later) ≡ false
unfolding minute_full minute_on refill
minute_free r b later le s h = ground (arith, h)

take-admits :
    (bs : List (Text × Bucket)) (id : Text) (r : Rates) (b : Bucket) (later : ℕ)
    → lookup text_dec id bs ≡ some b
    → denied r (refill r b later) ≡ false
    → (take bs id r later).2 ≡ true
unfolding take spend
take-admits bs id r b later h d = ground (arith, arrive-some bs id r later b h, d)

refilled-refill : (r : Rates) (b : Bucket) (now : ℕ) → (refill r b now).tokens ≡ refilled r b now
unfolding refill
refilled-refill r b now = refl

not_denied :
    (r : Rates) (b : Bucket) (later : ℕ)
    → b.last ≤ later
    → b.minute_start ≤ b.last
    → wait_of r b b.last < later - b.last
    → denied r (refill r b later) ≡ false
unfolding denied wait_of longer
not_denied r b later le s h =
    let f = minute_free r b later le s (ground (arith, h)) in
    elim (Bool-cases (bucket_on r)) [
      | inl on ↦ ground (
        arith,
        f,
        on,
        refilled-refill r b later,
        refilled_enough r b later on le (ground (arith, h)),
      )
      | inr off ↦ ground (arith, f, off)
    ]

-- Where the clock is not behind the tenant's window, a refused request of the tenant is told a wait such that its
-- next request, under the same ceilings and later than the wait, is admitted.
pub take-retry :
    (bs : List (Text × Bucket)) (id : Text) (r : Rates) (now later : ℕ)
    → Reached bs id now
    → (take bs id r now).2 ≡ false
    → now + (take bs id r now).1 < later
    → (take (take bs id r now).0 id r later).2 ≡ true
take-retry bs id r now later g h l =
    let b = met bs id r now in
    let e = refused bs id r now h in
    let t = met_last bs id r now in
    let w : wait_of r b b.last < later - b.last = rw (t) (ground (arith, e.3)) in
    take-admits (take bs id r now).0 id r b later e.2
      (not_denied r b later (ground (arith, t)) (ground (arith, t, met_start bs id r now g)) w)
