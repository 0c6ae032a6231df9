-- ===== src/Limits/RateBound.antt =====
-- How many requests of a tenant the token bucket admits over time.
use cogni_gate.Prelude.{
  ℕ, suc, ◌+◌, ◌-◌, ◌*◌, ◌≤◌, ◌<◌, ◌≡◌, ◌≢◌, ◌⊎◌, ◌∙◌, subst, ap, Bool, true, none, ite, All,
  length, some, List, [], ◌∷◌, arith, if◌then◌else◌, Text, text_dec, lookup, insert,
  lookup-insert_self, lookup-insert_ne,
}
use native.Mathlib.Nat.{add-mul}
use cogni_gate.Limits.{second}
use cogni_gate.Limits.Rates.{
  Bucket, Rates, sweep_above, first_bucket, with_first, bucket_on, capped, refilled, refill, denied,
  charged, spend, arrive, take,
}

-- A request of the tenant that has this bucket.
unfoldable pub serve : Rates → Bucket → ℕ → Bucket × ℕ × Bool
serve r b now = spend r (refill r b now) now

-- A call of take, and how long after the one before it.
pub record TakeCall : Type 0 where
  pub tenant : Text
  pub rates : Rates
  pub gap : ℕ

-- How many of the calls from now on give the tenant a request.
unfoldable pub admitted : Text → List (Text × Bucket) → ℕ → List TakeCall → ℕ
admitted id bs now [] = 0
admitted id bs now (a ∷ calls) =
    let r = take bs a.tenant a.rates (now + a.gap) in
    let rest = admitted id r.0 (now + a.gap) calls in
    ite (text_dec a.tenant id) (if r.2 then rest + 1 else rest) rest

unfoldable pub elapsed : List TakeCall → ℕ
elapsed [] = 0
elapsed (a ∷ calls) = a.gap + elapsed calls

-- The calls of the tenant are at these rates.
abbrev pub AtRates : Text → Rates → List TakeCall → Type 0
AtRates id r = All (λ a. a.tenant ≡ id → a.rates ≡ r)

-- No call sweeps: none is of a tenant that has no entry while the limiter has as many as it keeps without a sweep.
abbrev pub Unswept : List (Text × Bucket) → ℕ → List TakeCall → Type 0
Unswept bs now [] = Unit
Unswept bs now (a ∷ calls) =
    ((lookup text_dec a.tenant bs ≢ none) ⊎ (length bs < sweep_above))
    × Unswept (take bs a.tenant a.rates (now + a.gap)).0 (now + a.gap) calls

refilled_le :
    (r : Rates) (b : Bucket) (d : ℕ)
    → bucket_on r ≡ true
    → refilled r b (b.last + d) ≤ b.tokens + d * r.rps
unfolding refilled capped
refilled_le r b d h = let e : b.last + d - b.last ≡ d = omega arith in rw (e) (ground (arith, h))

spend_tokens :
    (r : Rates) (b : Bucket) (now : ℕ)
    → bucket_on r ≡ true
    → (if (spend r b now).2 then second else 0) + (spend r b now).0.tokens ≤ b.tokens
unfolding spend denied charged
spend_tokens r b now h = ground (arith, h)

serve_tokens :
    (r : Rates) (b : Bucket) (d : ℕ)
    → bucket_on r ≡ true
    → (if (serve r b (b.last + d)).2 then second else 0) + (serve r b (b.last + d)).0.tokens
      ≤ b.tokens + d * r.rps
unfolding serve refill
serve_tokens r b d h =
    ground (arith, refilled_le r b d h, spend_tokens r (refill r b (b.last + d)) (b.last + d) h)

take-present :
    (bs : List (Text × Bucket)) (id : Text) (r : Rates) (now : ℕ) (b : Bucket)
    → bucket_on r ≡ true
    → lookup text_dec id bs ≡ some b
    → take bs id r now
      ≡ (insert text_dec id (serve r b now).0 bs, (serve r b now).1, (serve r b now).2)
unfolding take arrive serve
take-present bs id r now b on h = rw (on, h, take, arrive)

serve_last : (r : Rates) (b : Bucket) (now : ℕ) → (serve r b now).0.last ≡ now
unfolding serve spend charged refill
serve_last r b now = ground arith

length-insert :
    (k : Text) (v : Bucket) (m : List (Text × Bucket))
    → length (insert text_dec k v m) ≤ suc (length m)
unfolding insert
length-insert k v [] = omega arith
length-insert k v ((j, w) ∷ m) = ground (arith, length-insert k v m)

arrive-other :
    (bs : List (Text × Bucket)) (id other : Text) (r : Rates) (now : ℕ)
    → other ≢ id
    → (lookup text_dec other bs ≢ none) ⊎ (length bs < sweep_above)
    → lookup text_dec id (arrive r now other bs).0 ≡ lookup text_dec id bs
unfolding arrive with_first
arrive-other bs id other r now apart quiet =
    let first = first_bucket r now in
    ground (
      arith,
      quiet,
      length-insert other first bs,
      lookup-insert_ne text_dec other id first bs apart,
    )

-- A call of another tenant that does not sweep leaves the entry as it is.
take-other :
    (bs : List (Text × Bucket)) (id other : Text) (r : Rates) (now : ℕ)
    → other ≢ id
    → (lookup text_dec other bs ≢ none) ⊎ (length bs < sweep_above)
    → lookup text_dec id (take bs other r now).0 ≡ lookup text_dec id bs
unfolding take
take-other bs id other r now apart quiet =
    let arrived = arrive r now other bs in
    ground (
      arith,
      arrive-other bs id other r now apart quiet,
      lookup-insert_ne text_dec other id (spend r arrived.1 now).0 arrived.0 apart,
    )

serve_earned :
    (r : Rates) (b : Bucket) (t : ℕ)
    → bucket_on r ≡ true
    → b.last ≤ t
    → (if (serve r b t).2 then second else 0) + (serve r b t).0.tokens
      ≤ b.tokens + (t - b.last) * r.rps
serve_earned r b t on late =
    let e : b.last + (t - b.last) ≡ t = omega (arith, late) in
    subst
      (λ u.
        (if (serve r b u).2 then second else 0) + (serve r b u).0.tokens
        ≤ b.tokens + (t - b.last) * r.rps)
      e (serve_tokens r b (t - b.last) on)

-- The tokens at hand and those the rate adds up to a time, split at one between.
earned-split :
    (last now gap later rps : ℕ)
    → last ≤ now
    → (now - last) * rps + (gap + later) * rps ≡ (now + gap - last) * rps + later * rps
earned-split last now gap later rps h =
    let e : now + gap - last ≡ (now - last) + gap = omega (arith, h) in
    ground (arith, e, add-mul (now - last) gap rps, add-mul gap later rps)

-- One call of the tenant, and what is bound from it on.
own-bounded :
    (r : Rates) (b : Bucket) (now gap later rest : ℕ)
    → bucket_on r ≡ true
    → b.last ≤ now
    → (rest * second
        ≤ (serve r b (now + gap)).0.tokens
          + (now + gap - (serve r b (now + gap)).0.last) * r.rps
          + later * r.rps)
    → (if (serve r b (now + gap)).2 then rest + 1 else rest) * second
      ≤ b.tokens + (now - b.last) * r.rps + (gap + later) * r.rps
own-bounded r b now gap later rest on late bound =
    let split = earned-split b.last now gap later r.rps late in
    let gone : now + gap - (serve r b (now + gap)).0.last ≡ 0 =
      omega (arith, serve_last r b (now + gap)) in
    ground (arith, split, gone, serve_earned r b (now + gap) on (omega (arith, late)), bound)

admitted-bounded :
    (id : Text) (r : Rates) (calls : List TakeCall) (bs : List (Text × Bucket)) (b : Bucket)
    (now : ℕ)
    → bucket_on r ≡ true
    → AtRates id r calls
    → Unswept bs now calls
    → lookup text_dec id bs ≡ some b
    → b.last ≤ now
    → admitted id bs now calls * second ≤ b.tokens + (now - b.last) * r.rps + elapsed calls * r.rps
unfolding admitted elapsed
admitted-bounded id r [] bs b now on at quiet there late = omega arith
admitted-bounded id r (a ∷ calls) bs b now on at quiet there late =
    let t = now + a.gap in
    let answer = take bs a.tenant a.rates t in
    elim (text_dec a.tenant id) [
      | no apart ↦
          let split = earned-split b.last now a.gap (elapsed calls) r.rps late in
          let rest =
            admitted-bounded id r calls answer.0 b t on at.1 quiet.1
              (take-other bs id a.tenant a.rates t apart quiet.0 ∙ there) (omega (arith, late)) in
          ground (arith, apart, rest, split)
      | yes same ↦
          let own : answer
              ≡ (insert text_dec id (serve r b t).0 bs, (serve r b t).1, (serve r b t).2) =
            ap (λ k. take bs k a.rates t) same
            ∙ ap (λ q. take bs id q t) (at.0 same)
            ∙ take-present bs id r t b on there in
          let rest =
            admitted-bounded id r calls answer.0 (serve r b t).0 t on at.1 quiet.1
              (ap (λ q. lookup text_dec id q.0) own
                ∙ lookup-insert_self text_dec id (serve r b t).0 bs)
              (omega (arith, serve_last r b t)) in
          ground (
            arith,
            same,
            ap (λ q. q.2) own,
            own-bounded r b now a.gap (elapsed calls) (admitted id answer.0 t calls) on late rest,
          )
    ]

-- Where the token bucket is on and the tenant has an entry, whatever calls of it and of other tenants follow, those of
-- the tenant all at one rate and none that sweeps: the requests of the tenant that are admitted, a token each, are at
-- most the tokens it had at its last call and those that the rate adds from then on.
pub takes-bounded :
    (bs : List (Text × Bucket)) (id : Text) (r : Rates) (b : Bucket) (calls : List TakeCall)
    → bucket_on r ≡ true
    → AtRates id r calls
    → Unswept bs b.last calls
    → lookup text_dec id bs ≡ some b
    → admitted id bs b.last calls * second ≤ b.tokens + elapsed calls * r.rps
takes-bounded bs id r b calls on at quiet there =
    let nothing : b.last - b.last ≡ 0 = omega arith in
    ground (arith, nothing, admitted-bounded id r calls bs b b.last on at quiet there (omega arith))
