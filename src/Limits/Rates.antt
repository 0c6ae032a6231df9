-- ===== src/Limits/Rates.antt =====
-- rateLimiter of gateway/internal/server/limits.go. Tokens are counted in billionths, so that a
-- refill is exact: a nanosecond at one request per second is one unit. The source computes the same in
-- float64. Times and waits are in nanoseconds, and the clock does not go back.
use cogni_gate.Prelude.{
  ℕ, ◌+◌, ◌-◌, ◌*◌, ◌/◌, Bool, true, false, ◌&&◌, ◌||◌, not, none, some, List, leb, ltb,
  if◌then◌else◌, length, Text, text_dec, lookup, insert, keep_if,
}
use cogni_gate.Limits.{second}

abbrev pub minute : ℕ
minute = 60000000000

pub record Bucket : Type 0 where
  pub tokens : ℕ
  pub last : ℕ
  pub minute_start : ℕ
  pub minute_count : ℕ

abbrev pub sweep_above : ℕ
sweep_above = 4096

-- The ceilings that a call of take passes.
pub record Rates : Type 0 where
  pub rps : ℕ
  pub burst : ℕ
  pub rpm : ℕ

unfoldable pub bucket_on : Rates → Bool
bucket_on r = leb 1 r.rps && leb 1 r.burst

unfoldable pub minute_on : Rates → Bool
minute_on r = leb 1 r.rpm

unfoldable pub first_bucket : Rates → ℕ → Bucket
first_bucket r now = record {
  tokens = r.burst * second;
  last = now;
  minute_start = now;
  minute_count = 0;
}

unfoldable pub capped : ℕ → ℕ → ℕ
capped tokens full = if ltb full tokens then full else tokens

unfoldable pub longer : ℕ → ℕ → ℕ
longer wait w = if ltb wait w then w else wait

unfoldable pub refilled : Rates → Bucket → ℕ → ℕ
refilled r b now =
    if bucket_on r then capped (b.tokens + (now - b.last) * r.rps) (r.burst * second) else b.tokens

unfoldable pub refill : Rates → Bucket → ℕ → Bucket
refill r b now =
    let over = leb minute (now - b.minute_start) in
    record {
      tokens = refilled r b now;
      last = now;
      minute_start = if over then now else b.minute_start;
      minute_count = if over then 0 else b.minute_count;
    }

unfoldable pub token_wait : Rates → Bucket → ℕ
token_wait r b = if bucket_on r && ltb b.tokens second then (second - b.tokens) / r.rps else 0

unfoldable pub minute_full : Rates → Bucket → Bool
minute_full r b = minute_on r && leb r.rpm b.minute_count

unfoldable pub denied : Rates → Bucket → Bool
denied r b = (bucket_on r && ltb b.tokens second) || minute_full r b

unfoldable pub wait_of : Rates → Bucket → ℕ → ℕ
wait_of r b now =
    if minute_full r b
    then longer (token_wait r b) (minute - (now - b.minute_start))
    else token_wait r b

unfoldable pub charged : Rates → Bucket → Bucket
charged r b = record b {
  tokens = if bucket_on r then b.tokens - second else b.tokens;
  minute_count = if minute_on r then b.minute_count + 1 else b.minute_count;
}

-- Both ceilings are measured before either is charged.
unfoldable pub spend : Rates → Bucket → ℕ → Bucket × ℕ × Bool
spend r b now = if denied r b then (b, wait_of r b now, false) else (charged r b, 0, true)

-- The test of sweep, for an entry that stays.
unfoldable pub stays : Rates → ℕ → Text × Bucket → Bool
stays r now (id, b) =
    let full = if bucket_on r then r.burst * second / r.rps else 0 in
    not (leb full (now - b.last) && leb minute (now - b.minute_start))

unfoldable pub sweep : Rates → ℕ → List (Text × Bucket) → List (Text × Bucket)
sweep r now bs = keep_if (stays r now) bs

unfoldable pub with_first : Rates → ℕ → Text → List (Text × Bucket) → List (Text × Bucket)
with_first r now id bs =
    let bs' = insert text_dec id (first_bucket r now) bs in
    if ltb sweep_above (length bs') then sweep r now bs' else bs'

-- The entry is charged in place.
unfoldable pub arrive : Rates → ℕ → Text → List (Text × Bucket) → List (Text × Bucket) × Bucket
arrive r now id bs = elim (lookup text_dec id bs) [
  | none ↦ (with_first r now id bs, first_bucket r now)
  | some b ↦ (bs, refill r b now)
]

unfoldable pub take : List (Text × Bucket) → Text → Rates → ℕ → List (Text × Bucket) × ℕ × Bool
take bs id r now =
    if bucket_on r || minute_on r
    then (let a = arrive r now id bs in
        let s = spend r a.1 now in (insert text_dec id s.0 a.0, s.1, s.2))
    else (bs, 0, true)
