-- ===== src/Limits/InFlight.antt =====
-- The concurrency limiter over any sequence of acquires and releases: what it counts for a key is the
-- number of permits for the key that are still out.
use cogni_gate.Prelude.{
  ℕ, zero, suc, ◌+◌, ◌-◌, ◌≡◌, refl, Bool, true, false, Option, none, some, List, [], ◌∷◌, arith,
  ltb, if◌then◌else◌, Text, text_dec, text_eq, lookup, insert, delete, lookup-insert, lookup-delete,
}
use cogni_gate.Limits.Concurrency.{
  ConcurrencyLimiter, new_concurrency_limiter, Permit, in_flight, limit_of, acquire, give_back,
  release,
}

-- The limiter and every permit it has issued, the last one first.
pub record World : Type 0 where
  pub limiter : ConcurrencyLimiter
  pub issued : List Permit

pub data Event : Type 0 where
  acquired : Text → ℕ → Event
  released : ℕ → Event

unfoldable pub taken : World → ConcurrencyLimiter × Option Permit → World
taken w (l, none) = record w { limiter = l }
taken w (l, some p) = record { limiter = l; issued = p ∷ w.issued }

-- A release of the permit at a position, which may have been released before.
unfoldable pub release_at : ConcurrencyLimiter → ℕ → List Permit → World
release_at l n [] = record { limiter = l; issued = [] }
release_at l zero (p ∷ ps) = record { limiter = (release l p).0; issued = (release l p).1 ∷ ps }
release_at l (suc n) (p ∷ ps) =
    let w = release_at l n ps in record { limiter = w.limiter; issued = p ∷ w.issued }

unfoldable pub happen : World → Event → World
happen w (acquired key limit) = taken w (acquire w.limiter key limit)
happen w (released n) = release_at w.limiter n w.issued

unfoldable pub happen_all : World → List Event → World
happen_all w [] = w
happen_all w (e ∷ es) = happen_all (happen w e) es

unfoldable pub out_one : Permit → Text → ℕ
out_one p k = if p.done then 0 else (if text_eq p.key k then 1 else 0)

-- How many permits for a key are out.
unfoldable pub out : List Permit → Text → ℕ
out [] k = 0
out (p ∷ ps) k = out_one p k + out ps k

abbrev pub Counted : World → Type 0
Counted w = (k : Text) → in_flight w.limiter k ≡ out w.issued k

in_flight-acquired :
    (l : ConcurrencyLimiter) (key k : Text) (n : ℕ)
    → in_flight (record l { in_use = insert text_dec key n l.in_use }) k
      ≡ (if text_eq key k then n else in_flight l k)
unfolding in_flight
in_flight-acquired l key k n = ground (arith, lookup-insert text_dec key k n l.in_use)

in_flight-deleted :
    (l : ConcurrencyLimiter) (key k : Text)
    → in_flight (record l { in_use = delete text_dec key l.in_use }) k
      ≡ (if text_eq key k then 0 else in_flight l k)
unfolding in_flight
in_flight-deleted l key k = ground (arith, lookup-delete text_dec key k l.in_use)

in_flight-give_back :
    (l : ConcurrencyLimiter) (key k : Text)
    → in_flight (give_back l key) k ≡ (if text_eq key k then in_flight l k - 1 else in_flight l k)
unfolding give_back
in_flight-give_back l key k =
    ground (arith, in_flight-deleted l key k, in_flight-acquired l key k (in_flight l key - 1))

release-Counted :
    (l : ConcurrencyLimiter) (p : Permit) (rest : ℕ) (k : Text)
    → in_flight l k ≡ out_one p k + rest
    → in_flight (release l p).0 k ≡ out_one (release l p).1 k + rest
unfolding release out_one
release-Counted l p rest k h = ground (arith, h, in_flight-give_back l p.key k)

release_at-Counted :
    (l : ConcurrencyLimiter) (n : ℕ) (ps : List Permit) (rest : ℕ) (k : Text)
    → in_flight l k ≡ out ps k + rest
    → in_flight (release_at l n ps).limiter k ≡ out (release_at l n ps).issued k + rest
unfolding release_at out
release_at-Counted l n [] rest k h = h
release_at-Counted l zero (p ∷ ps) rest k h =
    ground (arith, release-Counted l p (out ps k + rest) k (omega arith))
release_at-Counted l (suc n) (p ∷ ps) rest k h =
    ground (arith, release_at-Counted l n ps (out_one p k + rest) k (omega arith))

acquire-Counted :
    (w : World) (key : Text) (limit : ℕ)
    → Counted w
    → Counted (taken w (acquire w.limiter key limit))
unfolding acquire taken out out_one
acquire-Counted w key limit c k =
    ground (arith, c k, c key, in_flight-acquired w.limiter key k (in_flight w.limiter key + 1))

happen-Counted : (w : World) (e : Event) → Counted w → Counted (happen w e)
unfolding happen
happen-Counted w (acquired key limit) c = acquire-Counted w key limit c
happen-Counted w (released n) c =
    λ k. ground (arith, release_at-Counted w.limiter n w.issued 0 k (ground (arith, c k)))

happen_all-Counted : (es : List Event) (w : World) → Counted w → Counted (happen_all w es)
unfolding happen_all
happen_all-Counted [] w c = c
happen_all-Counted (e ∷ es) w c = happen_all-Counted es (happen w e) (happen-Counted w e c)

unfoldable pub fresh : ℕ → World
fresh limit = record { limiter = new_concurrency_limiter limit; issued = [] }

fresh-Counted : (limit : ℕ) → Counted (fresh limit)
unfolding fresh new_concurrency_limiter in_flight out lookup
fresh-Counted limit k = refl

abbrev pub is_permit : Option Permit → Bool
is_permit none = false
is_permit (some _) = true

-- After any sequence of acquires and releases, repeated releases of one permit included, an acquire for a key
-- gives a permit exactly when fewer permits for the key are out than the limit asked for, or the
-- limiter's own where none is asked for.
pub acquire_when_out :
    (ceiling : ℕ) (es : List Event) (key : Text) (limit : ℕ)
    → let w = happen_all (fresh ceiling) es in
      is_permit (acquire w.limiter key limit).1 ≡ ltb (out w.issued key) (limit_of w.limiter limit)
unfolding acquire
acquire_when_out ceiling es key limit =
    ground (arith, happen_all-Counted es (fresh ceiling) (fresh-Counted ceiling) key)
