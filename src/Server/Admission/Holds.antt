-- ===== src/Server/Admission/Holds.antt =====
-- What a request holds while gateway/internal/server/limits.go lets it through.
use cogni_gate.Prelude.{
  ℕ, ◌≡◌, ◌≤◌, ◌<◌, ◌+◌, leb, List, Bool, true, false, Option, none, some, Text, text_dec,
  if◌then◌else◌, refl, sym, ap, arith, ◌⊎◌, inl, inr, insert, lookup-insert, lookup-delete,
  Bool-cases, subst,
}
use cogni_gate.Memory.{Tenant}
use cogni_gate.Limits.{EffectiveLimits, limits_for}
use cogni_gate.Limits.Rates.{Bucket, take}
use cogni_gate.Limits.Concurrency.{
  ConcurrencyLimiter, in_flight, limit_of, acquire, give_back, release, release_unless_adopted,
}
use cogni_gate.Server.ApiErrors.{
  request_too_large, rate_limited, with_retry_after, concurrency_exceeded, new_err,
}
use cogni_gate.Server.Admission.{
  Limiters, Arrival, Entrance, unlimited, turned_away, entered, rates_of, over_size, declares_over,
  with_permit, take_permit, enter_tenant, enter, leave, rate_exempt,
}

-- What each way out of limitTenant does to the limiters.
abbrev pub Fair : EffectiveLimits → Arrival → Limiters → Limiters × Entrance → Type 0
Fair lim a s (s', unlimited) = s' ≡ s
Fair lim a s (s', turned_away e) =
    (s'.limiter ≡ s.limiter) × (((e.status ≡ 413) × (s'.rates ≡ s.rates)) ⊎ (e.status ≡ 429))
Fair lim a s (s', entered slot) =
    (a.body_bytes ≤ lim.max_request_bytes)
    × (in_flight s.limiter a.key.id < limit_of s.limiter lim.max_concurrent_per_key)
    × ((k : Text) → in_flight (leave slot s').0.limiter k ≡ in_flight s.limiter k)

acquire-none :
    (l : ConcurrencyLimiter) (key : Text) (limit : ℕ)
    → leb (limit_of l limit) (in_flight l key) ≡ true
    → acquire l key limit ≡ (l, none)
unfolding acquire
acquire-none l key limit h = ground (arith, h)

acquire-some :
    (l : ConcurrencyLimiter) (key : Text) (limit : ℕ)
    → leb (limit_of l limit) (in_flight l key) ≡ false
    → acquire l key limit ≡ (
      record l { in_use = insert text_dec key (in_flight l key + 1) l.in_use },
      some (record { key = key; done = false }),
    )
unfolding acquire
acquire-some l key limit h = ground (arith, h)

in_flight-give_back :
    (l : ConcurrencyLimiter) (key k : Text)
    → in_flight
        (give_back (record l { in_use = insert text_dec key (in_flight l key + 1) l.in_use }) key)
        k
      ≡ in_flight l k
unfolding give_back in_flight
in_flight-give_back l key k = ground (
  arith,
  lookup-insert text_dec key key (in_flight l key + 1) l.in_use,
  lookup-insert text_dec key k (in_flight l key + 1) l.in_use,
  lookup-delete text_dec key k (insert text_dec key (in_flight l key + 1) l.in_use),
  lookup-insert text_dec key k (in_flight l key)
      (insert text_dec key (in_flight l key + 1) l.in_use),
)

if-Fair :
    (lim : EffectiveLimits) (a : Arrival) (s : Limiters) (c : Bool) (x y : Limiters × Entrance)
    → Fair lim a s x
    → Fair lim a s y
    → Fair lim a s (if c then x else y)
if-Fair lim a s true x y h k = h
if-Fair lim a s false x y h k = k

module _ (quote : Text → Text) (decimal : ℕ → Text) where
  take_permit-full :
      (lim : EffectiveLimits) (key : Text) (s : Limiters)
      → leb (limit_of s.limiter lim.max_concurrent_per_key) (in_flight s.limiter key) ≡ true
      → take_permit quote decimal lim key s
        ≡ (s, turned_away (concurrency_exceeded quote decimal lim.max_concurrent_per_key))
  unfolding take_permit with_permit
  take_permit-full lim key s h =
      ap (with_permit quote decimal lim s) (acquire-none s.limiter key lim.max_concurrent_per_key h)

  take_permit-free :
      (lim : EffectiveLimits) (key : Text) (s : Limiters)
      → leb (limit_of s.limiter lim.max_concurrent_per_key) (in_flight s.limiter key) ≡ false
      → take_permit quote decimal lim key s ≡ (
        record s {
          limiter = record s.limiter {
            in_use = insert text_dec key (in_flight s.limiter key + 1) s.limiter.in_use;
          };
        },
        entered (record { adopted = false; permit = record { key = key; done = false } }),
      )
  unfolding take_permit with_permit
  take_permit-free lim key s h =
      ap (with_permit quote decimal lim s) (acquire-some s.limiter key lim.max_concurrent_per_key h)

  take_permit-Fair :
      (lim : EffectiveLimits) (a : Arrival) (s : Limiters) (rates : List (Text × Bucket))
      → a.body_bytes ≤ lim.max_request_bytes
      → Fair lim a s (take_permit quote decimal lim a.key.id (record s { rates = rates }))
  unfolding concurrency_exceeded new_err leave release_unless_adopted release
  take_permit-Fair lim a s rates fits =
      elim (Bool-cases
        (leb (limit_of s.limiter lim.max_concurrent_per_key) (in_flight s.limiter a.key.id))) [
          | inl full ↦
              subst (Fair lim a s)
                (sym (take_permit-full lim a.key.id (record s { rates = rates }) full))
                (refl, inr refl)
          | inr free ↦
              subst (Fair lim a s)
                (sym (take_permit-free lim a.key.id (record s { rates = rates }) free))
                (fits, ground (arith, free), in_flight-give_back s.limiter a.key.id)
        ]

  enter_tenant-Fair :
      (lim : EffectiveLimits) (a : Arrival) (tenant_id : Text) (now : ℕ) (s : Limiters)
      → Fair lim a s (enter_tenant quote decimal lim a tenant_id now s)
  unfolding enter_tenant over_size declares_over request_too_large new_err rate_limited
      with_retry_after
  enter_tenant-Fair lim a tenant_id now s = go (over_size lim a) refl
    where
      go :
          (big : Bool)
          → over_size lim a ≡ big
          → Fair lim a s (
              if big
              then (s, turned_away (request_too_large quote decimal lim.max_request_bytes))
              else if rate_exempt a.path
              then take_permit quote decimal lim a.key.id s
              else (let t = take s.rates tenant_id (rates_of lim) now in
                  let s' : Limiters = record s { rates = t.0 } in
                  if t.2
                  then take_permit quote decimal lim a.key.id s'
                  else (s', turned_away (with_retry_after t.1 rate_limited))))
      go true e = (refl, inl (refl, refl))
      go false e =
          if-Fair lim a s (rate_exempt a.path) _ _
            (take_permit-Fair lim a s s.rates (ground (arith, e)))
            (if-Fair lim a s (take s.rates tenant_id (rates_of lim) now).2 _ _
              (take_permit-Fair lim a s (take s.rates tenant_id (rates_of lim) now).0
                (ground (arith, e)))
              (refl, inr refl))

  -- A request of a tenant under the limits in force for it, whatever requests the limiters have seen. If it is turned
  -- away, it holds no permit, and the answer is a 413 that the rate limiter has not counted, or a 429. If it is let
  -- through, its body is within the limit and fewer permits than the limit were out for its key, and once it
  -- leaves with its permit every key has as many permits out as before.
  pub enter-Fair :
      (dep : EffectiveLimits) (a : Arrival) (t : Tenant) (now : ℕ) (s : Limiters)
      → a.tenant ≡ some t
      → Fair (limits_for dep (some t.limits)) a s (enter quote decimal dep a now s)
  unfolding enter
  enter-Fair dep a t now s e =
      subst
        (λ (o : Option Tenant). Fair (limits_for dep (some t.limits)) a s (elim o [
          | none ↦ (s, unlimited)
          | some t ↦ enter_tenant quote decimal (limits_for dep (some t.limits)) a t.id now s
        ]))
        (sym e) (enter_tenant-Fair (limits_for dep (some t.limits)) a t.id now s)
