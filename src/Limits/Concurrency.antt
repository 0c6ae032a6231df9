-- ===== src/Limits/Concurrency.antt =====
-- concurrencyLimiter and slot of server/middleware.go and limits.go. A release closure is a Permit,
-- the key it was made for and its sync.Once; a released permit does nothing more.
use cogni_gate.Prelude.{
  ℕ, ◌+◌, ◌-◌, Bool, true, false, Option, none, some, List, [], leb, ltb, if◌then◌else◌, Text,
  text_dec, lookup, insert, delete,
}

pub record ConcurrencyLimiter : Type 0 where
  pub in_use : List (Text × ℕ)
  pub limit : ℕ

unfoldable pub new_concurrency_limiter : ℕ → ConcurrencyLimiter
new_concurrency_limiter limit = record { in_use = []; limit = if ltb limit 1 then 32 else limit }

pub record Permit : Type 0 where
  pub key : Text
  pub done : Bool

-- A key that the map lacks counts zero.
unfoldable pub in_flight : ConcurrencyLimiter → Text → ℕ
in_flight l k = elim (lookup text_dec k l.in_use) [ none ↦ 0 | some n ↦ n ]

unfoldable pub limit_of : ConcurrencyLimiter → ℕ → ℕ
limit_of l limit = if ltb limit 1 then l.limit else limit

unfoldable pub acquire : ConcurrencyLimiter → Text → ℕ → ConcurrencyLimiter × Option Permit
acquire l key limit = if leb (limit_of l limit) (in_flight l key) then (l, none) else (
  record l { in_use = insert text_dec key (in_flight l key + 1) l.in_use },
  some record { key = key; done = false },
)

unfoldable pub give_back : ConcurrencyLimiter → Text → ConcurrencyLimiter
give_back l key =
    if leb (in_flight l key) 1
    then record l { in_use = delete text_dec key l.in_use }
    else record l { in_use = insert text_dec key (in_flight l key - 1) l.in_use }

unfoldable pub release : ConcurrencyLimiter → Permit → ConcurrencyLimiter × Permit
release l p = if p.done then (l, p) else (give_back l p.key, record p { done = true })

-- A request's hold on its permit.
pub record Slot : Type 0 where
  pub adopted : Bool
  pub permit : Permit

unfoldable pub take_slot : Slot → Slot
take_slot s = record s { adopted = true }

unfoldable pub release_unless_adopted : ConcurrencyLimiter → Slot → ConcurrencyLimiter × Slot
release_unless_adopted l s =
    if s.adopted
    then (l, s)
    else ((release l s.permit).0, record s { permit = (release l s.permit).1 })
