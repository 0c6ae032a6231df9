-- ===== src/Events/Schedule.antt =====
-- The attempts of gateway/internal/events/events.go.
use cogni_gate.Prelude.{
  ℕ, zero, suc, ◌≡◌, ◌≤◌, ◌*◌, ◌||◌, ◌==◌, List, [], ◌∷◌, Bool, true, false, Option, if◌then◌else◌,
  length, take, refl, arith,
}
use cogni_gate.Events.{Options, DeliveryOutcome, deliver, deliver_from, is_accepted, after_wait}

abbrev pub any_accepted : List (Option ℕ) → Bool
any_accepted [] = false
any_accepted (a ∷ answers) = is_accepted a || any_accepted answers

-- As many waits, each twice the one before.
abbrev pub doubling : ℕ → ℕ → List ℕ
doubling zero backoff = []
doubling (suc n) backoff = backoff ∷ doubling n (backoff * 2)

abbrev pub Scheduled : ℕ → ℕ → List (Option ℕ) → DeliveryOutcome → Type 0
Scheduled left backoff answers o =
    (o.delivered ≡ any_accepted (take left answers))
    × (o.attempts ≤ left)
    × (o.attempts ≤ length answers)
    × (o.waits ≡ doubling (length o.waits) backoff)
    × (length o.waits ≤ o.attempts)

after_wait-Scheduled :
    (left backoff : ℕ) (a : Option ℕ) (answers : List (Option ℕ)) (o : DeliveryOutcome)
    → Scheduled left (backoff * 2) answers o
    → Scheduled (suc left) backoff (a ∷ answers) (
        if is_accepted a
        then record { delivered = true; attempts = 1; waits = [] }
        else if left == 0
        then record { delivered = false; attempts = 1; waits = [] }
        else after_wait backoff o)
unfolding after_wait
after_wait-Scheduled zero backoff a answers o h = ground (arith, h)
after_wait-Scheduled (suc left) backoff a answers o h = ground (arith, h)

deliver_from-Scheduled :
    (left backoff : ℕ) (answers : List (Option ℕ))
    → Scheduled left backoff answers (deliver_from left backoff answers)
unfolding deliver_from after_wait
deliver_from-Scheduled zero backoff answers = (refl, omega arith, omega arith, refl, omega arith)
deliver_from-Scheduled (suc left) backoff [] = (refl, omega arith, omega arith, refl, omega arith)
deliver_from-Scheduled (suc left) backoff (a ∷ answers) =
    after_wait-Scheduled left backoff a answers (deliver_from left (backoff * 2) answers)
      (deliver_from-Scheduled left (backoff * 2) answers)

-- A delivery succeeds exactly when one of the answers to the attempts that the options allow, before the stop, is a
-- 2xx; it makes no more attempts than they allow, and its waits begin with the base and double.
pub deliver-Scheduled :
    (o : Options) (answers : List (Option ℕ))
    → Scheduled o.max_attempts o.base_backoff answers (deliver o answers)
unfolding deliver
deliver-Scheduled o answers = deliver_from-Scheduled o.max_attempts o.base_backoff answers
