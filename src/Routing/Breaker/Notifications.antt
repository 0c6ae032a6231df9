-- ===== src/Routing/Breaker/Notifications.antt =====
-- The calls of `onChange`: BreakerHook turns them into the breaker.opened and breaker.closed events.
use cogni_gate.Prelude.{
  ℕ, ◌≡◌, refl, true, false, not, ◌&&◌, Option, none, some, inl, inr, subst, ◌≢◌, Bool-cases,
  Option-cases, List, [], ◌∷◌, ◌++◌, arith, ite, if◌then◌else◌, Text, text_dec,
}
use cogni_gate.Routing.Breaker.Calls.{
  Op, allows, succeeds, fails, Call, apply, run, find-put_entry, transition_self, transition_ne,
  allow-none, allow-some, success-none, success-some, failure-none, failure-some,
}
use cogni_gate.Routing.Breaker.{
  Breaker, Change, Entry, State, state_closed, state_open, state_half_open, find, put_entry, moved,
  transition, allow, allow_in, success, success_of, failure, failure_of, is, fresh_entry, recent,
}

-- A listener that follows one key from `s`: it fails on a change that does not start where the last
-- one ended, or that ends where it starts.
unfoldable pub replay : Text → State → List Change → Option State
unfolding is
replay k s [] = some s
replay k s (c ∷ cs) =
    let rest = replay k (ite (text_dec c.key k) c.to s) cs in
    ite (text_dec c.key k) (if is c.from s && not (is c.from c.to) then rest else none) rest

-- A listener that has kept up with `xs` goes on from where it is.
replay-append :
    (k : Text) (s t : State) (xs ys : List Change)
    → replay k s xs ≡ some t
    → replay k s (xs ++ ys) ≡ replay k t ys
unfolding replay
replay-append k s t [] ys h = ground arith
replay-append k s t (c ∷ xs) ys h =
    ground (arith, replay-append k (ite (text_dec c.key k) c.to s) t xs ys)

abbrev pub state_in : Option Entry → State
state_in none = state_closed
state_in (some e) = e.state

-- The listener of `k` ends in the state that the breaker holds for `k`.
abbrev pub Told : Breaker → Text → Type 0
Told b k = replay k state_closed b.changes ≡ some (state_in (find b k))

put-Told :
    (b : Breaker) (j k : Text) (e : Entry)
    → state_in (find b j) ≡ e.state
    → Told b k
    → Told (put_entry b j e) k
unfolding put_entry
put-Told b j k e same t = ground (arith, find-put_entry b j k e)

is_refl : (s : State) → is s s ≡ true
unfolding is
is_refl state_closed = refl
is_refl state_open = refl
is_refl state_half_open = refl

module _ (b : Breaker) (j : Text) (e : Entry) (to : State) where
  transition-changes :
      is e.state to ≡ false
      → (transition b j e to).changes
        ≡ b.changes ++ (record { key = j; from = e.state; to = to } ∷ [])
  unfolding transition put_entry
  transition-changes moves = ground arith

  transition_still : is e.state to ≡ true → transition b j e to ≡ put_entry b j e
  unfolding transition
  transition_still stays = ground arith

  transition-Told_self : state_in (find b j) ≡ e.state → Told b j → Told (transition b j e to) j
  unfolding replay moved
  transition-Told_self same t = elim (Bool-cases (is e.state to)) [
    | inl stays ↦ rw (transition_still stays) (put-Told b j j e same t)
    | inr moves ↦
        let c : Change = record { key = j; from = e.state; to = to } in
        ground (
          arith,
          transition-changes moves,
          transition_self b j e to,
          replay-append j state_closed e.state b.changes (c ∷ []),
          is_refl e.state,
        )
  ]

  transition-Told_ne :
      (k : Text) → j ≢ k → state_in (find b j) ≡ e.state → Told b k → Told (transition b j e to) k
  unfolding replay
  transition-Told_ne k away same t = elim (Bool-cases (is e.state to)) [
    | inl stays ↦ rw (transition_still stays) (put-Told b j k e same t)
    | inr moves ↦
        let c : Change = record { key = j; from = e.state; to = to } in
        ground (
          arith,
          transition-changes moves,
          transition_ne b j k e to away,
          replay-append k state_closed (state_in (find b k)) b.changes (c ∷ []),
        )
  ]

  transition-Told :
      (k : Text) → state_in (find b j) ≡ e.state → Told b k → Told (transition b j e to) k
  transition-Told k same t = elim (text_dec j k) [
    | yes here ↦
        subst (λ i. Told b i → Told (transition b j e to) i) here (transition-Told_self same) t
    | no away ↦ transition-Told_ne k away same t
  ]

allow_in-Told :
    (b : Breaker) (j k : Text) (now : ℕ) (e : Entry)
    → find b j ≡ some e
    → Told b k
    → Told (allow_in e.state b j now e).0 k
unfolding allow_in
allow_in-Told b j k now e found t = ground (
  arith,
  transition-Told b j (record e { probing = true }) state_half_open k,
  put-Told b j k (record e { probing = true }),
)

success_of-Told :
    (b : Breaker) (j k : Text) (e : Entry)
    → find b j ≡ some e
    → Told b k
    → Told (success_of b j e) k
unfolding success_of
success_of-Told b j k e found t =
    let e' : Entry = record e { probing = false; failures = [] } in
    ground (arith, transition-Told b j e' state_closed k, put-Told b j k e')

failure_of-Told :
    (b : Breaker) (j k : Text) (now : ℕ) (e : Entry)
    → state_in (find b j) ≡ e.state
    → Told b k
    → Told (failure_of b j now e) k
unfolding failure_of
failure_of-Told b j k now e found t =
    let e' : Entry = record e { failures = recent b.window now e.failures } in
    ground (
      arith,
      transition-Told b j (record e { probing = false; opened_at = now }) state_open k,
      transition-Told b j (record e' { opened_at = now }) state_open k,
      put-Told b j k e',
    )

allow-Told : (b : Breaker) (j k : Text) (now : ℕ) → Told b k → Told (allow b j now).0 k
allow-Told b j k now t = elim (Option-cases (find b j)) [
  | inl missing ↦ rw (allow-none b j now missing) t
  | inr (e, found) ↦ rw (allow-some b j now found) (allow_in-Told b j k now e found t)
]

success-Told : (b : Breaker) (j k : Text) → Told b k → Told (success b j) k
success-Told b j k t = elim (Option-cases (find b j)) [
  | inl missing ↦ rw (success-none b j missing) t
  | inr (e, found) ↦ rw (success-some b j found) (success_of-Told b j k e found t)
]

failure-Told : (b : Breaker) (j k : Text) (now : ℕ) → Told b k → Told (failure b j now) k
unfolding fresh_entry
failure-Told b j k now t = elim (Option-cases (find b j)) [
  | inl missing ↦
      rw (failure-none b j now missing) (failure_of-Told b j k now fresh_entry (ground arith) t)
  | inr (e, found) ↦ rw (failure-some b j now found) (failure_of-Told b j k now e (ground arith) t)
]

-- Whoever follows the notifications of one key, over any calls, knows the state that the breaker
-- holds for it: each change starts where the last one of the key ended, and none is left out.
pub run-Told : (b : Breaker) (cs : List Call) (k : Text) → Told b k → Told (run b cs) k
unfolding run
run-Told b [] k t = t
run-Told b (c ∷ cs) k t = run-Told (apply c.op b c.key c.now) cs k (apply-Told c.op)
  where
    apply-Told : (op : Op) → Told (apply op b c.key c.now) k
    apply-Told allows = allow-Told b c.key k c.now t
    apply-Told succeeds = success-Told b c.key k t
    apply-Told fails = failure-Told b c.key k c.now t
