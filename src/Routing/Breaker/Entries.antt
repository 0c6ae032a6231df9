-- ===== src/Routing/Breaker/Entries.antt =====
-- The entries form a map: no key stands twice.
use cogni_gate.Prelude.{
  ℕ, true, false, inl, inr, List, [], ◌∷◌, arith, Option-cases, Text, text_dec, Distinct,
  insert-Distinct,
}
use cogni_gate.Routing.Breaker.Calls.{
  Op, allows, succeeds, fails, Call, apply, run, allow-none, allow-some, success-none, success-some,
  failure-none, failure-some,
}
use cogni_gate.Routing.Breaker.{
  Breaker, Entry, State, state_closed, state_open, state_half_open, find, put_entry, moved,
  transition, allow, allow_in, success, success_of, failure, failure_of, fresh_entry, recent,
}

abbrev pub IsMap : Breaker → Type 0
IsMap b = Distinct text_dec b.entries

put_entry-IsMap : (b : Breaker) (k : Text) (e : Entry) → IsMap b → IsMap (put_entry b k e)
unfolding put_entry
put_entry-IsMap b k e d = insert-Distinct text_dec k e b.entries d

transition-IsMap :
    (b : Breaker) (k : Text) (e : Entry) (to : State) → IsMap b → IsMap (transition b k e to)
unfolding transition put_entry
transition-IsMap b k e to d = ground (
  arith,
  insert-Distinct text_dec k e b.entries d,
  insert-Distinct text_dec k (moved e to) b.entries d,
)

module _ (b : Breaker) (k : Text) (now : ℕ) (d : IsMap b) where
  allow_in-IsMap : (s : State) (e : Entry) → IsMap (allow_in s b k now e).0
  unfolding allow_in
  allow_in-IsMap state_closed e = d
  allow_in-IsMap state_open e =
      ground (arith, transition-IsMap b k (record e { probing = true }) state_half_open d)
  allow_in-IsMap state_half_open e =
      ground (arith, put_entry-IsMap b k (record e { probing = true }) d)

  success_of-IsMap : (e : Entry) → IsMap (success_of b k e)
  unfolding success_of
  success_of-IsMap e =
      let e' : Entry = record e { probing = false; failures = [] } in
      ground (arith, transition-IsMap b k e' state_closed d, put_entry-IsMap b k e' d)

  failure_of-IsMap : (e : Entry) → IsMap (failure_of b k now e)
  unfolding failure_of
  failure_of-IsMap e =
      let e' : Entry = record e { failures = recent b.window now e.failures } in
      ground (
        arith,
        transition-IsMap b k (record e { probing = false; opened_at = now }) state_open d,
        transition-IsMap b k (record e' { opened_at = now }) state_open d,
        put_entry-IsMap b k e' d,
      )

allow-IsMap : (b : Breaker) (k : Text) (now : ℕ) → IsMap b → IsMap (allow b k now).0
allow-IsMap b k now d = elim (Option-cases (find b k)) [
  | inl missing ↦ rw (allow-none b k now missing) d
  | inr (e, found) ↦ rw (allow-some b k now found) (allow_in-IsMap b k now d e.state e)
]

success-IsMap : (b : Breaker) (k : Text) (now : ℕ) → IsMap b → IsMap (success b k)
success-IsMap b k now d = elim (Option-cases (find b k)) [
  | inl missing ↦ rw (success-none b k missing) d
  | inr (e, found) ↦ rw (success-some b k found) (success_of-IsMap b k now d e)
]

failure-IsMap : (b : Breaker) (k : Text) (now : ℕ) → IsMap b → IsMap (failure b k now)
failure-IsMap b k now d = elim (Option-cases (find b k)) [
  | inl missing ↦ rw (failure-none b k now missing) (failure_of-IsMap b k now d fresh_entry)
  | inr (e, found) ↦ rw (failure-some b k now found) (failure_of-IsMap b k now d e)
]

-- No call enters a key twice.
pub run-IsMap : (b : Breaker) (cs : List Call) → IsMap b → IsMap (run b cs)
unfolding run
run-IsMap b [] d = d
run-IsMap b (c ∷ cs) d = run-IsMap (apply c.op b c.key c.now) cs (apply-IsMap c.op)
  where
    apply-IsMap : (op : Op) → IsMap (apply op b c.key c.now)
    apply-IsMap allows = allow-IsMap b c.key c.now d
    apply-IsMap succeeds = success-IsMap b c.key c.now d
    apply-IsMap fails = failure-IsMap b c.key c.now d
