-- ===== src/Routing/Breaker/Probing.antt =====
-- When the probe of a key is out.
use cogni_gate.Prelude.{
  ℕ, ◌≡◌, ◌≢◌, refl, sym, true, false, Option, none, some, List, [], ◌∷◌, arith, subst, Text,
  text_dec,
}
use cogni_gate.Routing.Breaker.Calls.{
  Op, allows, succeeds, fails, Call, apply, run, find-put_entry, transition_self, apply_ne,
  allow-none, allow-some, success-none, success-some, failure-none, failure-some,
}
use cogni_gate.Routing.Breaker.{
  Breaker, Entry, state_closed, state_open, state_half_open, find, moved, allow_in, success_of,
  failure_of, is, fresh_entry, recent,
}

-- The probe is out exactly when the entry is half-open.
abbrev pub IsExact : Option Entry → Type 0
IsExact none = Unit
IsExact (some e) =
    (e.state ≡ state_half_open → e.probing ≡ true) × (e.state ≢ state_half_open → e.probing ≡ false)

allow_in-IsExact :
    (b : Breaker) (k : Text) (now : ℕ) (e : Entry)
    → find b k ≡ some e
    → IsExact (some e)
    → IsExact (find (allow_in e.state b k now e).0 k)
unfolding allow_in is moved
allow_in-IsExact b k now e found exact = ground (
  arith,
  exact,
  transition_self b k (record e { probing = true }) state_half_open,
  find-put_entry b k k (record e { probing = true }),
)

success_of-IsExact : (b : Breaker) (k : Text) (e : Entry) → IsExact (find (success_of b k e) k)
unfolding success_of is moved
success_of-IsExact b k e = ground (
  arith,
  transition_self b k (record e { probing = false; failures = [] }) state_closed,
  find-put_entry b k k (record e { probing = false; failures = [] }),
)

failure_of-IsExact :
    (b : Breaker) (k : Text) (now : ℕ) (e : Entry)
    → IsExact (some e)
    → IsExact (find (failure_of b k now e) k)
unfolding failure_of is moved
failure_of-IsExact b k now e exact =
    let e' : Entry = record e { failures = recent b.window now e.failures } in
    ground (
      arith,
      exact,
      transition_self b k (record e { probing = false; opened_at = now }) state_open,
      transition_self b k (record e' { opened_at = now }) state_open,
      find-put_entry b k k e',
    )

apply-IsExact :
    (op : Op) (b : Breaker) (k : Text) (now : ℕ) (o : Option Entry)
    → find b k ≡ o
    → IsExact o
    → IsExact (find (apply op b k now) k)
unfolding fresh_entry
apply-IsExact allows b k now none e s =
    subst (λ r. IsExact (find r.0 k)) (sym (allow-none b k now e)) (subst IsExact (sym e) tt)
apply-IsExact allows b k now (some x) e s =
    subst (λ r. IsExact (find r.0 k)) (sym (allow-some b k now e)) (allow_in-IsExact b k now x e s)
apply-IsExact succeeds b k now none e s =
    subst (λ r. IsExact (find r k)) (sym (success-none b k e)) (subst IsExact (sym e) tt)
apply-IsExact succeeds b k now (some x) e s =
    subst (λ r. IsExact (find r k)) (sym (success-some b k e)) (success_of-IsExact b k x)
apply-IsExact fails b k now none e s =
    subst (λ r. IsExact (find r k)) (sym (failure-none b k now e))
      (failure_of-IsExact b k now fresh_entry ((λ h. absurd (ground (arith, h))), λ h. refl))
apply-IsExact fails b k now (some x) e s =
    subst (λ r. IsExact (find r k)) (sym (failure-some b k now e)) (failure_of-IsExact b k now x s)

call-IsExact :
    (b : Breaker) (c : Call) (k : Text)
    → IsExact (find b k)
    → IsExact (find (apply c.op b c.key c.now) k)
call-IsExact b c k s = elim (text_dec c.key k) [
  | yes same ↦
      subst (λ j. IsExact (find b j) → IsExact (find (apply c.op b c.key c.now) j)) same
        (apply-IsExact c.op b c.key c.now (find b c.key) refl) s
  | no other ↦ subst IsExact (sym (apply_ne c.op b c.key k c.now other)) s
]

pub run-IsExact :
    (b : Breaker) (cs : List Call) (k : Text) → IsExact (find b k) → IsExact (find (run b cs) k)
unfolding run
run-IsExact b [] k s = s
run-IsExact b (c ∷ cs) k s = run-IsExact (apply c.op b c.key c.now) cs k (call-IsExact b c k s)
