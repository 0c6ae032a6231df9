-- ===== src/Routing/Breaker/Machine.antt =====
-- What the breaker promises for one key: a machine with three phases and no other state.
use cogni_gate.Prelude.{
  ℕ, ◌+◌, ◌≡◌, refl, Bool, true, false, Option, none, some, List, [], ◌∷◌, arith, ite, subst, Text,
  text_dec, if◌then◌else◌, ltb, leb, length,
}
use cogni_gate.Routing.Breaker.Calls.{
  Op, allows, succeeds, fails, Call, apply, run, find-put_entry, transition_self, apply_ne,
  allow-none, allow-some, success-none, success-some, failure-none, failure-some, apply-settings,
  run-settings,
}
use cogni_gate.Routing.Breaker.{
  Breaker, Settings, Entry, State, state_closed, state_open, state_half_open, find, moved, allow,
  allow_in, success, success_of, failure, failure_of, is, fresh_entry, recent,
}

-- `healthy` carries the failures in the window, `tripped` the time of the last trip.
pub data Phase : Type 0 where
  healthy : List ℕ → Phase
  tripped : ℕ → Phase
  awaiting : Phase

-- The next phase, given the breaker's settings.
unfoldable pub advance : Settings → Op → ℕ → Phase → Phase
advance s allows now (healthy fs) = healthy fs
advance s allows now (tripped t) = if ltb now (t + s.open_for) then tripped t else awaiting
advance s allows now awaiting = awaiting
advance s succeeds now p = healthy []
advance s fails now (healthy fs) =
    if leb s.threshold (length (recent s.window now fs))
    then tripped now
    else healthy (recent s.window now fs)
advance s fails now (tripped t) = tripped t
advance s fails now awaiting = tripped now

-- The answer to a request.
unfoldable pub admits : Settings → ℕ → Phase → Bool
admits s now (healthy fs) = true
admits s now (tripped t) = if ltb now (t + s.open_for) then false else true
admits s now awaiting = false

-- The calls for one key, of all that are made.
unfoldable pub advance_all : Settings → Text → List Call → Phase → Phase
advance_all s k [] p = p
advance_all s k (c ∷ cs) p = advance_all s k cs (ite (text_dec c.key k) (advance s c.op c.now p) p)

abbrev phase_in : State → Entry → Phase
phase_in state_closed e = healthy e.failures
phase_in state_open e = tripped e.opened_at
phase_in state_half_open e = awaiting

abbrev pub phase_of : Option Entry → Phase
phase_of none = healthy []
phase_of (some e) = phase_in e.state e

-- A half-open entry always has its probe out.
abbrev pub IsSound : Option Entry → Type 0
IsSound none = Unit {0}
IsSound (some e) = e.state ≡ state_half_open → e.probing ≡ true

allow_in-Steps :
    (b : Breaker) (k : Text) (now : ℕ) (e : Entry)
    → find b k ≡ some e
    → IsSound (some e)
    → let r = (allow_in e.state b k now e).0 in
      IsSound (find r k) × (phase_of (find r k) ≡ advance b.settings allows now (phase_of (some e)))
unfolding allow_in advance is moved
allow_in-Steps b k now e found sound = ground (
  arith,
  transition_self b k (record e { probing = true }) state_half_open,
  find-put_entry b k k (record e { probing = true }),
)

success_of-Steps :
    (b : Breaker) (k : Text) (now : ℕ) (e : Entry)
    → let r = success_of b k e in IsSound (find r k) × (phase_of (find r k) ≡ healthy [])
unfolding success_of is moved
success_of-Steps b k now e = ground (
  arith,
  transition_self b k (record e { probing = false; failures = [] }) state_closed,
  find-put_entry b k k (record e { probing = false; failures = [] }),
)

failure_of-Steps :
    (b : Breaker) (k : Text) (now : ℕ) (e : Entry)
    → let r = failure_of b k now e in
      IsSound (find r k) × (phase_of (find r k) ≡ advance b.settings fails now (phase_of (some e)))
unfolding failure_of advance is moved
failure_of-Steps b k now e =
    let e' : Entry = record e { failures = recent b.window now e.failures } in
    ground (
      arith,
      transition_self b k (record e { probing = false; opened_at = now }) state_open,
      transition_self b k (record e' { opened_at = now }) state_open,
      find-put_entry b k k e',
    )

allow-Steps :
    (b : Breaker) (k : Text) (now : ℕ) (o : Option Entry)
    → find b k ≡ o
    → IsSound o
    → let r = (allow b k now).0 in
      IsSound (find r k) × (phase_of (find r k) ≡ advance b.settings allows now (phase_of o))
unfolding advance
allow-Steps b k now none e s = rw (allow-none b k now e) (rw e (tt, refl))
allow-Steps b k now (some x) e s = rw (allow-some b k now e) (allow_in-Steps b k now x e s)

pub success-Steps :
    (b : Breaker) (k : Text) (now : ℕ) (o : Option Entry)
    → find b k ≡ o
    → let r = success b k in IsSound (find r k) × (phase_of (find r k) ≡ healthy [])
success-Steps b k now none e = rw (success-none b k e) (rw e (tt, refl))
success-Steps b k now (some x) e = rw (success-some b k e) (success_of-Steps b k now x)

failure-Steps :
    (b : Breaker) (k : Text) (now : ℕ) (o : Option Entry)
    → find b k ≡ o
    → let r = failure b k now in
      IsSound (find r k) × (phase_of (find r k) ≡ advance b.settings fails now (phase_of o))
unfolding fresh_entry
failure-Steps b k now none e = rw (failure-none b k now e) (failure_of-Steps b k now fresh_entry)
failure-Steps b k now (some x) e = rw (failure-some b k now e) (failure_of-Steps b k now x)

-- One call takes the entry of its key to the next phase, and keeps it sound.
pub apply-Steps :
    (op : Op) (b : Breaker) (k : Text) (now : ℕ)
    → IsSound (find b k)
    → IsSound (find (apply op b k now) k)
      × (phase_of (find (apply op b k now) k) ≡ advance b.settings op now (phase_of (find b k)))
unfolding advance
apply-Steps allows b k now s = allow-Steps b k now (find b k) refl s
apply-Steps succeeds b k now s = success-Steps b k now (find b k) refl
apply-Steps fails b k now s = failure-Steps b k now (find b k) refl

abbrev pub Follows : Breaker → Call → Text → Type 0
Follows b c k =
    IsSound (find b k)
    → IsSound (find (apply c.op b c.key c.now) k)
      × (phase_of (find (apply c.op b c.key c.now) k)
          ≡ ite (text_dec c.key k) (advance b.settings c.op c.now (phase_of (find b k)))
              (phase_of (find b k)))

call-Follows_self : (b : Breaker) (c : Call) → Follows b c c.key
call-Follows_self b c s =
    let steps = apply-Steps c.op b c.key c.now s in (steps.0, ground (arith, steps.1))

pub call-Follows : (b : Breaker) (c : Call) (k : Text) → Follows b c k
call-Follows b c k s = elim (text_dec c.key k) [
  | yes same ↦ subst (Follows b c) same (call-Follows_self b c) s
  | no other ↦ rw (apply_ne c.op b c.key k c.now other) (s, ground arith)
]

-- Whatever calls are made, for any keys in any order, the entry of a key stays sound and goes
-- through the phases that the calls for that key alone bring about.
pub run-Steps :
    (b : Breaker) (cs : List Call) (k : Text)
    → IsSound (find b k)
    → IsSound (find (run b cs) k)
      × (phase_of (find (run b cs) k) ≡ advance_all b.settings k cs (phase_of (find b k)))
unfolding run advance_all
run-Steps b [] k s = (s, refl)
run-Steps b (c ∷ cs) k s =
    let b' = apply c.op b c.key c.now in
    let step = call-Follows b c k s in
    let rest = run-Steps b' cs k step.0 in
    (rest.0, ground (arith, rest.1, step.1, apply-settings c.op b c.key c.now))

-- A request is answered as the phase says.
pub allow-admits :
    (b : Breaker) (k : Text) (now : ℕ)
    → IsSound (find b k)
    → (allow b k now).1 ≡ admits b.settings now (phase_of (find b k))
unfolding allow_in admits
allow-admits b k now s = by_entry (find b k) refl s
  where
    by_entry :
        (o : Option Entry)
        → find b k ≡ o
        → IsSound o
        → (allow b k now).1 ≡ admits b.settings now (phase_of o)
    by_entry none e s = rw (allow-none b k now e)
    by_entry (some x) e s = rw (allow-some b k now e) (ground arith)

-- After any calls, a request is answered as the phase says that the calls for its key lead to.
pub allow-run :
    (b : Breaker) (cs : List Call) (k : Text) (now : ℕ)
    → IsSound (find b k)
    → (allow (run b cs) k now).1
      ≡ admits b.settings now (advance_all b.settings k cs (phase_of (find b k)))
allow-run b cs k now s =
    let steps = run-Steps b cs k s in
    ground (arith, allow-admits (run b cs) k now steps.0, steps.1, run-settings b cs)
