-- ===== src/Routing/Breaker/Calls.antt =====
-- Sequences of calls of the breaker's methods, and what one call does to the entry of each key.
use cogni_gate.Prelude.{
  ℕ, ◌≡◌, ◌≢◌, ◌∙◌, refl, inl, inr, true, false, none, some, List, [], ◌∷◌, arith, ite,
  Option-cases, Text, text_dec, lookup-insert, if◌then◌else◌,
}
use cogni_gate.Routing.Breaker.{
  Breaker, Entry, State, state_closed, state_open, state_half_open, find, put_entry, moved,
  transition, allow, allow_in, success, success_of, failure, failure_of, is, fresh_entry, recent,
}

pub data Op : Type 0 where
  allows succeeds fails : Op

pub record Call : Type 0 where
  pub key : Text
  pub op : Op
  pub now : ℕ

abbrev pub apply : Op → Breaker → Text → ℕ → Breaker
apply allows b key now = (allow b key now).0
apply succeeds b key now = success b key
apply fails b key now = failure b key now

unfoldable pub run : Breaker → List Call → Breaker
run b [] = b
run b (c ∷ cs) = run (apply c.op b c.key c.now) cs

pub find-put_entry :
    (b : Breaker) (k j : Text) (e : Entry)
    → find (put_entry b k e) j ≡ ite (text_dec k j) (some e) (find b j)
unfolding find put_entry
find-put_entry b k j e = lookup-insert text_dec k j e b.entries

pub transition_ne :
    (b : Breaker) (k j : Text) (e : Entry) (to : State)
    → k ≢ j
    → find (transition b k e to) j ≡ find b j
unfolding transition find put_entry
transition_ne b k j e to h = ground (
  arith,
  lookup-insert text_dec k j e b.entries,
  lookup-insert text_dec k j (moved e to) b.entries,
)

pub transition_self :
    (b : Breaker) (k : Text) (e : Entry) (to : State)
    → find (transition b k e to) k ≡ some (if is e.state to then e else moved e to)
unfolding transition find put_entry
transition_self b k e to = ground (
  arith,
  lookup-insert text_dec k k e b.entries,
  lookup-insert text_dec k k (moved e to) b.entries,
)

allow_in_ne :
    (s : State) (b : Breaker) (k j : Text) (now : ℕ) (e : Entry)
    → k ≢ j
    → find (allow_in s b k now e).0 j ≡ find b j
unfolding allow_in
allow_in_ne state_closed b k j now e h = refl
allow_in_ne state_open b k j now e h =
    ground (arith, transition_ne b k j (record e { probing = true }) state_half_open h)
allow_in_ne state_half_open b k j now e h =
    ground (arith, find-put_entry b k j (record e { probing = true }))

failure_of_ne :
    (b : Breaker) (k j : Text) (now : ℕ) (e : Entry)
    → k ≢ j
    → find (failure_of b k now e) j ≡ find b j
unfolding failure_of
failure_of_ne b k j now e h =
    let e' : Entry = record e { failures = recent b.window now e.failures } in
    ground (
      arith,
      transition_ne b k j (record e { probing = false; opened_at = now }) state_open h,
      transition_ne b k j (record e' { opened_at = now }) state_open h,
      find-put_entry b k j e',
    )

module _ (b : Breaker) (k : Text) where
  pub success-none : find b k ≡ none → success b k ≡ b
  unfolding success
  success-none e = rw (e, success)

  pub success-some : {e : Entry} → find b k ≡ some e → success b k ≡ success_of b k e
  unfolding success
  success-some e = rw (e, success)

module _ (b : Breaker) (k : Text) (now : ℕ) where
  pub allow-none : find b k ≡ none → allow b k now ≡ (b, true)
  unfolding allow
  allow-none e = rw (e, allow)

  pub allow-some : {e : Entry} → find b k ≡ some e → allow b k now ≡ allow_in e.state b k now e
  unfolding allow
  allow-some e = rw (e, allow)

  pub failure-none : find b k ≡ none → failure b k now ≡ failure_of b k now fresh_entry
  unfolding failure
  failure-none e = rw (e, failure)

  pub failure-some : {e : Entry} → find b k ≡ some e → failure b k now ≡ failure_of b k now e
  unfolding failure
  failure-some e = rw (e, failure)

success_of_ne :
    (b : Breaker) (k j : Text) (e : Entry) → k ≢ j → find (success_of b k e) j ≡ find b j
unfolding success_of
success_of_ne b k j e h =
    let e' : Entry = record e { probing = false; failures = [] } in
    ground (arith, find-put_entry b k j e', transition_ne b k j e' state_closed h)

allow_ne : (b : Breaker) (k j : Text) (now : ℕ) → k ≢ j → find (allow b k now).0 j ≡ find b j
allow_ne b k j now h = elim (Option-cases (find b k)) [
  | inl missing ↦ rw (allow-none b k now missing)
  | inr (e, found) ↦ rw (allow-some b k now found) (allow_in_ne e.state b k j now e h)
]

success_ne : (b : Breaker) (k j : Text) → k ≢ j → find (success b k) j ≡ find b j
success_ne b k j h = elim (Option-cases (find b k)) [
  | inl missing ↦ rw (success-none b k missing)
  | inr (e, found) ↦ rw (success-some b k found) (success_of_ne b k j e h)
]

failure_ne : (b : Breaker) (k j : Text) (now : ℕ) → k ≢ j → find (failure b k now) j ≡ find b j
failure_ne b k j now h = elim (Option-cases (find b k)) [
  | inl missing ↦ rw (failure-none b k now missing) (failure_of_ne b k j now fresh_entry h)
  | inr (e, found) ↦ rw (failure-some b k now found) (failure_of_ne b k j now e h)
]

-- A call leaves the entries of other keys alone.
pub apply_ne :
    (op : Op) (b : Breaker) (k j : Text) (now : ℕ) → k ≢ j → find (apply op b k now) j ≡ find b j
apply_ne allows b k j now h = allow_ne b k j now h
apply_ne succeeds b k j now h = success_ne b k j h
apply_ne fails b k j now h = failure_ne b k j now h

allow_in-settings :
    (s : State) (b : Breaker) (k : Text) (now : ℕ) (e : Entry)
    → (allow_in s b k now e).0.settings ≡ b.settings
unfolding allow_in transition put_entry
allow_in-settings state_closed b k now e = refl
allow_in-settings _ b k now e = ground arith

-- No call writes the settings.
pub apply-settings :
    (op : Op) (b : Breaker) (k : Text) (now : ℕ) → (apply op b k now).settings ≡ b.settings
unfolding allow success failure success_of failure_of transition put_entry
apply-settings allows b k now = ground (arith, λ (e : Entry). allow_in-settings e.state b k now e)
apply-settings succeeds b k now = ground arith
apply-settings fails b k now = ground arith

pub run-settings : (b : Breaker) (cs : List Call) → (run b cs).settings ≡ b.settings
unfolding run
run-settings b [] = refl
run-settings b (c ∷ cs) =
    run-settings (apply c.op b c.key c.now) cs ∙ apply-settings c.op b c.key c.now
