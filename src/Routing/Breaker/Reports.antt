-- ===== src/Routing/Breaker/Reports.antt =====
-- The read-only methods against what the next request meets.
use cogni_gate.Prelude.{
  ℕ, ◌≡◌, refl, true, false, Option, none, some, arith, Text, text_dec, List, [], ◌∷◌, lookup,
  Distinct, if◌then◌else◌,
}
use cogni_gate.Routing.Breaker.Calls.{allow-none, allow-some, transition_self, Call, run}
use cogni_gate.Routing.Breaker.Probing.{IsExact, run-IsExact}
use cogni_gate.Routing.Breaker.{
  Breaker, Entry, State, state_closed, state_open, state_half_open, find, allow, allow_in, moved,
  reported, state_of, is, Status, status, snapshot, snapshot_from,
}

state_of-none :
    (b : Breaker) (k : Text) (now : ℕ) → find b k ≡ none → state_of b k now ≡ state_closed
unfolding state_of
state_of-none b k now e = rw (e, state_of)

state_of-some :
    (b : Breaker) (k : Text) (now : ℕ) {e : Entry}
    → find b k ≡ some e
    → state_of b k now ≡ reported b now e
unfolding state_of
state_of-some b k now e = rw (e, state_of)

-- What a reported state says of the next request. Half-open, the entry is there, and its probe is out or not.
abbrev pub Foretells : Breaker → Text → ℕ → Option Entry → State → Type 0
Foretells b k now o state_closed = allow b k now ≡ (b, true)
Foretells b k now o state_open = allow b k now ≡ (b, false)
Foretells b k now none state_half_open = ⊥
Foretells b k now (some e) state_half_open =
    ((allow b k now).1 ≡ (if e.probing then false else true))
    × (find (allow b k now).0 k ≡ some (record e { state = state_half_open; probing = true }))

reported-Foretells :
    (b : Breaker) (k : Text) (now : ℕ) (e : Entry) (s : State)
    → find b k ≡ some e
    → IsExact (some e)
    → reported b now e ≡ s
    → Foretells b k now (some e) s
unfolding reported is allow_in moved
reported-Foretells b k now e state_closed found exact r = ground (arith, allow-some b k now found)
reported-Foretells b k now e state_open found exact r = ground (arith, allow-some b k now found)
reported-Foretells b k now e state_half_open found exact r = (
  ground (arith, exact, allow-some b k now found),
  ground (
    arith,
    exact,
    allow-some b k now found,
    transition_self b k (record e { probing = true }) state_half_open,
  ),
)

foretold :
    (b : Breaker) (k : Text) (now : ℕ)
    → IsExact (find b k)
    → Foretells b k now (find b k) (state_of b k now)
foretold b k now exact = by_entry (find b k) refl exact
  where
    by_entry :
        (o : Option Entry) → find b k ≡ o → IsExact o → Foretells b k now o (state_of b k now)
    by_entry none e s = rw (state_of-none b k now e) (allow-none b k now e)
    by_entry (some x) e s = rw (state_of-some b k now e) (reported-Foretells b k now x _ e s refl)

-- After any calls for any keys, from a breaker in which the probe of the key is out exactly when its entry is
-- half-open, as in a new one, that still is so, and `State` tells what a request meets at the same time: closed, it
-- passes and nothing changes; open, it is refused and nothing changes; half-open, which is also reported of an open
-- entry past its cool-off, it is admitted exactly when no probe is out, and one is out after it either way.
pub state_of-Foretells :
    (start : Breaker) (cs : List Call) (k : Text) (now : ℕ)
    → IsExact (find start k)
    → let b = run start cs in IsExact (find b k) × Foretells b k now (find b k) (state_of b k now)
state_of-Foretells start cs k now exact =
    let after = run-IsExact start cs k exact in (after, foretold (run start cs) k now after)

-- What `Snapshot` holds for one key.
unfoldable pub shown : Breaker → ℕ → Option Entry → Option Status
unfolding is
shown b now none = none
shown b now (some e) = if is (reported b now e) state_closed then none else some (status b now e)

lookup-snapshot_from :
    (b : Breaker) (k : Text) (now : ℕ) (es : List (Text × Entry))
    → Distinct text_dec es
    → lookup text_dec k (snapshot_from b now es) ≡ shown b now (lookup text_dec k es)
unfolding snapshot_from lookup shown
lookup-snapshot_from b k now [] d = refl
lookup-snapshot_from b k now ((j, e) ∷ es) d = ground (arith, lookup-snapshot_from b k now es d.1)

-- The snapshot lists every key whose reported state is not closed, with that state and, while it is
-- open, the time of its next probe, and lists no other key.
pub lookup-snapshot :
    (b : Breaker) (k : Text) (now : ℕ)
    → Distinct text_dec b.entries
    → lookup text_dec k (snapshot b now) ≡ shown b now (find b k)
unfolding snapshot find
lookup-snapshot b k now d = lookup-snapshot_from b k now b.entries d
