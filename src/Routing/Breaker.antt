-- ===== src/Routing/Breaker.antt =====
-- gateway/internal/routing/breaker.go: the circuit breaker. A method that the code runs under the
-- lock is one function on the breaker's state, and the clock's reading is its argument.
-- A `time.Time` and a positive `time.Duration` are numbers of nanoseconds; `t.Sub(u) < d` is
-- written `t < u + d`. `changes` lists the calls of `onChange`, oldest first.
pub mod Calls
pub mod Entries
pub mod Machine
pub mod Promises
pub mod Threshold
pub mod Probing
pub mod Notifications
pub mod Reports
use cogni_gate.Prelude.{
  ℕ, ◌+◌, Bool, true, false, Option, none, some, List, [], ◌∷◌, ◌++◌, ◌&&◌, length, keep_if, ltb,
  leb, if◌then◌else◌, Text, text_dec, lookup, insert,
}

pub data State : Type 0 where
  state_closed state_open state_half_open : State

pub State-discrete : Discrete State
State-discrete = hlevel

unfoldable pub is : State → State → Bool
is state_closed state_closed = true
is state_open state_open = true
is state_half_open state_half_open = true
is _ _ = false

unfoldable pub gauge : State → ℕ
gauge state_half_open = 1
gauge state_open = 2
gauge _ = 0

unfoldable pub block_rank : State → ℕ
block_rank state_open = 2
block_rank state_half_open = 1
block_rank _ = 0

pub record Entry : Type 0 where
  pub failures : List ℕ
  pub state : State
  pub opened_at : ℕ
  pub probing : Bool

pub record Change : Type 0 where
  pub key : Text
  pub from : State
  pub to : State

-- The fields of the breaker that no method writes.
pub record Settings : Type 0 where
  pub threshold : ℕ
  pub window : ℕ
  pub open_for : ℕ

pub record Breaker : Type 0 where
  pub settings : Settings
  pub open settings use *
  pub entries : List (Text × Entry)
  pub changes : List Change

-- Settings that are not positive are 0 here.
unfoldable pub new_breaker : ℕ → ℕ → ℕ → Breaker
new_breaker threshold window open_for = record {
  entries = [];
  settings = record {
    threshold = if ltb threshold 1 then 5 else threshold;
    window = if leb window 0 then 30000000000 else window;
    open_for = if leb open_for 0 then 60000000000 else open_for;
  };
  changes = [];
}

unfoldable pub fresh_entry : Entry
fresh_entry = record { failures = []; state = state_closed; opened_at = 0; probing = false }

unfoldable pub find : Breaker → Text → Option Entry
find b key = lookup text_dec key b.entries

-- The entry is a pointer in the map: a write through it is a write to the map.
unfoldable pub put_entry : Breaker → Text → Entry → Breaker
put_entry b key e = record b { entries = insert text_dec key e b.entries }

-- The entry that `transition` leaves.
unfoldable pub moved : Entry → State → Entry
unfolding is
moved e to = record e { state = to; probing = if is to state_closed then false else e.probing }

unfoldable pub transition : Breaker → Text → Entry → State → Breaker
unfolding is
transition b key e to =
    if is e.state to
    then put_entry b key e
    else put_entry
        (record b { changes = b.changes ++ (record { key = key; from = e.state; to = to } ∷ []) })
        key (moved e to)

-- The `switch e.state` of `Allow`.
unfoldable pub allow_in : State → Breaker → Text → ℕ → Entry → Breaker × Bool
allow_in state_closed b key now e = (b, true)
allow_in state_open b key now e =
    if ltb now (e.opened_at + b.open_for)
    then (b, false)
    else (transition b key (record e { probing = true }) state_half_open, true)
allow_in state_half_open b key now e =
    if e.probing then (b, false) else (put_entry b key (record e { probing = true }), true)

unfoldable pub allow : Breaker → Text → ℕ → Breaker × Bool
unfolding allow_in
allow b key now = elim (find b key) [ none ↦ (b, true) | some e ↦ allow_in e.state b key now e ]

-- An open entry whose cool-off has elapsed reads half-open.
unfoldable pub reported : Breaker → ℕ → Entry → State
unfolding is
reported b now e =
    if is e.state state_open
    then (if ltb now (e.opened_at + b.open_for) then state_open else state_half_open)
    else e.state

-- The method `State`.
unfoldable pub state_of : Breaker → Text → ℕ → State
unfolding reported
state_of b key now = elim (find b key) [ none ↦ state_closed | some e ↦ reported b now e ]

pub record Status : Type 0 where
  pub state : State
  pub until : Option ℕ

unfoldable pub status : Breaker → ℕ → Entry → Status
unfolding reported
status b now e = record {
  state = reported b now e;
  until = elim (reported b now e) [ state_open ↦ some (e.opened_at + b.open_for) | _ ↦ none ];
}

-- The loop of `Snapshot` over the map.
unfoldable pub snapshot_from : Breaker → ℕ → List (Text × Entry) → List (Text × Status)
unfolding status is
snapshot_from b now [] = []
snapshot_from b now ((key, e) ∷ es) =
    let rest = snapshot_from b now es in
    if is (reported b now e) state_closed then rest else (key, status b now e) ∷ rest

unfoldable pub snapshot : Breaker → ℕ → List (Text × Status)
unfolding snapshot_from
snapshot b now = snapshot_from b now b.entries

unfoldable pub success_of : Breaker → Text → Entry → Breaker
unfolding is
success_of b key e =
    let e' = record e { probing = false; failures = [] } in
    if is e'.state state_closed then put_entry b key e' else transition b key e' state_closed

unfoldable pub success : Breaker → Text → Breaker
unfolding success_of
success b key = elim (find b key) [ none ↦ b | some e ↦ success_of b key e ]

-- The failures that have not aged out, and the new one.
unfoldable pub recent : ℕ → ℕ → List ℕ → List ℕ
unfolding keep_if
recent window now failures = keep_if (λ t. ltb now (t + window)) failures ++ (now ∷ [])

unfoldable pub failure_of : Breaker → Text → ℕ → Entry → Breaker
unfolding is recent
failure_of b key now e =
    if is e.state state_half_open
    then transition b key (record e { probing = false; opened_at = now }) state_open
    else (let e' = record e { failures = recent b.window now e.failures } in
        if leb b.threshold (length e'.failures) && is e'.state state_closed
        then transition b key (record e' { opened_at = now }) state_open
        else put_entry b key e')

unfoldable pub failure : Breaker → Text → ℕ → Breaker
unfolding failure_of fresh_entry
failure b key now = elim (find b key) [
  | none ↦ failure_of b key now fresh_entry
  | some e ↦ failure_of b key now e
]
