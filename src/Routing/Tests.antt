-- ===== src/Routing/Tests.antt =====
-- Runs of the routing code on small inputs, and the theorems at inputs that meet their hypotheses.
use cogni_gate.Prelude.{
  ℕ, ◌≡◌, refl, true, false, some, List, [], ◌∷◌, arith, Text, text_dec, codes, lookup, insert, ltb,
  if◌then◌else◌,
}
use cogni_gate.Routing.Breaker.{
  Breaker, Entry, state_open, state_half_open, new_breaker, find, put_entry, transition, moved,
  allow, failure, recent, state_of,
}
use cogni_gate.Routing.Breaker.Calls.{Call, allows, fails, run}
use cogni_gate.Routing.Breaker.Machine.{
  IsSound, admits, advance_all, phase_of, run-Steps, allow-run,
}
use cogni_gate.Routing.Breaker.Promises.{probe_exclusive}
use cogni_gate.Routing.Breaker.Threshold.{trips_at_threshold, tripped_by, failures_for, is_failure}
use cogni_gate.Routing.Breaker.Notifications.{Told, replay, run-Told}
use cogni_gate.Routing.Breaker.Probing.{IsExact}
use cogni_gate.Routing.Breaker.Reports.{Foretells, state_of-Foretells}
use cogni_gate.Routing.BreakerKey.{key, split_key, split_key-key}

abbrev k : Text
k = codes "k"

abbrev j : Text
j = codes "j"

abbrev failing : Text → ℕ → Call
failing key now = record { key = key; op = fails; now = now }

abbrev ask : Text → ℕ → Call
ask key now = record { key = key; op = allows; now = now }

abbrev small : Breaker
small = new_breaker 2 10 20

abbrev burst : List Call
burst = failing k 5 ∷ failing j 6 ∷ failing k 7 ∷ []

small-IsSound : IsSound (find small k)
unfolding new_breaker find lookup
small-IsSound = tt

-- Two failures trip a breaker whose threshold is two, for twenty ticks.
burst_opens : state_of (run small burst) k 26 ≡ state_open
unfolding run new_breaker failure state_of find put_entry transition moved lookup insert text_dec
burst_opens = refl

burst_cools : state_of (run small burst) k 27 ≡ state_half_open
unfolding run new_breaker failure state_of find put_entry transition moved lookup insert text_dec
burst_cools = refl

allow-run_example :
    (allow (run small burst) k 9).1
    ≡ admits small.settings 9 (advance_all small.settings k burst (phase_of (find small k)))
allow-run_example = allow-run small burst k 9 small-IsSound

burst-IsSound : IsSound (find (run small burst) k)
burst-IsSound = (run-Steps small burst k small-IsSound).0

abbrev tripped_entry : Entry
tripped_entry = record { failures = 5 ∷ 7 ∷ []; state = state_open; opened_at = 7; probing = false }

tripped_found : find (run small burst) k ≡ some tripped_entry
unfolding run new_breaker failure find put_entry transition moved lookup insert text_dec recent
tripped_found = refl

probe_admitted : (allow (run small burst) k 30).1 ≡ true
unfolding run new_breaker failure allow find put_entry transition moved lookup insert text_dec
probe_admitted = refl

probe_exclusive_example :
    (allow (run (allow (run small burst) k 30).0 (ask k 31 ∷ failing j 32 ∷ [])) k 90).1 ≡ false
unfolding text_dec
probe_exclusive_example =
    probe_exclusive (run small burst) k 30 90 tripped_entry (ask k 31 ∷ failing j 32 ∷ [])
      burst-IsSound tripped_found (λ e. cc) probe_admitted
      ((λ e. refl), ((λ e. absurd (ground arith)), tt))

-- A request before each of the two failures, one of another key between, and one while the breaker is open.
trips_at_threshold_example :
    ((allow (run small (ask k 4 ∷ failing k 5 ∷ [])) k 26).1 ≡ true)
    × ((allow
          (tripped_by small k (ask k 4 ∷ failing k 5 ∷ failing j 6 ∷ ask k 6 ∷ []) 7 (ask k 9 ∷ []))
          k
          26).1
        ≡ (if ltb 26 27 then false else true))
unfolding new_breaker find lookup text_dec failures_for is_failure
trips_at_threshold_example =
    trips_at_threshold small k 5 7 26 (ask k 4 ∷ failing k 5 ∷ []) (failing j 6 ∷ ask k 6 ∷ [])
      (ask k 9 ∷ []) small-IsSound refl
      (
        (λ e. ((λ h. absurd (ground (arith, h))), λ h. absurd (ground (arith, h)))),
        (
          (λ e. ((λ h. absurd (ground (arith, h))), λ h. (omega arith, omega arith))),
          (
            (λ e. absurd (ground arith)),
            ((λ e. ((λ h. absurd (ground (arith, h))), λ h. absurd (ground (arith, h)))), tt),
          ),
        ),
      )
      (omega arith, omega arith) refl ((λ e. ((λ h. absurd (ground (arith, h))), omega arith)), tt)

run-Told_example : Told (run small burst) k
unfolding new_breaker replay find lookup
run-Told_example = run-Told small burst k refl

state_of-Foretells_example :
    IsExact (find (run small burst) k)
    × Foretells (run small burst) k 30 (find (run small burst) k) (state_of (run small burst) k 30)
unfolding new_breaker find lookup
state_of-Foretells_example = state_of-Foretells small burst k 30 tt

split_key-key_example :
    split_key (key (codes "ten_1") (codes "primary") (codes "meta/llama-3"))
    ≡ (codes "ten_1", codes "primary", codes "meta/llama-3")
split_key-key_example =
    split_key-key (codes "ten_1") (codes "primary") (codes "meta/llama-3") (omega arith)
      (omega arith)
