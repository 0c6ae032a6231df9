-- ===== src/Routing/Dispatch/Probe.antt =====
-- A half-open breaker waits for its probe's outcome, and `Dispatch` has paths that report none.
use cogni_gate.Prelude.{
  ℕ, suc, ◌+◌, ◌≤◌, ◌≡◌, ◌≢◌, refl, sym, subst, inl, inr, ◌⊎◌, Bool, true, false, Option, none,
  some, List, [], ◌∷◌, ◌++◌, arith, Bool-cases, Text, text_dec,
}
use cogni_gate.Store.{Provider}
use cogni_gate.Provider.{Request, Response}
use cogni_gate.Routing.Breaker.{Breaker, Entry, state_open, find, allow}
use cogni_gate.Routing.Breaker.Calls.{Op, allows, succeeds, fails, apply, apply_ne}
use cogni_gate.Routing.Breaker.Machine.{
  awaiting, advance, admits, phase_of, IsSound, apply-Steps, call-Follows, allow-admits,
}
use cogni_gate.Routing.Dispatch.{
  Upstream, State, Candidate, candidate_key, Attempt, Fatal, Stepped, stopped, Prepared, unusable,
  not_json, ready, noted, park, untried, try_keys, try_candidate, prepare, step, settle, proceed,
  dispatch_from, dispatch,
}

-- The breaker of `k` waits for the outcome of a probe.
pub record Frozen (k : Text) (b : Breaker) : Type 0 where
  pub sound : IsSound (find b k)
  pub waits : phase_of (find b k) ≡ awaiting

Frozen-allow : (k j : Text) (b : Breaker) (now : ℕ) → Frozen k b → Frozen k (allow b j now).0
unfolding advance
Frozen-allow k j b now f =
    let step = call-Follows b (record { key = j; op = allows; now = now }) k f.sound in
    record { sound = step.0; waits = ground (arith, step.1) }

Frozen-ne :
    (k j : Text) (op : Op) (b : Breaker) (now : ℕ)
    → j ≢ k
    → Frozen k b
    → Frozen k (apply op b j now)
Frozen-ne k j op b now other f =
    let same = apply_ne op b j k now other in
    record { sound = rw same f.sound; waits = rw same f.waits }

pub Frozen-refuses : (k : Text) (b : Breaker) (now : ℕ) → Frozen k b → (allow b k now).1 ≡ false
unfolding admits
Frozen-refuses k b now f = ground (arith, allow-admits b k now f.sound)

module _ {W : Type 0} (u : Upstream W) where
  park-breaker :
      (s : State W) (p : Provider) (key : Text) (r : Response)
      → (park u s p key r).breaker ≡ s.breaker
  unfolding park
  park-breaker s p key r = ground arith

  -- Upstream calls leave the breaker alone.
  try_keys-breaker :
      (s : State W) (p : Provider) (cand : Candidate) (req : Request) (a : Attempt)
      (keys : List Text)
      → (try_keys u s p cand req a keys).state.breaker ≡ s.breaker
  unfolding try_keys
  try_keys-breaker s p cand req a [] = refl
  try_keys-breaker s p cand req a (key ∷ keys) =
      let x = u.send s.world p.kind (record { base_url = p.base_url; api_key = key }) req in
      let s' : State W = record s { world = x.world } in
      grind (
        arith,
        λ (r : Response). try_keys-breaker (park u s' p key r) p cand req (noted a x.response) keys,
        λ (r : Response). park-breaker s' p key r,
      )

  try_candidate-breaker :
      (s : State W) (p : Provider) (cand : Candidate) (req : Request)
      → (try_candidate u s p cand req).state.breaker ≡ s.breaker
  unfolding try_candidate
  try_candidate-breaker s p cand req = try_keys-breaker _ p cand req (untried cand) _

settle-Frozen :
    {W : Type 0} (k : Text) (cand : Candidate) (at : ℕ) (s : State W) (r : Option Response)
    (a : Attempt) (f : Option Fatal)
    → candidate_key cand ≢ k
    → Frozen k s.breaker
    → Frozen k (settle cand at s r a f).0.breaker
unfolding settle
settle-Frozen k cand at s r a (some f) other z = z
settle-Frozen k cand at s (some r) a none other z =
    Frozen-ne k (candidate_key cand) succeeds s.breaker at other z
settle-Frozen k cand at s none a none other z =
    Frozen-ne k (candidate_key cand) fails s.breaker at other z

proceed-Frozen :
    {W : Type 0} (u : Upstream W) (k : Text) (s : State W) (cand : Candidate) (stream : Bool)
    (path : Text) (x : Prepared)
    → candidate_key cand ≢ k
    → Frozen k s.breaker
    → Frozen k (proceed u s cand stream path x).0.breaker
unfolding proceed
proceed-Frozen u k s cand stream path unusable other z = z
proceed-Frozen u k s cand stream path not_json other z = z
proceed-Frozen u k s cand stream path (ready p body) other z =
    let req : Request = record { model = cand.model; body = body; stream = stream; path = path } in
    let t = try_candidate u s p cand req in
    settle-Frozen k cand (u.now t.state.world) t.state t.response t.attempt t.fatal other
      (subst (Frozen k) (sym (try_candidate-breaker u s p cand req)) z)

module _ {W : Type 0} (u : Upstream W) (providers : List Provider) (body : Text) (stream : Bool)
    (path : Text) where
  -- The breaker after a step, when the step was refused by it or ended with no report to it.
  step_refused :
      (s : State W) (cand : Candidate)
      → (allow s.breaker (candidate_key cand) (u.now s.world)).1 ≡ false
      → (step u s providers cand body stream path).0.breaker
        ≡ (allow s.breaker (candidate_key cand) (u.now s.world)).0
  unfolding step
  step_refused s cand no_leave = ground arith

  pub step_admitted :
      (s : State W) (cand : Candidate)
      → (allow s.breaker (candidate_key cand) (u.now s.world)).1 ≡ true
      → step u s providers cand body stream path
        ≡ proceed u
            (record s { breaker = (allow s.breaker (candidate_key cand) (u.now s.world)).0 })
            cand
            stream
            path
            (prepare u providers cand body)
  unfolding step
  step_admitted s cand leave = ground arith

  step-Frozen :
      (k : Text) (s : State W) (cand : Candidate)
      → Frozen k s.breaker
      → Frozen k (step u s providers cand body stream path).0.breaker
  step-Frozen k s cand z = elim (text_dec (candidate_key cand) k) [
    | yes same ↦
        let allowed = Frozen-allow k (candidate_key cand) s.breaker (u.now s.world) z in
        let no_leave =
          Frozen-refuses (candidate_key cand) s.breaker (u.now s.world)
            (subst (λ j. Frozen j s.breaker) (sym same) z) in
        subst (Frozen k) (sym (step_refused s cand no_leave)) allowed
    | no other ↦
        let allowed = Frozen-allow k (candidate_key cand) s.breaker (u.now s.world) z in
        elim (Bool-cases (allow s.breaker (candidate_key cand) (u.now s.world)).1) [
          | inl leave ↦
              rw (step_admitted s cand leave) (
                proceed-Frozen u k _ cand stream path (prepare u providers cand body) other allowed)
          | inr no_leave ↦ subst (Frozen k) (sym (step_refused s cand no_leave)) allowed
        ]
  ]

  dispatch_from-Frozen :
      (k : Text) (s : State W) (depth : ℕ) (attempts : List Attempt) (cands : List Candidate)
      → Frozen k s.breaker
      → Frozen k (dispatch_from u s providers body stream path depth attempts cands).0.breaker
  unfolding dispatch_from
  dispatch_from-Frozen k s depth attempts [] z = z
  dispatch_from-Frozen k s depth attempts (cand ∷ cands) z =
      let s' = (step u s providers cand body stream path).0 in
      grind (
        arith,
        step-Frozen k s cand z,
        λ (a : Attempt).
            dispatch_from-Frozen k s' (suc depth) (attempts ++ (a ∷ [])) cands
              (step-Frozen k s cand z),
      )

-- A later request: the world it finds, and what it was resolved to.
pub record Job (W : Type 0) : Type 0 where
  pub world : W
  pub providers : List Provider
  pub candidates : List Candidate
  pub body : Text
  pub stream : Bool
  pub path : Text

module _ {W : Type 0} (u : Upstream W) where
  -- Requests one after the other.
  unfoldable pub serve : State W → List (Job W) → State W
  serve s [] = s
  serve s (j ∷ js) =
      serve
        (dispatch u (record s { world = j.world }) j.providers j.candidates j.body j.stream
          j.path).0
        js

  serve-Frozen :
      (k : Text) (s : State W) (js : List (Job W))
      → Frozen k s.breaker
      → Frozen k (serve s js).breaker
  unfolding serve dispatch
  serve-Frozen k s [] z = z
  serve-Frozen k s (j ∷ js) z =
      serve-Frozen k
        (dispatch u (record s { world = j.world }) j.providers j.candidates j.body j.stream
          j.path).0
        js
        (dispatch_from-Frozen u j.providers j.body j.stream j.path k (record s { world = j.world })
          0 [] j.candidates z)

  -- The paths of the loop on which an admitted candidate's breaker hears nothing.
  abbrev pub Unreported : Prepared → Stepped → Type 0
  Unreported x r = (x ≡ unusable) ⊎ ((f : Fatal) × (r ≡ stopped f))

  proceed-Unreported :
      (s : State W) (cand : Candidate) (stream : Bool) (path : Text) (x : Prepared)
      → Unreported x (proceed u s cand stream path x).1
      → (proceed u s cand stream path x).0.breaker ≡ s.breaker
  unfolding proceed settle
  proceed-Unreported s cand stream path unusable h = refl
  proceed-Unreported s cand stream path not_json h = refl
  proceed-Unreported s cand stream path (ready p body) h =
      let req : Request = record {
        model = cand.model;
        body = body;
        stream = stream;
        path = path;
      } in
      ground (arith, try_candidate-breaker u s p cand req)

  -- A breaker past its cool-off admits a candidate as its probe. Where the provider turns out to be
  -- unusable, or the answer does not cascade (a 4xx, an oversized response, a body that is not
  -- JSON), the breaker hears nothing, and from then on no dispatch of any requests at any time
  -- brings the candidate back: every request to it is refused.
  pub lost_probe_blocks :
      (providers : List Provider) (body : Text) (stream : Bool) (path : Text) (s : State W)
      (cand : Candidate) (e : Entry) (js : List (Job W)) (later : ℕ)
      → find s.breaker (candidate_key cand) ≡ some e
      → e.state ≡ state_open
      → e.opened_at + s.breaker.open_for ≤ u.now s.world
      → let t = step u s providers cand body stream path in
        Unreported (prepare u providers cand body) t.1
        → (allow (serve t.0 js).breaker (candidate_key cand) later).1 ≡ false
  unfolding admits advance
  lost_probe_blocks providers body stream path s cand e js later found is_open past h =
      let k = candidate_key cand in
      let now = u.now s.world in
      let sound : IsSound (find s.breaker k) = ground arith in
      let leave : (allow s.breaker k now).1 ≡ true =
        ground (arith, allow-admits s.breaker k now sound) in
      let taken = apply-Steps allows s.breaker k now sound in
      let s' : State W = record s { breaker = (allow s.breaker k now).0 } in
      let x = prepare u providers cand body in
      let same = step_admitted u providers body stream path s cand leave in
      let kept = proceed-Unreported s' cand stream path x (rw same at h) in
      let frozen : Frozen k (allow s.breaker k now).0 = record {
        sound = taken.0;
        waits = ground (arith, taken.1);
      } in
      Frozen-refuses k _ later (serve-Frozen k _ js (rw same (subst (Frozen k) (sym kept) frozen)))
