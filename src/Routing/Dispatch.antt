-- ===== src/Routing/Dispatch.antt =====
-- gateway/internal/routing/dispatch.go: the cascade. What is not the gateway's own is a parameter:
-- the upstream behind the adapters with the clock beside it, the JSON codec and the parsers of a
-- Retry-After header. The clock is read between upstream calls and advances at them. Latencies and
-- error texts go to the log only and are left out of an `Attempt`.
pub mod Probe
pub mod Cascade
pub mod Accounts
pub mod Rotation
mod Tests
use cogni_gate.Prelude.{
  ℕ, suc, ◌+◌, ◌-◌, ◌*◌, ◌%◌, ◌^◌, Bool, true, false, not, ◌||◌, Option, none, some, List, [], ◌∷◌,
  ◌++◌, ltb, ◌==◌, if◌then◌else◌, length, Text, text_eq,
}
use cogni_gate.Store.{Provider}
use cogni_gate.Provider.{
  FailureKind, fail_none, fail_transport, fail_server, fail_rate_limit, fail_client, Credential,
  Request, Response, DoError, response_too_large, other_error,
}
use cogni_gate.Routing.Breaker.{Breaker, allow, success, failure}
use cogni_gate.Routing.BreakerKey
use cogni_gate.Routing.KeyPool.{Pools, key_order, cool_key, ready_keys}

-- The catalog entry is kept for pricing and not read here.
pub record Candidate : Type 0 where
  pub tenant_id : Text
  pub provider : Text
  pub provider_id : Text
  pub model : Text

unfoldable pub candidate_key : Candidate → Text
candidate_key c = BreakerKey.key c.tenant_id c.provider c.model

pub record Attempt : Type 0 where
  pub candidate : Candidate
  pub failure : FailureKind
  pub status : ℕ
  pub skipped : Bool

-- What does not cascade.
pub data Fatal : Type 0 where
  too_large : Fatal
  client_error : Response → Fatal
  invalid_json : Fatal

pub record Exchange (W : Type 0) : Type 0 where
  pub world : W
  pub response : Option Response
  pub err : Option DoError

pub record Upstream (W : Type 0) : Type 0 where
  pub now : W → ℕ
  -- `registry.Get`: whether a kind has an adapter.
  pub has_adapter : Text → Bool
  -- `adapter.Do` of the adapter for a kind.
  pub send : W → Text → Credential → Request → Exchange W
  -- `withModel`: the body naming the resolved model, or none where it is not a JSON object.
  pub with_model : Text → Text → Option Text
  -- strings.TrimSpace, strconv.Atoi on what it reads as positive, http.ParseTime.
  pub trim_space : Text → Text
  pub atoi : Text → Option ℕ
  pub parse_time : Text → Option ℕ

-- The dispatcher's fields that it writes, and the world.
pub record State (W : Type 0) : Type 0 where
  pub world : W
  pub breaker : Breaker
  pub pools : Pools

pub record Tried (W : Type 0) : Type 0 where
  pub state : State W
  pub response : Option Response
  pub attempt : Attempt
  pub fatal : Option Fatal

pub data Outcome : Type 0 where
  served : Response → Candidate → ℕ → List Attempt → Outcome
  refused : Fatal → Outcome
  exhausted : List Attempt → Outcome

unfoldable pub find_provider : Text → List Provider → Option Provider
find_provider id [] = none
find_provider id (p ∷ ps) = elim (find_provider id ps) [
  | none ↦ if text_eq p.id id then some p else none
  | some q ↦ some q
]

-- An int64 product, where a negative result counts as no wait.
unfoldable pub positive_int64 : ℕ → ℕ
positive_int64 n = let v = n % 2 ^ 64 in if ltb v (2 ^ 63) then v else 0

module _ {W : Type 0} (u : Upstream W) where
  open u use {now, trim_space, atoi, parse_time}

  -- Zero for an absent, unreadable or past header. A delay in seconds that is not positive is 0.
  unfoldable pub retry_after : Option Text → ℕ → ℕ
  retry_after none at = 0
  retry_after (some header) at =
      let v = trim_space header in
      elim v [
        | [] ↦ 0
        | c ∷ cs ↦ elim (atoi (c ∷ cs)) [
          | some secs ↦ positive_int64 (secs * 1000000000)
          | none ↦ elim (parse_time (c ∷ cs)) [ none ↦ 0 | some t ↦ t - at ]
        ]
      ]

  -- Parks the key where the answer says how long to wait.
  unfoldable pub park : State W → Provider → Text → Response → State W
  unfolding retry_after
  park s p key resp =
      let wait = retry_after resp.retry_after (now s.world) in
      if ltb 0 wait then record s { pools = cool_key s.pools p.id key (now s.world + wait) } else s

-- The attempt, with the answer's status and failure filled in.
unfoldable pub noted : Attempt → Option Response → Attempt
noted a none = a
noted a (some r) = record a { failure = r.failure; status = r.status_code }

unfoldable pub transport_failed : Attempt → Attempt
transport_failed a = record a { failure = fail_transport }

-- The `switch` of `tryCandidate` on one exchange.
pub data Verdict : Type 0 where
  give_up : Fatal → Verdict
  cascade : Attempt → Verdict
  answer : Response → Verdict
  next_key : Response → Verdict

judge_failure : FailureKind → Response → Attempt → Verdict
judge_failure fail_none r a = answer r
judge_failure fail_client r a = give_up (client_error r)
judge_failure fail_rate_limit r a = next_key r
judge_failure _ r a = cascade a

is_transport : FailureKind → Bool
is_transport fail_transport = true
is_transport _ = false

unfoldable pub judge : Option Response → Option DoError → Attempt → Verdict
unfolding judge_failure is_transport transport_failed
judge resp (some response_too_large) a = give_up too_large
judge none _ a = cascade (transport_failed a)
judge (some r) (some other_error) a =
    if is_transport r.failure then cascade (transport_failed a) else judge_failure r.failure r a
judge (some r) none a = judge_failure r.failure r a

unfoldable pub untried : Candidate → Attempt
untried cand = record { candidate = cand; failure = fail_none; status = 0; skipped = false }

pub data Prepared : Type 0 where
  unusable not_json : Prepared
  ready : Provider → Text → Prepared

pub data Stepped : Type 0 where
  stopped : Fatal → Stepped
  answered : Response → Attempt → Stepped
  went_on : Attempt → Stepped

-- The breaker hears of a success, or of a failure that cascades; of a fatal answer it does not.
unfoldable pub settle :
    {W : Type 0}
    → Candidate
    → ℕ
    → State W
    → Option Response
    → Attempt
    → Option Fatal
    → State W × Stepped
settle cand at s response a (some f) = (s, stopped f)
settle cand at s (some r) a none =
    (record s { breaker = success s.breaker (candidate_key cand) }, answered r a)
settle cand at s none a none =
    (record s { breaker = failure s.breaker (candidate_key cand) at }, went_on a)

module _ {W : Type 0} (u : Upstream W) where
  open u use {now, has_adapter, send, with_model}

  -- The loop of `tryCandidate` over the keys.
  unfoldable pub try_keys : State W → Provider → Candidate → Request → Attempt → List Text → Tried W
  unfolding judge noted
  try_keys s p cand req attempt [] = record {
    state = s;
    response = none;
    attempt = attempt;
    fatal = none;
  }
  try_keys s p cand req attempt (key ∷ keys) =
      let x = send s.world p.kind (record { base_url = p.base_url; api_key = key }) req in
      let s' = record s { world = x.world } in
      let a = noted attempt x.response in
      elim (judge x.response x.err a) [
        | give_up f ↦ record { state = s'; response = none; attempt = a; fatal = some f }
        | cascade a' ↦ record { state = s'; response = none; attempt = a'; fatal = none }
        | answer r ↦ record { state = s'; response = some r; attempt = a; fatal = none }
        | next_key r ↦ try_keys (park u s' p key r) p cand req a keys
      ]

  unfoldable pub try_candidate : State W → Provider → Candidate → Request → Tried W
  try_candidate s p cand req =
      let (pools, order) = key_order s.pools p in
      let (pools', order') = ready_keys pools p.id (now s.world) order in
      try_keys (record s { pools = pools' }) p cand req (untried cand) order'

  -- The guards between the breaker and the upstream call: the provider and the body to send, or the
  -- early `continue` or `return`.
  unfoldable pub prepare : List Provider → Candidate → Text → Prepared
  prepare providers cand body = elim (find_provider cand.provider_id providers) [
    | none ↦ unusable
    | some p ↦
        if not p.enabled || length p.keys == 0
        then unusable
        else if has_adapter p.kind
        then (elim (with_model body cand.model) [ none ↦ not_json | some b ↦ ready p b ])
        else unusable
  ]

  -- The rest of the loop's body, for a candidate that the breaker admitted.
  unfoldable pub proceed : State W → Candidate → Bool → Text → Prepared → State W × Stepped
  unfolding settle
  proceed s cand stream path unusable = (s, went_on (transport_failed (untried cand)))
  proceed s cand stream path not_json = (s, stopped invalid_json)
  proceed s cand stream path (ready p body) =
      let req : Request = record {
        model = cand.model;
        body = body;
        stream = stream;
        path = path;
      } in
      let t = try_candidate s p cand req in
      settle cand (now t.state.world) t.state t.response t.attempt t.fatal

  -- What `Dispatch` does with one candidate: the outcome that ends the cascade, or the attempt.
  unfoldable pub step : State W → List Provider → Candidate → Text → Bool → Text → State W × Stepped
  step s providers cand body stream path =
      let (b, ok) = allow s.breaker (candidate_key cand) (now s.world) in
      let s' = record s { breaker = b } in
      if ok
      then proceed s' cand stream path (prepare providers cand body)
      else (s', went_on (record (untried cand) { skipped = true }))

  -- The loop of `Dispatch`.
  unfoldable pub dispatch_from :
      State W
      → List Provider
      → Text
      → Bool
      → Text
      → ℕ
      → List Attempt
      → List Candidate
      → State W × Outcome
  dispatch_from s providers body stream path depth attempts [] = (s, exhausted attempts)
  dispatch_from s providers body stream path depth attempts (cand ∷ cands) =
      let (s', r) = step s providers cand body stream path in
      elim r [
        | stopped f ↦ (s', refused f)
        | answered resp a ↦ (s', served resp cand depth (attempts ++ (a ∷ [])))
        | went_on a ↦
            dispatch_from s' providers body stream path (suc depth) (attempts ++ (a ∷ [])) cands
      ]

  -- `Dispatch` after resolution and `ListProviders`.
  unfoldable pub dispatch :
      State W → List Provider → List Candidate → Text → Bool → Text → State W × Outcome
  unfolding dispatch_from
  dispatch s providers candidates body stream path =
      dispatch_from s providers body stream path 0 [] candidates
