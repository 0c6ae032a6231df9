-- ===== src/Routing/Dispatch/Accounts.antt =====
-- What an outcome of the cascade says of the candidates tried.
use cogni_gate.Prelude.{
  ℕ, suc, ◌+◌, ◌≡◌, refl, sym, subst, Bool, Option, none, some, List, [], ◌∷◌, ◌++◌, map, arith,
  take, get_elem?, Bool-cases, inl, inr, Text,
}
use mathlib.Core.List.{append-nil, append_assoc, map-append}
use cogni_gate.Store.{Provider}
use cogni_gate.Provider.{fail_none, Request, Response, DoError, response_too_large}
use cogni_gate.Routing.Breaker.{find, allow}
use cogni_gate.Routing.Breaker.Machine.{phase_of, healthy, success-Steps}
use cogni_gate.Routing.Dispatch.Probe.{step_admitted}
use cogni_gate.Routing.Dispatch.{
  Upstream, State, Candidate, candidate_key, Attempt, Fatal, Stepped, stopped, answered, went_on,
  Prepared, unusable, not_json, ready, Outcome, served, refused, exhausted, cascade, answer, judge,
  transport_failed, noted, park, untried, try_keys, try_candidate, prepare, step, settle, proceed,
  dispatch_from, dispatch,
}

judge-answer :
    (resp : Option Response) (err : Option DoError) (a : Attempt) (r : Response)
    → judge resp err a ≡ answer r
    → r.failure ≡ fail_none
unfolding judge
judge-answer resp (some response_too_large) a r h = ground arith
judge-answer none _ a r h = ground arith
judge-answer (some q) _ a r h = ground arith

judge-cascade :
    (resp : Option Response) (err : Option DoError) (a a' : Attempt)
    → judge resp err a ≡ cascade a'
    → a'.candidate ≡ a.candidate
unfolding judge
judge-cascade resp (some response_too_large) a a' h = ground arith
judge-cascade none _ a a' h = ground arith
judge-cascade (some q) _ a a' h = ground arith

noted-candidate : (a : Attempt) (r : Option Response) → (noted a r).candidate ≡ a.candidate
unfolding noted
noted-candidate a none = refl
noted-candidate a (some r) = refl

module _ {W : Type 0} (u : Upstream W) where
  -- A response is returned only where its exchange succeeded, and the attempt is the candidate's.
  try_keys_sound :
      (s : State W) (p : Provider) (cand : Candidate) (req : Request) (a : Attempt)
      (keys : List Text)
      → let t = try_keys u s p cand req a keys in
        (t.attempt.candidate ≡ a.candidate)
        × ((r : Response) → t.response ≡ some r → r.failure ≡ fail_none)
  unfolding try_keys
  try_keys_sound s p cand req a [] = (refl, λ r e. cc)
  try_keys_sound s p cand req a (key ∷ keys) =
      let x = u.send s.world p.kind (record { base_url = p.base_url; api_key = key }) req in
      let s' : State W = record s { world = x.world } in
      let a' = noted a x.response in
      grind (
        arith,
        judge-answer x.response x.err a',
        judge-cascade x.response x.err a',
        noted-candidate a x.response,
        λ (r : Response). try_keys_sound (park u s' p key r) p cand req a' keys,
      )

  try_candidate_sound :
      (s : State W) (p : Provider) (cand : Candidate) (req : Request)
      → let t = try_candidate u s p cand req in
        (t.attempt.candidate ≡ cand)
        × ((r : Response) → t.response ≡ some r → r.failure ≡ fail_none)
  unfolding try_candidate untried
  try_candidate_sound s p cand req = try_keys_sound _ p cand req _ _

  abbrev pub of_all : List Attempt → List Candidate
  of_all = map (λ (a : Attempt). a.candidate)

  -- What a step of the loop says of its candidate.
  abbrev Steps : Candidate → State W × Stepped → Type 0
  Steps cand (s, stopped f) = Unit {0}
  Steps cand (s, answered r a) =
      (a.candidate ≡ cand)
      × (r.failure ≡ fail_none)
      × (phase_of (find s.breaker (candidate_key cand)) ≡ healthy [])
  Steps cand (s, went_on a) = a.candidate ≡ cand

  settle-Steps :
      (cand : Candidate) (at : ℕ) (s : State W) (r : Option Response) (a : Attempt)
      (f : Option Fatal)
      → a.candidate ≡ cand
      → ((q : Response) → r ≡ some q → q.failure ≡ fail_none)
      → Steps cand (settle cand at s r a f)
  unfolding settle
  settle-Steps cand at s r a (some f) e h = tt
  settle-Steps cand at s (some r) a none e h =
      (e, h r refl, (success-Steps s.breaker (candidate_key cand) at _ refl).1)
  settle-Steps cand at s none a none e h = e

  proceed-Steps :
      (s : State W) (cand : Candidate) (stream : Bool) (path : Text) (x : Prepared)
      → Steps cand (proceed u s cand stream path x)
  unfolding proceed transport_failed untried
  proceed-Steps s cand stream path unusable = refl
  proceed-Steps s cand stream path not_json = tt
  proceed-Steps s cand stream path (ready p body) =
      let req : Request = record {
        model = cand.model;
        body = body;
        stream = stream;
        path = path;
      } in
      let t = try_candidate u s p cand req in
      let sound = try_candidate_sound s p cand req in
      settle-Steps cand (u.now t.state.world) t.state t.response t.attempt t.fatal sound.0 sound.1

  module _ (providers : List Provider) (body : Text) (stream : Bool) (path : Text) where
    step-Steps :
        (s : State W) (cand : Candidate) → Steps cand (step u s providers cand body stream path)
    unfolding step untried
    step-Steps s cand = elim (Bool-cases (allow s.breaker (candidate_key cand) (u.now s.world)).1) [
      | inl leave ↦
          subst (Steps cand) (sym (step_admitted u providers body stream path s cand leave))
            (proceed-Steps _ cand stream path (prepare u providers cand body))
      | inr no_leave ↦ rw (no_leave, step) refl
    ]

    -- What the loop's outcome says, from `depth` and the attempts before.
    abbrev pub Accounts : ℕ → List Attempt → List Candidate → State W × Outcome → Type 0
    Accounts depth before cands (s, served r c d tried) =
        (n : ℕ) × (d ≡ depth + n)
        × (get_elem? cands n ≡ some c)
        × (of_all tried ≡ of_all before ++ take (suc n) cands)
        × (r.failure ≡ fail_none)
        × (phase_of (find s.breaker (candidate_key c)) ≡ healthy [])
    Accounts depth before cands (s, refused f) = Unit {0}
    Accounts depth before cands (s, exhausted tried) = of_all tried ≡ of_all before ++ cands

    next-Accounts :
        (depth : ℕ) (before : List Attempt) (a : Attempt) (cand : Candidate)
        (cands : List Candidate) (o : State W × Outcome)
        → a.candidate ≡ cand
        → Accounts (suc depth) (before ++ (a ∷ [])) cands o
        → Accounts depth before (cand ∷ cands) o
    next-Accounts depth before a cand cands (s, served r c d tried) e (n, dn, at, all, ok, ph) = (
      suc n,
      omega arith,
      at,
      ground (
        arith,
        map-append (λ (x : Attempt). x.candidate) before (a ∷ []),
        append_assoc (of_all before) (cand ∷ []) (take (suc n) cands),
      ),
      ok,
      ph,
    )
    next-Accounts depth before a cand cands (s, refused f) e h = tt
    next-Accounts depth before a cand cands (s, exhausted tried) e h = ground (
      arith,
      map-append (λ (x : Attempt). x.candidate) before (a ∷ []),
      append_assoc (of_all before) (cand ∷ []) cands,
    )

    dispatch_from-Accounts :
        (s : State W) (depth : ℕ) (before : List Attempt) (cands : List Candidate)
        → Accounts depth before cands
            (dispatch_from u s providers body stream path depth before cands)
    unfolding dispatch_from
    dispatch_from-Accounts s depth before [] = sym (append-nil (of_all before))
    dispatch_from-Accounts s depth before (cand ∷ cands) =
        go (step u s providers cand body stream path) (step-Steps s cand)
          (λ s' a. dispatch_from-Accounts s' (suc depth) (before ++ (a ∷ [])) cands)
      where
        go :
            (x : State W × Stepped)
            → Steps cand x
            → ((s' : State W) (a : Attempt)
                → Accounts (suc depth) (before ++ (a ∷ [])) cands (
                    dispatch_from u s' providers body stream path
                      (suc depth)
                      (before ++ (a ∷ []))
                      cands))
            → Accounts depth before (cand ∷ cands) (elim x.1 [
              | stopped f ↦ (x.0, refused f)
              | answered resp a ↦ (x.0, served resp cand depth (before ++ (a ∷ [])))
              | went_on a ↦
                  dispatch_from u x.0 providers body stream path
                    (suc depth)
                    (before ++ (a ∷ []))
                    cands
            ])
        go (s', stopped f) h rest = tt
        go (s', answered r a) h rest = (
          0,
          omega arith,
          refl,
          ground (arith, h, map-append (λ (x : Attempt). x.candidate) before (a ∷ [])),
          h.1,
          h.2,
        )
        go (s', went_on a) h rest =
            next-Accounts depth before a cand cands
              (dispatch_from u s' providers body stream path (suc depth) (before ++ (a ∷ [])) cands)
              h (rest s' a)

    -- A dispatch that serves does so with a response that its adapter classified as a success, by the
    -- candidate at the reported depth; it tried exactly the candidates up to that one, in order, and
    -- leaves that candidate's breaker closed with no failures on record. A dispatch that exhausts
    -- the chain tried every candidate once, in order.
    pub dispatch-Accounts :
        (s : State W) (cands : List Candidate)
        → Accounts 0 [] cands (dispatch u s providers cands body stream path)
    unfolding dispatch
    dispatch-Accounts s cands = dispatch_from-Accounts s 0 [] cands
