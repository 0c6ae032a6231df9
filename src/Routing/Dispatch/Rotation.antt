-- ===== src/Routing/Dispatch/Rotation.antt =====
-- A rate limited pool is walked to its end.
use cogni_gate.Prelude.{◌≡◌, refl, none, some, List, [], ◌∷◌, arith, Text}
use cogni_gate.Store.{Provider}
use cogni_gate.Provider.{fail_rate_limit, Request, Response}
use cogni_gate.Routing.Dispatch.{Upstream, State, Candidate, Attempt, judge, noted, park, try_keys}

module _ {W : Type 0} (u : Upstream W) (p : Provider) (req : Request) where
  -- The world after the request went out under each key in turn.
  unfoldable pub sent_all : W → List Text → W
  sent_all w [] = w
  sent_all w (key ∷ keys) =
      sent_all (u.send w p.kind (record { base_url = p.base_url; api_key = key }) req).world keys

  -- Each of these answers is a rate limit.
  abbrev pub AllLimited : W → List Text → Type 0
  AllLimited w [] = Unit {0}
  AllLimited w (key ∷ keys) =
      let x = u.send w p.kind (record { base_url = p.base_url; api_key = key }) req in
      ((r : Response) × (x.response ≡ some r) × (x.err ≡ none) × (r.failure ≡ fail_rate_limit))
      × AllLimited x.world keys

  park-world : (s : State W) (key : Text) (r : Response) → (park u s p key r).world ≡ s.world
  unfolding park
  park-world s key r = ground arith

  -- While every answer is a rate limit, the request goes out under each key of the pool once, in
  -- order; then the candidate counts as failed, with no response, and the chain goes on.
  pub try_keys-AllLimited :
      (s : State W) (cand : Candidate) (a : Attempt) (keys : List Text)
      → AllLimited s.world keys
      → let t = try_keys u s p cand req a keys in
        (t.state.world ≡ sent_all s.world keys) × (t.response ≡ none) × (t.fatal ≡ none)
  unfolding try_keys sent_all judge noted
  try_keys-AllLimited s cand a [] h = (refl, refl, refl)
  try_keys-AllLimited s cand a (key ∷ keys) (answer, rest) =
      let (r, responded, clean, limited) = answer in
      let x = u.send s.world p.kind (record { base_url = p.base_url; api_key = key }) req in
      let s' = park u (record s { world = x.world }) p key r in
      let same = park-world (record s { world = x.world }) key r in
      let a' = noted a x.response in
      let ih = try_keys-AllLimited s' cand a' keys (rw same rest) in
      ground (arith, ih, same, responded, clean, limited)
