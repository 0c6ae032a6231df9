-- ===== src/Server/Completions/Replays.antt =====
-- Whose answers gateway/internal/server/chat.go replays.
use cogni_gate.Prelude.{
  ℕ, ◌≡◌, ◌≢◌, ◌∙◌, List, [], ◌∷◌, ◌++◌, Bool, true, false, Option, none, some, Text, text_eq,
  if◌then◌else◌, refl, sym, ap, arith, inl, inr, ◌⊎◌, All,
}
use cogni_gate.Cache.{Cache, Entry, get}
use cogni_gate.Routing.Dispatch.{Candidate}
use cogni_gate.Routing.Resolve.{served_by}
use cogni_gate.Server.Completions.{
  Completion, replayed, entry_for, reply_of, store_answer, after_lookup, complete_by, cache_key_for,
  completion, completions,
}
use cogni_gate.Server.Completions.Stored.{Holds, get-Holds, get-P, put-Holds}

abbrev pub NulFree : Text → Type 0
NulFree t = All (λ (c : ℕ). c ≢ 0) t

pub nul_split :
    (s s' t t' : Text)
    → NulFree s
    → NulFree s'
    → s ++ (0 ∷ t) ≡ s' ++ (0 ∷ t')
    → (s ≡ s') × (t ≡ t')
nul_split [] [] t t' h h' e = (refl, ground (arith, e))
nul_split [] (c ∷ s') t t' h h' e = absurd (ground (arith, e, h'))
nul_split (c ∷ s) [] t t' h h' e = absurd (ground (arith, e, h))
nul_split (c ∷ s) (d ∷ s') t t' h h' e =
    let first : c ≡ d = ground (arith, e) in
    let rest : s ++ (0 ∷ t) ≡ s' ++ (0 ∷ t') = ground (arith, e) in
    let next = nul_split s s' t t' h.1 h'.1 rest in (ground (arith, first, next.0), next.1)

module _ (canonicalize : Text → Option Text) (digest : Text → Text) where
  -- A request whose dispatch gave an entry under a key.
  abbrev pub Answers : Text → Entry → Completion → Type 0
  Answers k e r =
      (cand : Candidate) × (body : Text) × (r.answer ≡ some (cand, body))
      × (e ≡ entry_for cand body)
      × (cache_key_for canonicalize digest r ≡ some (k, served_by cand))

  abbrev pub Answered : List Completion → Text → Entry → Type 0
  Answered [] k e = ⊥
  Answered (r ∷ rs) k e = Answers k e r ⊎ Answered rs k e

  same_text : (s t : Text) → text_eq s t ≡ true → s ≡ t
  same_text s t h = ground (arith, h)

  guarded-Holds :
      (P : Text → Entry → Type 0) (b : Bool) (x y : Cache)
      → (b ≡ true → Holds P x)
      → Holds P y
      → Holds P (if b then x else y)
  guarded-Holds P true x y hx hy = hx refl
  guarded-Holds P false x y hx hy = hy

  store_answer-Holds :
      (P : Text → Entry → Type 0) (r : Completion) (key served : Text) (c : Cache)
      → cache_key_for canonicalize digest r ≡ some (key, served)
      → ((k : Text) (e : Entry) → Answers k e r → P k e)
      → Holds P c
      → Holds P (store_answer r key served r.answer c)
  unfolding store_answer
  store_answer-Holds P r key served c keyed ok h = go r.answer refl
    where
      go : (a : Option (Candidate × Text)) → r.answer ≡ a → Holds P (store_answer r key served a c)
      go none e = h
      go (some (cand, body)) e =
          guarded-Holds P (text_eq (served_by cand) served) _ c
            (λ same.
              put-Holds P c r.tenant_id key (entry_for cand body) r.plan.ttl r.answered_at
                (ok key (entry_for cand body) (
                  cand,
                  body,
                  e,
                  refl,
                  keyed ∙ ap (λ s. some (key, s)) (sym (same_text (served_by cand) served same)),
                ))
                h)
            h

  after_lookup-Holds :
      (P : Text → Entry → Type 0) (r : Completion) (key served : Text)
      (found : Cache × Option Entry)
      → cache_key_for canonicalize digest r ≡ some (key, served)
      → ((k : Text) (e : Entry) → Answers k e r → P k e)
      → Holds P found.0
      → Holds P (after_lookup r key served found).1
  unfolding after_lookup
  after_lookup-Holds P r key served (c, some e) keyed ok h = h
  after_lookup-Holds P r key served (c, none) keyed ok h =
      store_answer-Holds P r key served c keyed ok h

  completion-Holds :
      (P : Text → Entry → Type 0) (r : Completion) (c : Cache)
      → ((k : Text) (e : Entry) → Answers k e r → P k e)
      → Holds P c
      → Holds P (completion canonicalize digest r c).1
  unfolding completion complete_by
  completion-Holds P r c ok h = go (cache_key_for canonicalize digest r) refl
    where
      go :
          (o : Option (Text × Text))
          → cache_key_for canonicalize digest r ≡ o
          → Holds P (complete_by r o c).1
      go none e = h
      go (some (key, served)) e =
          after_lookup-Holds P r key served (get c key r.asked_at) e ok
            (get-Holds P c key r.asked_at h)

  pub completions-Holds :
      (P : Text → Entry → Type 0) (rs : List Completion) (c : Cache)
      → ((k : Text) (e : Entry) → Answered rs k e → P k e)
      → Holds P c
      → Holds P (completions canonicalize digest rs c)
  unfolding completions
  completions-Holds P [] c ok h = h
  completions-Holds P (r ∷ rs) c ok h =
      completions-Holds P rs _ (λ k e a. ok k e (inr a))
        (completion-Holds P r c (λ k e a. ok k e (inl a)) h)

  after_lookup-replayed :
      (r : Completion) (key served : Text) (found : Cache × Option Entry) (e : Entry)
      → (after_lookup r key served found).0 ≡ replayed e
      → found.1 ≡ some e
  unfolding after_lookup reply_of
  after_lookup-replayed r key served (c, some x) e h = ground (arith, h)
  after_lookup-replayed r key served (c, none) e h = go r.answer h
    where
      go : (a : Option (Candidate × Text)) → reply_of a ≡ replayed e → none ≡ some e
      go none g = absurd (ground (arith, g))
      go (some (cand, body)) g = absurd (ground (arith, g))

  unkeyed : (a : Option (Candidate × Text)) (e : Entry) → reply_of a ≢ replayed e
  unfolding reply_of
  unkeyed none e g = ground (arith, g)
  unkeyed (some (cand, body)) e g = ground (arith, g)

  -- What a replay shows of the key.
  pub replayed-keyed :
      (P : Text → Entry → Type 0) (r : Completion) (c : Cache) (e : Entry)
      → Holds P c
      → (completion canonicalize digest r c).0 ≡ replayed e
      → (k : Text) × (served : Text) × (cache_key_for canonicalize digest r ≡ some (k, served))
        × P k e
  unfolding completion complete_by
  replayed-keyed P r c e h g = go (cache_key_for canonicalize digest r) refl g
    where
      go :
          (o : Option (Text × Text))
          → cache_key_for canonicalize digest r ≡ o
          → (complete_by r o c).0 ≡ replayed e
          → (k : Text) × (served : Text) × (cache_key_for canonicalize digest r ≡ some (k, served))
            × P k e
      go none q g' = absurd (unkeyed r.answer e g')
      go (some (key, served)) q g' =
          (key, served, q, get-P P c key r.asked_at e h (after_lookup-replayed r key served _ e g'))
