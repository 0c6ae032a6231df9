-- ===== src/Server/Completions.antt =====
-- gateway/internal/server/cache.go and gateway/internal/server/chat.go: whether a buffered completion may come from the
-- cache, and what it stores there, with Key of gateway/internal/cache/cache.go. JSON and SHA-256 are the arguments
-- `canonicalize` and `digest`; the resolution and the dispatch, which Routing models, come in as their outcomes. A
-- sampling field is a number of millionths.
pub mod Stored
pub mod Replays
pub mod Isolation
use cogni_gate.Prelude.{
  ℕ, ◌*◌, ◌==◌, ltb, ◌&&◌, ◌||◌, not, List, [], ◌∷◌, ◌++◌, Bool, true, false, Option, none, some,
  Text, text_eq, codes, if◌then◌else◌, int64, pos, negsuc, to_lower, trim_space,
}
use cogni_gate.Memory.{Tenant}
use cogni_gate.Cache.{Cache, Entry, get, put}
use cogni_gate.Routing.Dispatch.{Candidate}
use cogni_gate.Routing.Resolve.{served_by}

pub data Sampled : Type 0 where
  absent : Sampled
  number : ℕ → Sampled
  other_value : Sampled

abbrev pub is_one : Sampled → Bool
is_one absent = true
is_one (number n) = n == 1000000
is_one other_value = false

unfoldable pub deterministic : Sampled → Sampled → Sampled → Bool
deterministic absent top_p n = is_one top_p && is_one n
deterministic (number t) top_p n = t == 0
deterministic other_value top_p n = false

pub record CachePlan : Type 0 where
  pub lookup : Bool
  pub header : Text
  pub ttl : ℕ

abbrev pub silent_plan : CachePlan
silent_plan = record { lookup = false; header = []; ttl = 0 }

abbrev pub bypass_plan : CachePlan
bypass_plan = record { lookup = false; header = codes "bypass"; ttl = 0 }

-- The configuration of the cache; enabled also tells that there is one.
pub record CacheConfig : Type 0 where
  pub enabled : Bool
  pub default_ttl : ℕ
  pub max_ttl : ℕ

-- The product of a count of seconds and time.Second, in int64; below zero it is 0 here, which Put refuses alike.
unfoldable pub as_duration : ℕ → ℕ
as_duration seconds = elim (int64 (pos (seconds * 1000000000))) [ pos d ↦ d | negsuc _ ↦ 0 ]

unfoldable pub wanted_ttl : CacheConfig → Option Tenant → ℕ
wanted_ttl conf none = conf.default_ttl
wanted_ttl conf (some t) =
    if ltb 0 t.cache.ttl_seconds then as_duration t.cache.ttl_seconds else conf.default_ttl

unfoldable pub cache_ttl : CacheConfig → Option Tenant → ℕ
cache_ttl conf t = if ltb conf.max_ttl (wanted_ttl conf t) then conf.max_ttl else wanted_ttl conf t

unfoldable pub tenant_opted_in : Option Tenant → Bool
tenant_opted_in none = false
tenant_opted_in (some t) = t.cache.enabled

unfoldable pub plan_cache : CacheConfig → Option Tenant → Text → Bool → Bool → CachePlan
plan_cache conf tenant header stream is_deterministic =
    let asked = to_lower (trim_space header) in
    if not conf.enabled
    then silent_plan
    else if text_eq asked (codes "bypass")
    then bypass_plan
    else if not (text_eq asked (codes "prefer")) && not (tenant_opted_in tenant)
    then silent_plan
    else if stream || not is_deterministic
    then bypass_plan
    else record { lookup = true; header = []; ttl = cache_ttl conf tenant }

-- A buffered completion: the request, what Primary and Dispatch give for it, and the times of the lookup and of the answer.
pub record Completion : Type 0 where
  pub tenant_id : Text
  pub body : Text
  pub plan : CachePlan
  pub primary : Option Candidate
  pub answer : Option (Candidate × Text)
  pub asked_at : ℕ
  pub answered_at : ℕ

pub data Reply : Type 0 where
  replayed : Entry → Reply
  dispatched : Candidate → Text → Reply
  rejected : Reply

unfoldable pub entry_for : Candidate → Text → Entry
entry_for cand body = record { body = body; provider = cand.provider; model = cand.model }

unfoldable pub reply_of : Option (Candidate × Text) → Reply
reply_of none = rejected
reply_of (some (cand, body)) = dispatched cand body

-- The answer is stored where the model that gave it is the one that the key names.
unfoldable pub store_answer : Completion → Text → Text → Option (Candidate × Text) → Cache → Cache
store_answer r key served none c = c
store_answer r key served (some (cand, body)) c =
    if text_eq (served_by cand) served
    then put c r.tenant_id key (entry_for cand body) r.plan.ttl r.answered_at
    else c

unfoldable pub after_lookup : Completion → Text → Text → Cache × Option Entry → Reply × Cache
after_lookup r key served (c, some e) = (replayed e, c)
after_lookup r key served (c, none) = (reply_of r.answer, store_answer r key served r.answer c)

unfoldable pub complete_by : Completion → Option (Text × Text) → Cache → Reply × Cache
complete_by r none c = (reply_of r.answer, c)
complete_by r (some (key, served)) c = after_lookup r key served (get c key r.asked_at)

module _ (canonicalize : Text → Option Text) (digest : Text → Text) where
  unfoldable pub response_key : Text → Text → Text → Option Text
  response_key tenant served body = elim (canonicalize body) [
    | none ↦ none
    | some doc ↦ some (digest (tenant ++ (0 ∷ (served ++ (0 ∷ doc)))))
  ]

  -- The key with the model that it names.
  unfoldable pub key_for : Completion → Option Candidate → Option (Text × Text)
  key_for r none = none
  key_for r (some primary) = elim (response_key r.tenant_id (served_by primary) r.body) [
    | none ↦ none
    | some key ↦ some (key, served_by primary)
  ]

  unfoldable pub cache_key_for : Completion → Option (Text × Text)
  cache_key_for r = if r.plan.lookup then key_for r r.primary else none

  unfoldable pub completion : Completion → Cache → Reply × Cache
  completion r c = complete_by r (cache_key_for r) c

  unfoldable pub completions : List Completion → Cache → Cache
  completions [] c = c
  completions (r ∷ rs) c = completions rs (completion r c).1
