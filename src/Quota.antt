-- ===== src/Quota.antt =====
-- gateway/internal/server/quota.go: where a caller stands against the caps that apply to it, the slot
-- that binds it, and which crossings are announced. Amounts are natural numbers in a unit fine
-- enough for both the cap and the consumption, where the source has float64. The readings of the
-- store and the window boundaries are arguments. A cap below zero acts as zero.
pub mod Binding
pub mod Announcing
pub mod Cached
pub mod Flights
pub mod Traces
pub mod Enforced
pub mod Staleness
pub mod Since
mod Tests
use cogni_gate.Prelude.{
  ℕ, zero, suc, ◌+◌, ◌*◌, Bool, true, false, ◌&&◌, ◌||◌, Option, none, some, List, [], ◌∷◌, ◌++◌,
  leb, ltb, ◌==◌, if◌then◌else◌, Text, text_dec, codes, lookup, insert,
}
use cogni_gate.Store.{UsageTotals}

pub data QuotaState : Type 0 where
  quota_ok : QuotaState
  quota_soft_exceeded : QuotaState
  quota_hard_exceeded : QuotaState

pub data QuotaUnit : Type 0 where
  unit_tokens : QuotaUnit
  unit_cost : QuotaUnit
  unit_requests : QuotaUnit

pub data Window : Type 0 where
  window_day : Window
  window_month : Window

unfoldable pub unit_name : QuotaUnit → Text
unit_name unit_tokens = codes "tokens"
unit_name unit_cost = codes "cost"
unit_name unit_requests = codes "requests"

unfoldable pub window_name : Window → Text
window_name window_day = codes "day"
window_name window_month = codes "month"

pub record QuotaLimit : Type 0 where
  pub cap : ℕ
  pub soft_threshold_pct : ℕ

pub record QuotaWindow : Type 0 where
  pub tokens : Option QuotaLimit
  pub cost : Option QuotaLimit
  pub requests : Option QuotaLimit

pub record Quota : Type 0 where
  pub tenant_id : Text
  pub key_id : Text
  pub day : QuotaWindow
  pub month : QuotaWindow
  pub updated_at : ℕ

pub record WindowTotals : Type 0 where
  pub day : UsageTotals
  pub month : UsageTotals

-- The half-open range of a window that periodWindow gives.
pub record Period : Type 0 where
  pub since : ℕ
  pub until : ℕ

pub record SlotPosition : Type 0 where
  pub window : Window
  pub unit : QuotaUnit
  pub state : QuotaState
  pub used : ℕ
  pub cap : ℕ
  pub soft_pct : ℕ
  pub since : ℕ
  pub resets_at : ℕ
  pub key_level : Bool

unfoldable pub position : ℕ → ℕ → ℕ → QuotaState
position used limit soft_pct =
    if leb limit 0
    then quota_ok
    else (if leb limit used
        then quota_hard_exceeded
        else (if leb (limit * soft_pct) (used * 100) then quota_soft_exceeded else quota_ok))

unfoldable pub quota_gauge : QuotaState → ℕ
quota_gauge quota_ok = 0
quota_gauge quota_soft_exceeded = 1
quota_gauge quota_hard_exceeded = 2

unfoldable pub soft_of : ℕ → QuotaLimit → ℕ
soft_of default limit =
    if ltb limit.soft_threshold_pct 1 || ltb 100 limit.soft_threshold_pct
    then default
    else limit.soft_threshold_pct

-- The closure `add` of positions: an unset slot adds nothing.
unfoldable pub add_slot :
    ℕ
    → Bool
    → Window
    → Period
    → QuotaUnit
    → Option QuotaLimit
    → ℕ
    → List SlotPosition
    → List SlotPosition
add_slot default key_level window p unit none used out = out
add_slot default key_level window p unit (some limit) used out =
    out
    ++ (record {
      window = window;
      unit = unit;
      state = position used limit.cap (soft_of default limit);
      used = used;
      cap = limit.cap;
      soft_pct = soft_of default limit;
      since = p.since;
      resets_at = p.until;
      key_level = key_level;
    }
        ∷ [])

unfoldable pub window_slots :
    ℕ → Bool → Window → Period → QuotaWindow → UsageTotals → List SlotPosition → List SlotPosition
window_slots default key_level window p q t out =
    add_slot default key_level window p unit_requests q.requests t.requests (
      add_slot default key_level window p unit_cost q.cost t.cost_usd
        (add_slot default key_level window p unit_tokens q.tokens t.total_tokens out))

unfoldable pub positions : ℕ → Quota → WindowTotals → Period → Period → Bool → List SlotPosition
positions default q totals day month key_level =
    window_slots default key_level window_month month q.month totals.month
      (window_slots default key_level window_day day q.day totals.day [])

pub record QuotaEntry : Type 0 where
  pub state : QuotaState
  pub binding : Option SlotPosition

-- One round of the loop of computeQuota; the states agree where their gauges do.
unfoldable pub resets_of : Option SlotPosition → ℕ
resets_of none = 0
resets_of (some p) = p.resets_at

unfoldable pub weigh : QuotaEntry → SlotPosition → QuotaEntry
weigh entry p =
    if ltb (quota_gauge entry.state) (quota_gauge p.state)
    then record { state = p.state; binding = some p }
    else (if (quota_gauge p.state == quota_gauge entry.state)
          && ltb 0 (quota_gauge p.state)
          && ltb (resets_of entry.binding) p.resets_at
        then record entry { binding = some p }
        else entry)

unfoldable pub weigh_all : QuotaEntry → List SlotPosition → QuotaEntry
weigh_all entry [] = entry
weigh_all entry (p ∷ slots) = weigh_all (weigh entry p) slots

unfoldable pub bind_slots : List SlotPosition → QuotaEntry
bind_slots slots = weigh_all (record { state = quota_ok; binding = none }) slots

-- What evaluateQuota answers: the state, and the rejection with the end of the wait.
pub data Rejection : Type 0 where
  budget_exceeded : ℕ → Rejection
  quota_exceeded : ℕ → Rejection

unfoldable pub rejection_of : Option SlotPosition → Rejection
rejection_of none = quota_exceeded 0
rejection_of (some p) = elim p.unit [
  | unit_cost ↦ budget_exceeded p.resets_at
  | _ ↦ quota_exceeded p.resets_at
]

unfoldable pub verdict_of : Bool → QuotaEntry → QuotaState × Option Rejection
verdict_of enforced entry =
    if enforced && leb 2 (quota_gauge entry.state)
    then (entry.state, some (rejection_of entry.binding))
    else (entry.state, none)

-- A failed lookup lets the request through.
unfoldable pub evaluate_quota : Bool → Option (List SlotPosition) → QuotaState × Option Rejection
evaluate_quota enforced none = (quota_ok, none)
evaluate_quota enforced (some slots) = verdict_of enforced (bind_slots slots)

pub record Announcement : Type 0 where
  pub since : ℕ
  pub state : QuotaState

unfoldable pub announce_key : Text → SlotPosition → Text
announce_key scope p = scope ++ (0 ∷ window_name p.window) ++ (0 ∷ unit_name p.unit)

unfoldable pub told_before : Option Announcement → SlotPosition → Bool
told_before none p = false
told_before (some prev) p =
    (prev.since == p.since) && leb (quota_gauge p.state) (quota_gauge prev.state)

unfoldable pub should_announce :
    List (Text × Announcement) → Text → SlotPosition → List (Text × Announcement) × Bool
should_announce announced scope p =
    if (quota_gauge p.state == 0)
      || told_before (lookup text_dec (announce_key scope p) announced) p
    then (announced, false)
    else (
      insert text_dec (announce_key scope p) (record { since = p.since; state = p.state })
          announced,
      true,
    )
