-- ===== src/Store.antt =====
-- gateway/internal/store/types.go: the records that more than one component reads. A price is a number of
-- millionths of a dollar per million tokens, an amount of millionths of a dollar, a time of nanoseconds.
use cogni_gate.Prelude.{ℕ, Bool, List, Text, text_eq, codes, ◌||◌}

pub record Provider : Type 0 where
  pub id : Text
  pub tenant_id : Text
  pub name : Text
  pub kind : Text
  pub base_url : Text
  pub enabled : Bool
  pub key_strategy : Text
  pub keys : List Text
  pub key_prefixes : List Text
  pub created_at : ℕ

abbrev pub key_strategy_round_robin : Text
key_strategy_round_robin = codes "round_robin"

abbrev pub key_strategy_failover : Text
key_strategy_failover = codes "failover"

unfoldable pub valid_key_strategy : Text → Bool
valid_key_strategy s =
    text_eq s (codes "") || text_eq s key_strategy_round_robin || text_eq s key_strategy_failover

pub record Model : Type 0 where
  pub id : Text
  pub provider : Text
  pub context_window : ℕ
  pub max_output_tokens : ℕ
  pub capabilities : List Text
  pub input_cost_per_mtok : ℕ
  pub output_cost_per_mtok : ℕ
  pub deprecated : Bool

pub record Alias : Type 0 where
  pub id : Text
  pub tenant_id : Text
  pub name : Text
  pub pin : Text
  pub capabilities : List Text
  pub min_context_window : ℕ
  pub provider_preference : List Text
  pub cost_tier : Text
  pub created_at : ℕ

pub record Route : Type 0 where
  pub id : Text
  pub tenant_id : Text
  pub match : Text
  pub chain : List Text
  pub created_at : ℕ

pub record UsageTotals : Type 0 where
  pub requests : ℕ
  pub cached_requests : ℕ
  pub prompt_tokens : ℕ
  pub completion_tokens : ℕ
  pub total_tokens : ℕ
  pub cost_usd : ℕ
  pub charge_usd : ℕ
