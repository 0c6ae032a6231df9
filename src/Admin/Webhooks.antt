-- ===== src/Admin/Webhooks.antt =====
-- The handlers on webhooks, and the list of a tenant's events.
use cogni_gate.Prelude.{
  ltb, not, Bool, Option, none, some, List, [], ◌∷◌, ◌++◌, if◌then◌else◌, Text, text_eq, codes,
  trim_space, length, member,
}
use cogni_gate.Memory.{ApiKey, Webhook, Event}
use cogni_gate.Memory.Rules.{create_webhook, list_webhooks, delete_webhook}
use cogni_gate.Memory.History.{list_events}
use cogni_gate.Server.ApiErrors.{ApiError, invalid_request, with_param}
use cogni_gate.Admin.{
  Gateway, Externals, Draw, Reply, PageQuery, scoped, checked, parsed, send_page, store_reply,
  unchanged, bad_when,
}
use cogni_gate.Admin.Providers.{non_empty, no_text, first_of, or_true, is_absolute}

-- The registry of the types of events.
abbrev pub event_registry : List Text
event_registry =
    codes "quota.threshold_crossed"
    ∷ codes "quota.hard_cap_reached"
    ∷ codes "breaker.opened"
    ∷ codes "breaker.closed"
    ∷ codes "catalog.model_added"
    ∷ codes "catalog.model_removed"
    ∷ codes "alias.degraded"
    ∷ codes "rule.degraded"
    ∷ codes "debug_capture.enabled"
    ∷ codes "debug_capture.disabled"
    ∷ []

unfoldable pub known_event : Text → Bool
known_event name = member name event_registry

-- The first type that is not known.
unfoldable pub unknown_event : List Text → Option ApiError
unknown_event [] = none
unknown_event (e ∷ events) =
    if known_event e
    then unknown_event events
    else some (
        with_param (codes "events")
          (invalid_request (codes "Unknown event type " ++ e ++ codes ".")))

pub record WebhookRequest : Type 0 where
  pub url : Text
  pub secret : Text
  pub events : List Text
  pub enabled : Option Bool

unfoldable pub webhook_of : Text → WebhookRequest → Webhook
webhook_of tenant r = record {
  id = [];
  tenant_id = tenant;
  url = r.url;
  secret = r.secret;
  events = non_empty r.events;
  enabled = or_true r.enabled;
  created_at = 0;
}

module _ (x : Externals) where
  unfoldable pub validate_webhook_url : Text → Option ApiError
  validate_webhook_url raw =
      first_of
        (bad_when (text_eq (trim_space raw) []) (codes "A webhook url is required.") (codes "url"))
        (bad_when (not (is_absolute x (trim_space raw)))
          (codes "url must be an absolute http or https URL.") (codes "url"))

  unfoldable pub webhook_error : WebhookRequest → Option ApiError
  webhook_error r = first_of (validate_webhook_url r.url) (
      first_of
        (bad_when (ltb (length r.secret) 16)
          (codes "A webhook secret of at least 16 characters is required to sign deliveries.")
          (codes "secret"))
        (first_of
          (bad_when (no_text (non_empty r.events)) (codes "Subscribe to at least one event type.")
            (codes "events"))
          (unknown_event (non_empty r.events))))

  unfoldable pub create_webhook_call :
      Option ApiKey → Text → Option WebhookRequest → Draw → Gateway → Gateway × Reply Webhook
  create_webhook_call key path body d g = scoped x key path g (λ tenant. parsed x body g (λ r.
      checked x (webhook_error r) g (
        store_reply x (codes "tenant") tenant 201 g
          (create_webhook g.store (webhook_of tenant r) (d.id 0) d.now) unchanged)))

  unfoldable pub list_webhooks_call :
      Option ApiKey → Text → PageQuery → Gateway → Gateway × Reply (List Webhook × Bool)
  list_webhooks_call key path q g =
      scoped x key path g
        (λ tenant. (g, send_page x (λ (w : Webhook). w.id) q (list_webhooks g.store tenant)))

  unfoldable pub delete_webhook_call :
      Option ApiKey → Text → Text → Gateway → Gateway × Reply (Unit {0})
  delete_webhook_call key path id g = scoped x key path g (λ tenant.
      store_reply x (codes "webhook") id 204 g (delete_webhook g.store tenant id) unchanged)

  unfoldable pub list_events_call :
      Option ApiKey → Text → PageQuery → Gateway → Gateway × Reply (List Event × Bool)
  list_events_call key path q g =
      scoped x key path g
        (λ tenant. (g, send_page x (λ (e : Event). e.id) q (list_events g.store tenant)))
