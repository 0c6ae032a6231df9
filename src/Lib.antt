-- ===== src/Lib.antt =====
-- Verification of the CogniGate gateway (gateway/internal), a multi-tenant gateway in front of
-- model providers.
--
-- A request is authenticated against the store and let in by the limits of its tenant and its key. A
-- chat request is resolved to an ordered list of candidates, each a provider and a model, and the
-- dispatcher tries them in turn. A circuit breaker takes a failing candidate out of rotation, and a
-- rate limited key is rotated within its provider's pool before the chain goes on. Before that the
-- quotas of the tenant decide whether the request may go on, and the response cache may answer it.
-- The catalog says which models there are to resolve to, and what a request used goes through a
-- bounded queue to the accounting.
--
-- Prelude: lists over native numbers, Go maps as association lists, strings as bytes.
-- Store: gateway/internal/store/types.go, the records that more than one component reads.
-- Memory: gateway/internal/store/memory.go and gateway/internal/store/keys.go. A child for each
--   table, a function for each method; Memory.ApiKeys.Calls has the runs of calls on tenants and keys.
-- Catalog: gateway/internal/catalog/catalog.go. Catalog.Polling has `refresh` with the merge of what the
--   providers list, Catalog.Tenants has Get, Refresh, Invalidate, reload, diff and Ages.
-- Provider: gateway/internal/provider/provider.go, what an upstream exchange comes back as.
-- Routing.Breaker: gateway/internal/routing/breaker.go. `allow`, `success`, `failure`, `state_of` and
--   `snapshot` are the methods Allow, Success, Failure, State and Snapshot; `changes` records the
--   calls of onChange. Breaker.Machine is the abstract specification, a machine for each key.
-- Routing.BreakerKey: Key and SplitKey of the same file.
-- Routing.KeyPool: keyOrder, coolKey and readyKeys of gateway/internal/routing/dispatch.go.
-- Routing.Dispatch: tryCandidate and Dispatch of the same file. `step` is the body of the loop of
--   Dispatch, `proceed` its part behind the breaker, `try_keys` the loop over a pool's keys.
--
-- Routing.Resolve: gateway/internal/routing/resolve.go.
-- Routing.Diagnose: gateway/internal/routing/diagnose.go.
-- Cache: gateway/internal/cache/cache.go. `get`, `put`, `flush` and `stats` are its methods.
-- Limits: gateway/internal/server/limits.go and the concurrency limiter of server/middleware.go.
--   `limits_for` and `validate_tenant_limits` narrow, Limits.Rates has `take` of rateLimiter with
--   its sweep, Limits.Concurrency has `acquire` and the release closure as a Permit.
-- Quota: gateway/internal/server/quota.go. `positions`, `bind_slots` (the loop of computeQuota),
--   `evaluate_quota` and `should_announce`. Quota.Cached has the cache of the states: `get_entry` is a
--   get that nobody comes between once it computes, `forget_quotas` is invalidate, `quota_slots` and
--   `computed` are quotaSlots and computeQuota over the store, `quota_verdict` is evaluateQuota. Quota.Flights
--   has the stretches of get and invalidate that no other can divide, as steps that interleave: the lock of
--   a scope is held while its entry is computed, the lock of the cache is not.
-- Admin: gateway/internal/server/admin.go with server/audit.go and the policy checks of server/capture.go and
--   server/cache.go: a function for each handler, over the state Gateway (store, catalog, quota states,
--   cache, captures). `scoped` is the opening by tenantScope. Admin.Calls has the routes that change
--   something as one data type, `answer_call` their handler and `administer` the handler with its audit.
--   Admin.Effects is the specification: what a key that is not of root scope may do, as a relation.
-- Server: the request's way. Server.ApiErrors is gateway/internal/apierr/apierr.go, Server.Answers is Fail
--   of gateway/internal/httpx/httpx.go, Server.Auth is auth of server/middleware.go, Server.Admission is
--   limitTenant of server/limits.go (`enter`, and `leave` for the deferred release), Server.Paging
--   is server/page.go, Server.Completions is the buffered completion of server/chat.go with the cache
--   policy of server/cache.go.
-- Telemetry: gateway/internal/obs/telemetry.go. The goroutine, the requests, the sink and the shutdown
--   interleave as a list of steps.
-- Events: gateway/internal/events/events.go. `emit` is Emit, `deliver` the loop over the attempts.
-- Capture: gateway/internal/capture/capture.go. `put`, `list`, `sweep` and `flush` are its methods.
--
-- A method under one hold of a mutex is one function on the state, and requests are sequences of such
-- calls; quotaCache.get gives the mutex up while it computes, and is several steps. A
-- time or a duration is a number of nanoseconds, and the clock's reading is an argument. The
-- adapters, JSON, the parsers of the standard library, SHA-256 and the verbs of fmt are arguments.
-- The loops go over a list, but for that of the cache's Put, which gets as many rounds as there are
-- elements: each takes one off, and it is proved to end within the budget. Floating-point amounts
-- (tokens of a bucket, quota amounts, prices) are exact natural numbers in a fine unit, without the rounding of
-- float64, and the counters of usage are exact too, without the wrap-around of int64. The store reads of one
-- evaluation of a quota are of one state of the store.
--
-- Not modelled: the configuration's checks, the streamed completion, the middleware that takes captures,
-- HTTP, JSON, logging and metrics, the Java analytics service.
pub mod Prelude
pub mod Store
pub mod Catalog
pub mod Provider
pub mod Routing
pub mod Cache
pub mod Limits
pub mod Quota
pub mod Capture
pub mod Memory
pub mod Server
pub mod Admin
pub mod Telemetry
pub mod Events
