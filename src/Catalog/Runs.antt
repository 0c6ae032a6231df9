-- ===== src/Catalog/Runs.antt =====
-- Runs of calls of gateway/internal/catalog/catalog.go.
use cogni_gate.Prelude.{
  ℕ, ◌≡◌, ◌≢◌, List, [], ◌∷◌, Option, none, some, Text, text_dec, lookup-insert, inl, inr, refl,
  sym, ap, ◌∙◌, arith, All, ite, Option-cases, subst,
}
use cogni_gate.Catalog.{Snapshot}
use cogni_gate.Catalog.Polling.{Poll, polled, poll_failed}
use cogni_gate.Catalog.Tenants.{
  Catalog, Reading, served, Upstreams, get_snapshot, refresh_now, invalidate, reload, snapshot_of,
  put_snapshot, with_state, announce, fresh_snapshot, poll_now,
}
use cogni_gate.Catalog.Serving.{
  reload_failed, reload_cold, get_fresh, get_polled, with_state-snapshot,
}

-- A call of the catalog.
pub data Call : Type 0 where
  reading : Upstreams → ℕ → Text → Call
  refreshing : Upstreams → ℕ → Text → Call
  invalidating : Text → Call

unfoldable pub apply : Call → Catalog → Catalog
apply (reading up now tenant) c = (get_snapshot up now tenant c).1
apply (refreshing up now tenant) c = (refresh_now up now tenant c).1
apply (invalidating tenant) c = invalidate tenant c

unfoldable pub run : List Call → Catalog → Catalog
run [] c = c
run (call ∷ calls) c = run calls (apply call c)

abbrev pub Spares : Text → Call → Type 0
Spares tenant (reading up now s) = Unit
Spares tenant (refreshing up now s) = Unit
Spares tenant (invalidating s) = s ≢ tenant

abbrev pub Warm : Text → Catalog → Type 0
Warm tenant c = (snap : Snapshot) × (snapshot_of tenant c ≡ some snap)

put_snapshot-snapshot :
    (tenant s : Text) (o : Option Snapshot) (c : Catalog)
    → snapshot_of s (put_snapshot tenant o c) ≡ ite (text_dec tenant s) o (snapshot_of s c)
unfolding snapshot_of put_snapshot
put_snapshot-snapshot tenant s o c = ground (arith, lookup-insert text_dec tenant s o c.per_tenant)

announce-snapshot :
    (tenant s : Text) (o : Option Snapshot) (fresh : Snapshot) (c : Catalog)
    → snapshot_of s (announce tenant o fresh c) ≡ snapshot_of s c
unfolding snapshot_of announce
announce-snapshot tenant s none fresh c = refl
announce-snapshot tenant s (some old) fresh c = ground arith

put_snapshot-Warm :
    (tenant s : Text) (fresh : Snapshot) (c : Catalog)
    → Warm s c
    → Warm s (put_snapshot tenant (some fresh) c)
put_snapshot-Warm tenant s fresh c (snap, h) = elim (text_dec tenant s) [
  | yes e ↦ (fresh, ground (arith, e, put_snapshot-snapshot tenant s (some fresh) c))
  | no ne ↦ (snap, ground (arith, ne, h, put_snapshot-snapshot tenant s (some fresh) c))
]

reload-Warm :
    (tenant s : Text) (answer : Poll) (c : Catalog) → Warm s c → Warm s (reload tenant answer c).1
unfolding reload
reload-Warm tenant s (poll_failed message) c (snap, h) =
    elim (Option-cases (snapshot_of tenant c)) [
      | inl cold ↦
          (snap, ap (snapshot_of s) (ap (λ r. r.1) (reload_cold tenant message c cold)) ∙ h)
      | inr (old, warm) ↦
          subst (λ (r : Reading × Catalog). Warm s r.1)
            (sym (reload_failed tenant message c old warm))
            (put_snapshot-Warm tenant s _ c (snap, h))
    ]
reload-Warm tenant s (polled fresh) c (snap, h) =
    put_snapshot-Warm tenant s fresh _
      (snap, announce-snapshot tenant s (snapshot_of tenant c) fresh c ∙ h)

polled_call-Warm :
    (tenant s : Text) (answer : Poll) (c : Catalog)
    → Warm s c
    → Warm s (reload tenant answer (with_state tenant c)).1
polled_call-Warm tenant s answer c (snap, h) =
    reload-Warm tenant s answer (with_state tenant c) (snap, with_state-snapshot tenant s c ∙ h)

get_snapshot-Warm :
    (up : Upstreams) (now : ℕ) (tenant s : Text) (c : Catalog)
    → Warm s c
    → Warm s (get_snapshot up now tenant c).1
get_snapshot-Warm up now tenant s c w =
    elim (Option-cases (fresh_snapshot c.opts.ttl now (snapshot_of tenant c))) [
      | inl e ↦
          subst (λ (r : Reading × Catalog). Warm s r.1) (sym (get_polled up now tenant c e))
            (polled_call-Warm tenant s (poll_now up now c) c w)
      | inr (snap, e) ↦
          subst (λ (r : Reading × Catalog). Warm s r.1) (sym (get_fresh up now tenant c snap e)) w
    ]

apply-Warm :
    (s : Text) (call : Call) (c : Catalog) → Spares s call → Warm s c → Warm s (apply call c)
unfolding apply refresh_now invalidate
apply-Warm s (reading up now tenant) c sp w = get_snapshot-Warm up now tenant s c w
apply-Warm s (refreshing up now tenant) c sp w = polled_call-Warm tenant s (poll_now up now c) c w
apply-Warm s (invalidating tenant) c sp (snap, h) =
    ground (arith, sp, h, put_snapshot-snapshot tenant s none c)

run-Warm :
    (s : Text) (calls : List Call) (c : Catalog)
    → All (Spares s) calls
    → Warm s c
    → Warm s (run calls c)
unfolding run
run-Warm s [] c sp w = w
run-Warm s (call ∷ calls) c sp w = run-Warm s calls (apply call c) sp.1 (apply-Warm s call c sp.0 w)

reload_serves :
    (tenant : Text) (answer : Poll) (c : Catalog)
    → Warm tenant c
    → (snap : Snapshot) × ((reload tenant answer (with_state tenant c)).0 ≡ served snap)
unfolding reload
reload_serves tenant (polled fresh) c w = (fresh, refl)
reload_serves tenant (poll_failed message) c (snap, h) = (
  _,
  ap (λ r. r.0)
      (reload_failed tenant message (with_state tenant c) snap
        (with_state-snapshot tenant tenant c ∙ h)),
)

-- A tenant that has a snapshot is served one by Get and by Refresh after any calls, of any tenants, whatever the
-- providers and the store answer to the polls, as long as none of the calls invalidates that tenant.
pub always_served :
    (tenant : Text) (calls : List Call) (c : Catalog) (up : Upstreams) (now : ℕ)
    → Warm tenant c
    → All (Spares tenant) calls
    → ((snap : Snapshot) × ((get_snapshot up now tenant (run calls c)).0 ≡ served snap))
      × ((snap : Snapshot) × ((refresh_now up now tenant (run calls c)).0 ≡ served snap))
unfolding refresh_now
always_served tenant calls c up now w sp = (
  elim (Option-cases (fresh_snapshot _ now (snapshot_of tenant (run calls c)))) [
    | inl e ↦ (by_poll.0, ap (λ r. r.0) (get_polled up now tenant (run calls c) e) ∙ by_poll.1)
    | inr (snap, e) ↦ (snap, ap (λ r. r.0) (get_fresh up now tenant (run calls c) snap e))
  ],
  by_poll,
)
  where
    by_poll :
        (snap : Snapshot) × ((reload tenant
            (poll_now up now (run calls c))
            (with_state tenant (run calls c))).0
          ≡ served snap)
    by_poll = reload_serves tenant _ (run calls c) (run-Warm tenant calls c sp w)
