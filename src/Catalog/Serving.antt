-- ===== src/Catalog/Serving.antt =====
-- What gateway/internal/catalog/catalog.go promises of the snapshots it serves.
use cogni_gate.Prelude.{
  ℕ, ◌≡◌, ◌<◌, List, [], ◌∷◌, true, false, Option, none, some, Text, text_dec, lookup-insert, ◌⊎◌,
  inl, inr, refl, arith, subst, Option-cases,
}
use cogni_gate.Store.{Model, Provider}
use cogni_gate.Catalog.{CatalogEntry, Snapshot, age}
use cogni_gate.Catalog.Polling.{
  PriceTable, Adapters, Poll, polled, poll_failed, refresh, Listing, failed, listed, claim,
  claim_as, merge, install, poll_one, poll_all, noted_error, finished, first_key, ask_adapter,
}
use cogni_gate.Catalog.Tenants.{
  Catalog, Reading, served, unavailable, Upstreams, get_snapshot, reload, snapshot_of, put_snapshot,
  with_state, fresh_snapshot, poll_now,
}

-- A merge touches neither the time of a snapshot nor its mark.
abbrev Kept : ℕ → Snapshot → Type 0
Kept now snap = (snap.fetched_at ≡ now) × (snap.stale ≡ false)

claim-Kept :
    (now : ℕ) (e : CatalogEntry) (snap : Snapshot) → Kept now snap → Kept now (claim e snap)
unfolding claim
claim-Kept now e snap h = ground (arith, h)

claim_as-Kept :
    (now : ℕ) (id : Text) (e : CatalogEntry) (snap : Snapshot)
    → Kept now snap
    → Kept now (claim_as id e snap)
unfolding claim_as
claim_as-Kept now id e snap h = ground (arith, h)

merge-Kept :
    (now : ℕ) (prices : PriceTable) (p : Provider) (models : List Model) (snap : Snapshot)
    → Kept now snap
    → Kept now (merge prices p models snap)
unfolding merge
merge-Kept now prices p [] snap h = h
merge-Kept now prices p (m ∷ models) snap h =
    merge-Kept now prices p models _ (claim_as-Kept now _ _ _ (claim-Kept now _ snap h))

install-Kept :
    (now : ℕ) (prices : PriceTable) (p : Provider) (answer : Listing) (snap : Snapshot)
    → Kept now snap
    → Kept now (install prices p answer snap)
unfolding install noted_error
install-Kept now prices p (failed message) snap h = h
install-Kept now prices p (listed models) snap h = merge-Kept now prices p models snap h

poll_one-Kept :
    (now : ℕ) (up : Adapters) (prices : PriceTable) (p : Provider) (snap : Snapshot)
    → Kept now snap
    → Kept now (poll_one up prices p snap)
unfolding poll_one
poll_one-Kept now up prices p snap h =
    elim (first_key p)
      as (λ k.
        Kept now
          (elim k [ none ↦ snap | some key ↦ install prices p (ask_adapter up p key) snap ])) [
            | none ↦ h
            | some key ↦ install-Kept now prices p (ask_adapter up p key) snap h
          ]

poll_all-Kept :
    (now : ℕ) (up : Adapters) (prices : PriceTable) (providers : List Provider) (snap : Snapshot)
    → Kept now snap
    → Kept now (poll_all up prices providers snap)
unfolding poll_all
poll_all-Kept now up prices [] snap h = h
poll_all-Kept now up prices (p ∷ providers) snap h =
    poll_all-Kept now up prices providers _ (poll_one-Kept now up prices p snap h)

finished-Kept :
    (now : ℕ) (snap fresh : Snapshot)
    → Kept now snap
    → finished snap ≡ polled fresh
    → Kept now fresh
unfolding finished
finished-Kept now snap fresh h e = ground (arith, h, e)

refresh-Kept :
    (up : Adapters) (prices : PriceTable) (now : ℕ) (providers : Text ⊎ List Provider)
    (fresh : Snapshot)
    → refresh up prices now providers ≡ polled fresh
    → Kept now fresh
unfolding refresh
refresh-Kept up prices now (inl message) fresh e = ground (arith, e)
refresh-Kept up prices now (inr providers) fresh e =
    finished-Kept now _ fresh (poll_all-Kept now up prices providers _ (refl, refl)) e

-- Fresh within the time to live, or marked stale with the models of the snapshot before since the poll of
-- this call failed.
abbrev pub Current : Upstreams → ℕ → Text → Catalog → Snapshot → Type 0
Current up now tenant c snap =
    ((snap.stale ≡ false) × (age (some snap) now < c.opts.ttl))
    ⊎ ((snap.stale ≡ true)
        × ((message : Text) × (poll_now up now c ≡ poll_failed message))
        × ((old : Snapshot) × (snapshot_of tenant c ≡ some old) × (snap.models ≡ old.models)))

pub with_state-snapshot :
    (tenant s : Text) (c : Catalog) → snapshot_of s (with_state tenant c) ≡ snapshot_of s c
unfolding snapshot_of with_state put_snapshot
with_state-snapshot tenant s c = ground (arith, lookup-insert text_dec tenant s none c.per_tenant)

pub reload_failed :
    (tenant message : Text) (c : Catalog) (old : Snapshot)
    → snapshot_of tenant c ≡ some old
    → reload tenant (poll_failed message) c ≡ (
      served (record old { stale = true }),
      put_snapshot tenant (some (record old { stale = true })) c,
    )
unfolding reload
reload_failed tenant message c old e = rw (e, reload) refl

pub reload_cold :
    (tenant message : Text) (c : Catalog)
    → snapshot_of tenant c ≡ none
    → reload tenant (poll_failed message) c ≡ (unavailable message, c)
unfolding reload
reload_cold tenant message c e = rw (e, reload) refl

reload-Current :
    (up : Upstreams) (now : ℕ) (tenant : Text) (c : Catalog) (answer : Poll) (snap : Snapshot)
    → 0 < c.opts.ttl
    → poll_now up now c ≡ answer
    → (reload tenant answer (with_state tenant c)).0 ≡ served snap
    → Current up now tenant c snap
unfolding reload poll_now age
reload-Current up now tenant c (poll_failed message) snap pos e h =
    elim (Option-cases (snapshot_of tenant (with_state tenant c))) [
      | inl cold ↦ absurd (ground (arith, h, reload_cold tenant message (with_state tenant c) cold))
      | inr (old, warm) ↦ ground (
        arith,
        e,
        h,
        warm,
        reload_failed tenant message (with_state tenant c) old warm,
        with_state-snapshot tenant tenant c,
      )
    ]
reload-Current up now tenant c (polled fresh) snap pos e h =
    ground (arith, pos, h, refresh-Kept up.adapters c.opts.prices now up.providers fresh e)

pub get_fresh :
    (up : Upstreams) (now : ℕ) (tenant : Text) (c : Catalog) (snap : Snapshot)
    → fresh_snapshot c.opts.ttl now (snapshot_of tenant c) ≡ some snap
    → get_snapshot up now tenant c ≡ (served snap, c)
unfolding get_snapshot
get_fresh up now tenant c snap e = rw (e, get_snapshot) refl

pub get_polled :
    (up : Upstreams) (now : ℕ) (tenant : Text) (c : Catalog)
    → fresh_snapshot c.opts.ttl now (snapshot_of tenant c) ≡ none
    → get_snapshot up now tenant c ≡ reload tenant (poll_now up now c) (with_state tenant c)
unfolding get_snapshot
get_polled up now tenant c e = rw (e, get_snapshot) refl

fresh_within :
    (ttl now : ℕ) (o : Option Snapshot) (snap : Snapshot)
    → fresh_snapshot ttl now o ≡ some snap
    → (snap.stale ≡ false) × (age (some snap) now < ttl)
unfolding fresh_snapshot
fresh_within ttl now none snap e = absurd (ground (arith, e))
fresh_within ttl now (some s) snap e = ground (arith, e)

-- Get of a catalog with a positive time to live: what it serves is not marked stale and younger than the
-- time to live, or it is marked stale, the poll of this call failed, and it has the models of the snapshot that the
-- tenant had.
pub get_snapshot-Current :
    (up : Upstreams) (now : ℕ) (tenant : Text) (c : Catalog) (snap : Snapshot)
    → 0 < c.opts.ttl
    → (get_snapshot up now tenant c).0 ≡ served snap
    → Current up now tenant c snap
get_snapshot-Current up now tenant c snap pos h =
    elim (Option-cases (fresh_snapshot c.opts.ttl now (snapshot_of tenant c))) [
      | inl none_fresh ↦ reload-Current up now tenant c (poll_now up now c) snap pos refl (
          subst (λ (r : Reading × Catalog). r.0 ≡ served snap)
            (get_polled up now tenant c none_fresh) h)
      | inr (s, fresh) ↦ ground (
        arith,
        h,
        get_fresh up now tenant c s fresh,
        fresh_within c.opts.ttl now (snapshot_of tenant c) s fresh,
      )
    ]
