-- ===== src/Catalog/Others.antt =====
-- What a call on the catalog of one tenant leaves of another tenant's.
use cogni_gate.Prelude.{
  ℕ, ◌≡◌, ◌≢◌, ◌∙◌, refl, arith, true, Option, none, some, Text, text_dec, lookup, lookup-insert,
  option_keeps,
}
use cogni_gate.Catalog.{Snapshot}
use cogni_gate.Catalog.Polling.{Poll, polled, poll_failed}
use cogni_gate.Catalog.Tenants.{
  Catalog, snapshot_of, put_snapshot, with_state, announce, reload, get_snapshot, refresh_now,
  invalidate, Upstreams, poll_now, fresh_snapshot, Reading,
}

put_snapshot-other :
    (t own : Text) (s : Option Snapshot) (c : Catalog)
    → own ≢ t
    → snapshot_of t (put_snapshot own s c) ≡ snapshot_of t c
unfolding snapshot_of put_snapshot
put_snapshot-other t own s c n = ground (arith, n, lookup-insert text_dec own t s c.per_tenant)

pub invalidate-other :
    (t own : Text) (c : Catalog) → own ≢ t → snapshot_of t (invalidate own c) ≡ snapshot_of t c
unfolding invalidate
invalidate-other t own c n = put_snapshot-other t own none c n

announce-other :
    (t own : Text) (old : Option Snapshot) (fresh : Snapshot) (c : Catalog)
    → snapshot_of t (announce own old fresh c) ≡ snapshot_of t c
unfolding snapshot_of announce
announce-other t own none fresh c = refl
announce-other t own (some old) fresh c = ground arith

with_state-other :
    (t own : Text) (c : Catalog) → own ≢ t → snapshot_of t (with_state own c) ≡ snapshot_of t c
unfolding with_state
with_state-other t own c n =
    option_keeps (λ (d : Catalog). snapshot_of t d ≡ snapshot_of t c)
      (lookup text_dec own c.per_tenant) _ _ (put_snapshot-other t own none c n) (λ _. refl)

reload-other :
    (t own : Text) (p : Poll) (c : Catalog)
    → own ≢ t
    → snapshot_of t (reload own p c).1 ≡ snapshot_of t c
unfolding reload
reload-other t own (poll_failed message) c n =
    option_keeps (λ (r : Reading × Catalog). snapshot_of t r.1 ≡ snapshot_of t c)
      (snapshot_of own c) _ _ refl
      (λ (snap : Snapshot). put_snapshot-other t own (some (record snap { stale = true })) c n)
reload-other t own (polled fresh) c n =
    put_snapshot-other t own (some fresh) (announce own (snapshot_of own c) fresh c) n
    ∙ announce-other t own (snapshot_of own c) fresh c

pub refresh_now-other :
    (t own : Text) (up : Upstreams) (now : ℕ) (c : Catalog)
    → own ≢ t
    → snapshot_of t (refresh_now up now own c).1 ≡ snapshot_of t c
unfolding refresh_now
refresh_now-other t own up now c n =
    reload-other t own (poll_now up now c) (with_state own c) n ∙ with_state-other t own c n

pub get_snapshot-other :
    (t own : Text) (up : Upstreams) (now : ℕ) (c : Catalog)
    → own ≢ t
    → snapshot_of t (get_snapshot up now own c).1 ≡ snapshot_of t c
unfolding get_snapshot refresh_now
get_snapshot-other t own up now c n =
    option_keeps (λ (r : Reading × Catalog). snapshot_of t r.1 ≡ snapshot_of t c)
      (fresh_snapshot c.opts.ttl now (snapshot_of own c)) _ _ (refresh_now-other t own up now c n)
      (λ _. refl)
