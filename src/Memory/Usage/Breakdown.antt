-- ===== src/Memory/Usage/Breakdown.antt =====
-- A breakdown of the usage of a window, row by row, against the totals.
use cogni_gate.Prelude.{
  ℕ, ◌≤◌, ◌≡◌, refl, ◌∙◌, sym, subst, inl, inr, Bool, true, false, ◌&&◌, none, some, List, [], ◌∷◌,
  arith, if◌then◌else◌, Text, text_dec, text_eq, insert, lookup, lookup-insert, Distinct,
  insert-Distinct, sort_by, Option-cases, Bool-cases, Ordered, Decides, sort_by-Ordered,
  lookup-sort_by, sort_by-Distinct, some_inj,
}
use cogni_gate.Store.{UsageTotals}
use cogni_gate.Memory.Tables.{Memory, UsageRecord, rows}
use cogni_gate.Memory.Usage.{
  in_window, no_usage, add_usage, usage_from, key_usage, GroupBy, by_key, Grouped, group, skip,
  unsupported, group_of, bucket_at, put_group, breakdown_from, spend_before, usage_breakdown,
}

-- Whether a record is of a group.
unfoldable pub is_group : Grouped → Text → Bool
is_group (group j) k = text_eq j k
is_group skip k = false
is_group unsupported k = false

bucket_at-insert :
    (buckets : List (Text × UsageTotals)) (j k : Text) (t : UsageTotals)
    → bucket_at (insert text_dec j t buckets) k ≡ (if text_eq j k then t else bucket_at buckets k)
unfolding bucket_at
bucket_at-insert buckets j k t = ground (arith, lookup-insert text_dec j k t buckets)

put_group-bucket :
    (buckets bs : List (Text × UsageTotals)) (r : UsageRecord) (g : Grouped) (k : Text)
    → put_group buckets r g ≡ some bs
    → bucket_at bs k
      ≡ (if is_group g k then add_usage (bucket_at buckets k) r else bucket_at buckets k)
unfolding put_group is_group
put_group-bucket buckets bs r (group j) k h =
    ground (arith, h, bucket_at-insert buckets j k (add_usage (bucket_at buckets j) r))
put_group-bucket buckets bs r skip k h = ground (arith, h)
put_group-bucket buckets bs r unsupported k h = absurd (ground (arith, h))

put_group-Distinct :
    (buckets bs : List (Text × UsageTotals)) (r : UsageRecord) (g : Grouped)
    → put_group buckets r g ≡ some bs
    → Distinct text_dec buckets
    → Distinct text_dec bs
unfolding put_group
put_group-Distinct buckets bs r (group j) h d =
    let t = add_usage (bucket_at buckets j) r in
    subst (λ x. Distinct text_dec x) (some_inj (insert text_dec j t buckets) bs h)
      (insert-Distinct text_dec j t buckets d)
put_group-Distinct buckets bs r skip h d =
    subst (λ x. Distinct text_dec x) (some_inj buckets bs h) d
put_group-Distinct buckets bs r unsupported h d = absurd (ground (arith, h))

module _ (test : UsageRecord → Bool) (by : GroupBy) where
  -- A record that is counted in the row of a group.
  abbrev pub counted : Text → UsageRecord → Bool
  counted k r = test r && is_group (group_of by r) k

  breakdown-skip :
      (r : UsageRecord) (rs : List UsageRecord) (b : List (Text × UsageTotals))
      → test r ≡ false
      → breakdown_from test by (r ∷ rs) b ≡ breakdown_from test by rs b
  unfolding breakdown_from
  breakdown-skip r rs b h = rw (h, breakdown_from) refl

  breakdown-refused :
      (r : UsageRecord) (rs : List UsageRecord) (b : List (Text × UsageTotals))
      → test r ≡ true
      → put_group b r (group_of by r) ≡ none
      → breakdown_from test by (r ∷ rs) b ≡ none
  unfolding breakdown_from
  breakdown-refused r rs b h p = rw (h, p, breakdown_from) refl

  breakdown-next :
      (r : UsageRecord) (rs : List UsageRecord) (b c : List (Text × UsageTotals))
      → test r ≡ true
      → put_group b r (group_of by r) ≡ some c
      → breakdown_from test by (r ∷ rs) b ≡ breakdown_from test by rs c
  unfolding breakdown_from
  breakdown-next r rs b c h p = rw (h, p, breakdown_from) refl

  -- Where a loop over the records ends: its rows are a map, and each has the totals of its group.
  record Rows (rs : List UsageRecord) (b bs : List (Text × UsageTotals)) : Type 0 where
    distinct : Distinct text_dec b → Distinct text_dec bs
    totals : (k : Text) → bucket_at bs k ≡ usage_from (counted k) rs (bucket_at b k)

  breakdown_from-Rows :
      (rs : List UsageRecord) (b bs : List (Text × UsageTotals))
      → breakdown_from test by rs b ≡ some bs
      → Rows rs b bs
  unfolding breakdown_from usage_from
  breakdown_from-Rows [] b bs h = record {
    distinct = λ d. subst (λ x. Distinct text_dec x) (some_inj b bs h) d;
    totals = λ k. ground (arith, h);
  }
  breakdown_from-Rows (r ∷ rs) b bs h = elim (Bool-cases (test r)) [
    | inr e ↦
        let rest = breakdown_from-Rows rs b bs (sym (breakdown-skip r rs b e) ∙ h) in
        record { distinct = rest.distinct; totals = λ k. ground (arith, e, rest.totals k) }
    | inl e ↦ elim (Option-cases (put_group b r (group_of by r))) [
      | inl p ↦ absurd (ground (arith, h, breakdown-refused r rs b e p))
      | inr (c, p) ↦
          let rest = breakdown_from-Rows rs c bs (sym (breakdown-next r rs b c e p) ∙ h) in
          record {
            distinct = λ d. rest.distinct (put_group-Distinct b c r (group_of by r) p d);
            totals =
                λ k. ground (arith, e, rest.totals k, put_group-bucket b c r (group_of by r) k p);
          }
    ]
  ]

-- The largest spend first.
abbrev pub NoCheaper : Text × UsageTotals → Text × UsageTotals → Type 0
NoCheaper s t = t.1.cost_usd ≤ s.1.cost_usd

spend_before-Decides : Decides spend_before NoCheaper
unfolding spend_before
spend_before-Decides = record {
  first = λ s t h. ground (arith, h);
  second = λ s t h. ground (arith, h);
  trans = λ s t u h g. omega arith;
}

abbrev pub IsBreakdown : Memory → Text → ℕ → ℕ → GroupBy → List (Text × UsageTotals) → Type 0
IsBreakdown m tenant since until by bs =
    Distinct text_dec bs
    × Ordered NoCheaper bs
    × ((k : Text)
        → bucket_at bs k
          ≡ usage_from (counted (λ r. in_window r.recorded_at since until) by k)
              (rows m.usage tenant) no_usage)

breakdown-none :
    (m : Memory) (tenant : Text) (since until : ℕ) (by : GroupBy)
    → breakdown_from (λ r. in_window r.recorded_at since until) by (rows m.usage tenant) [] ≡ none
    → usage_breakdown m tenant since until by ≡ none
unfolding usage_breakdown
breakdown-none m tenant since until by h = rw (h, usage_breakdown) refl

breakdown-some :
    (m : Memory) (tenant : Text) (since until : ℕ) (by : GroupBy) (b : List (Text × UsageTotals))
    → breakdown_from (λ r. in_window r.recorded_at since until) by (rows m.usage tenant) [] ≡ some b
    → usage_breakdown m tenant since until by ≡ some (sort_by spend_before b)
unfolding usage_breakdown
breakdown-some m tenant since until by b h = rw (h, usage_breakdown) refl

sorted_bucket :
    (b : List (Text × UsageTotals)) (k : Text)
    → Distinct text_dec b
    → bucket_at (sort_by spend_before b) k ≡ bucket_at b k
unfolding bucket_at
sorted_bucket b k d = ground (arith, lookup-sort_by text_dec spend_before k b d)

sorted-IsBreakdown :
    (m : Memory) (tenant : Text) (since until : ℕ) (by : GroupBy) (b : List (Text × UsageTotals))
    → breakdown_from (λ r. in_window r.recorded_at since until) by (rows m.usage tenant) [] ≡ some b
    → IsBreakdown m tenant since until by (sort_by spend_before b)
unfolding no_usage bucket_at lookup
sorted-IsBreakdown m tenant since until by b h =
    let test : UsageRecord → Bool = λ r. in_window r.recorded_at since until in
    let r = breakdown_from-Rows test by (rows m.usage tenant) [] b h in
    let d = r.distinct tt in
    (
      sort_by-Distinct text_dec spend_before b d,
      sort_by-Ordered spend_before NoCheaper spend_before-Decides b,
      λ k. sorted_bucket b k d ∙ r.totals k,
    )

usage_breakdown-IsBreakdown :
    (m : Memory) (tenant : Text) (since until : ℕ) (by : GroupBy) (bs : List (Text × UsageTotals))
    → usage_breakdown m tenant since until by ≡ some bs
    → IsBreakdown m tenant since until by bs
usage_breakdown-IsBreakdown m tenant since until by bs h =
    let test : UsageRecord → Bool = λ r. in_window r.recorded_at since until in
    elim (Option-cases (breakdown_from test by (rows m.usage tenant) [])) [
      | inl e ↦ absurd (ground (arith, h, breakdown-none m tenant since until by e))
      | inr (b, e) ↦
          subst (λ x. IsBreakdown m tenant since until by x)
            (some_inj (sort_by spend_before b) bs
              (sym (breakdown-some m tenant since until by b e) ∙ h))
            (sorted-IsBreakdown m tenant since until by b e)
    ]

usage_from-congr :
    (p q : UsageRecord → Bool) (rs : List UsageRecord) (out : UsageTotals)
    → ((r : UsageRecord) → p r ≡ q r)
    → usage_from p rs out ≡ usage_from q rs out
unfolding usage_from
usage_from-congr p q [] out h = refl
usage_from-congr p q (r ∷ rs) out h =
    ground (arith, h r, usage_from-congr p q rs (if q r then add_usage out r else out) h)

same_test :
    (r : UsageRecord) (prefix : Text) (since until : ℕ)
    → counted (λ x. in_window x.recorded_at since until) by_key prefix r
      ≡ (text_eq r.key_prefix prefix && in_window r.recorded_at since until)
unfolding is_group group_of
same_test r prefix since until = ground arith

by_key_of :
    (m : Memory) (tenant : Text) (since until : ℕ) (by : GroupBy) (bs : List (Text × UsageTotals))
    → by ≡ by_key
    → usage_breakdown m tenant since until by ≡ some bs
    → usage_breakdown m tenant since until by_key ≡ some bs
by_key_of m tenant since until by bs e h =
    subst (λ x. usage_breakdown m tenant since until x ≡ some bs) e h

-- A breakdown by key agrees with what each key's own quota is measured by.
breakdown-key_usage :
    (m : Memory) (tenant prefix : Text) (since until : ℕ) (bs : List (Text × UsageTotals))
    → usage_breakdown m tenant since until by_key ≡ some bs
    → bucket_at bs prefix ≡ key_usage m tenant prefix since until
unfolding key_usage
breakdown-key_usage m tenant prefix since until bs h =
    (usage_breakdown-IsBreakdown m tenant since until by_key bs h).2 prefix
    ∙ usage_from-congr (counted (λ r. in_window r.recorded_at since until) by_key prefix)
        (λ r. text_eq r.key_prefix prefix && in_window r.recorded_at since until)
        (rows m.usage tenant) no_usage (λ r. same_test r prefix since until)

-- A breakdown has no key twice, is ordered by
-- spend with the largest first, and each row has the totals of its group's records in the window;
-- by key, that is what key_usage answers for the key.
pub usage_breakdown-rows :
    (m : Memory) (tenant : Text) (since until : ℕ) (by : GroupBy) (bs : List (Text × UsageTotals))
    → usage_breakdown m tenant since until by ≡ some bs
    → IsBreakdown m tenant since until by bs
      × (by ≡ by_key
          → (prefix : Text) → bucket_at bs prefix ≡ key_usage m tenant prefix since until)
usage_breakdown-rows m tenant since until by bs h = (
  usage_breakdown-IsBreakdown m tenant since until by bs h,
  λ e prefix.
      breakdown-key_usage m tenant prefix since until bs (by_key_of m tenant since until by bs e h),
)
