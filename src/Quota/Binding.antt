-- ===== src/Quota/Binding.antt =====
-- The slot that binds a caller.
use cogni_gate.Prelude.{◌≤◌, ◌<◌, ◌≡◌, none, List, [], ◌∷◌, arith, All}
use cogni_gate.Quota.{
  quota_ok, SlotPosition, QuotaEntry, quota_gauge, weigh, weigh_all, bind_slots, resets_of,
}

-- No slot is worse than the entry, and none of its state resets later than the binding one.
abbrev pub Covers : QuotaEntry → SlotPosition → Type 0
Covers entry p =
    (quota_gauge p.state ≤ quota_gauge entry.state)
    × (0 < quota_gauge p.state
        → quota_gauge p.state ≡ quota_gauge entry.state
        → p.resets_at ≤ resets_of entry.binding)

weigh-Covers : (entry : QuotaEntry) (p : SlotPosition) → Covers (weigh entry p) p
unfolding weigh resets_of
weigh-Covers entry p = (ground arith, λ h e. ground (arith, h, e))

weigh-kept : (entry : QuotaEntry) (p q : SlotPosition) → Covers entry q → Covers (weigh entry p) q
unfolding weigh resets_of
weigh-kept entry p q c = (ground (arith, c.0), λ h e. ground (arith, h, e, c.0, c.1))

weigh_all-kept :
    (slots : List SlotPosition) (entry : QuotaEntry) (q : SlotPosition)
    → Covers entry q
    → Covers (weigh_all entry slots) q
unfolding weigh_all
weigh_all-kept [] entry q c = c
weigh_all-kept (p ∷ slots) entry q c =
    weigh_all-kept slots (weigh entry p) q (weigh-kept entry p q c)

weigh_all-Covers :
    (slots : List SlotPosition) (entry : QuotaEntry) → All (Covers (weigh_all entry slots)) slots
unfolding weigh_all
weigh_all-Covers [] entry = tt
weigh_all-Covers (p ∷ slots) entry = (
  weigh_all-kept slots (weigh entry p) p (weigh-Covers entry p),
  weigh_all-Covers slots (weigh entry p),
)

-- The entry computed from slots is at least as bad as each of them, and of the slots in its state,
-- where it is not ok, none resets after the binding one.
pub bind_slots-Covers : (slots : List SlotPosition) → All (Covers (bind_slots slots)) slots
unfolding bind_slots
bind_slots-Covers slots = weigh_all-Covers slots (record { state = quota_ok; binding = none })
