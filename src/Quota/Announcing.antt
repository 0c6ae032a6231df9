-- ===== src/Quota/Announcing.antt =====
-- Which crossings are announced.
use cogni_gate.Prelude.{
  ◌≡◌, refl, true, some, List, arith, ltb, Text, text_dec, lookup, lookup-insert_self,
}
use cogni_gate.Quota.{
  SlotPosition, Announcement, quota_gauge, announce_key, told_before, should_announce,
}

announced_found :
    (m : List (Text × Announcement)) (scope : Text) (p : SlotPosition)
    → (should_announce m scope p).1 ≡ true
    → lookup text_dec (announce_key scope p) (should_announce m scope p).0
      ≡ some record { since = p.since; state = p.state }
unfolding should_announce
announced_found m scope p h = ground (
  arith,
  h,
  lookup-insert_self text_dec (announce_key scope p) (record { since = p.since; state = p.state })
      m,
)

same_key :
    (scope : Text) (p q : SlotPosition)
    → p.window ≡ q.window
    → p.unit ≡ q.unit
    → announce_key scope p ≡ announce_key scope q
unfolding announce_key
same_key scope p q w u = rw (w, u) refl

-- After a slot is announced for a scope, no slot of the same window, unit and period is announced
-- for the scope right after it unless its state is worse, whether it is the tenant's own or the key's.
pub announced_once :
    (m : List (Text × Announcement)) (scope : Text) (p q : SlotPosition)
    → (should_announce m scope p).1 ≡ true
    → p.window ≡ q.window
    → p.unit ≡ q.unit
    → p.since ≡ q.since
    → (should_announce (should_announce m scope p).0 scope q).1
      ≡ ltb (quota_gauge p.state) (quota_gauge q.state)
unfolding should_announce told_before
announced_once m scope p q h w u s =
    ground (arith, h, s, same_key scope p q w u, announced_found m scope p h)
