-- ===== src/Memory/ApiKeys/KeyTable.antt =====
-- The table of keys as a map, and the changes of it that keep a revoked key revoked.
use cogni_gate.Prelude.{
  ℕ, ◌≡◌, ◌≢◌, ◌∙◌, false, none, some, List, [], ◌∷◌, arith, Text, text_dec, lookup, insert,
  lookup-insert, Distinct, insert-Distinct,
}
use cogni_gate.Memory.Tables.{ApiKey}
use cogni_gate.Memory.Tenants.{drop_keys}
use cogni_gate.Memory.ApiKeys.{revoked, not_revoked}

-- The table of keys is a map from ids to keys of that id.
pub record IsMap (keys : List (Text × ApiKey)) : Type 0 where
  pub distinct : Distinct text_dec keys
  pub named : (i : Text) (k : ApiKey) → lookup text_dec i keys ≡ some k → k.id ≡ i

-- The key with an id, where there is one, is revoked.
abbrev pub Dead : Text → List (Text × ApiKey) → Type 0
Dead id keys = (k : ApiKey) → lookup text_dec id keys ≡ some k → not_revoked k.revoked_at ≡ false

-- A change of the table that keeps these.
pub record Keeps (id : Text) (old new : List (Text × ApiKey)) : Type 0 where
  pub map : IsMap old → IsMap new
  pub dead : IsMap old → Dead id old → Dead id new

pub same-Keeps : (id : Text) (old new : List (Text × ApiKey)) → new ≡ old → Keeps id old new
same-Keeps id old new e = record { map = λ h. rw e h; dead = λ h d. rw e d }

pub lookup-drop_keys-none :
    (t i : Text) (keys : List (Text × ApiKey))
    → lookup text_dec i keys ≡ none
    → lookup text_dec i (drop_keys t keys) ≡ none
unfolding drop_keys lookup
lookup-drop_keys-none t i [] h = h
lookup-drop_keys-none t i ((j, x) ∷ ks) h = ground (arith, h, lookup-drop_keys-none t i ks)

pub lookup-drop_keys :
    (t i : Text) (keys : List (Text × ApiKey)) (k : ApiKey)
    → Distinct text_dec keys
    → lookup text_dec i (drop_keys t keys) ≡ some k
    → lookup text_dec i keys ≡ some k
unfolding drop_keys lookup
lookup-drop_keys t i [] k d h = h
lookup-drop_keys t i ((j, x) ∷ ks) k d h = ground (arith, d.0, h, lookup-drop_keys t i ks k d.1)

pub drop_keys-Distinct :
    (t : Text) (keys : List (Text × ApiKey))
    → Distinct text_dec keys
    → Distinct text_dec (drop_keys t keys)
unfolding drop_keys
drop_keys-Distinct t [] d = tt
drop_keys-Distinct t ((j, x) ∷ ks) d =
    ground (arith, drop_keys-Distinct t ks d.1, lookup-drop_keys-none t j ks d.0)

pub drop_keys-Keeps : (id t : Text) (keys : List (Text × ApiKey)) → Keeps id keys (drop_keys t keys)
drop_keys-Keeps id t keys = record {
  map = λ h. record {
    distinct = drop_keys-Distinct t keys h.distinct;
    named = λ i k e. h.named i k (lookup-drop_keys t i keys k h.distinct e);
  };
  dead = λ h d k e. d k (lookup-drop_keys t id keys k h.distinct e);
}

pub insert-IsMap :
    (i : Text) (k : ApiKey) (keys : List (Text × ApiKey))
    → k.id ≡ i
    → IsMap keys
    → IsMap (insert text_dec i k keys)
insert-IsMap i k keys e h = record {
  distinct = insert-Distinct text_dec i k keys h.distinct;
  named = λ j x q. ground (arith, e, q, lookup-insert text_dec i j k keys, h.named j x);
}

pub insert_other-Keeps :
    (id i : Text) (k : ApiKey) (keys : List (Text × ApiKey))
    → k.id ≡ i
    → i ≢ id
    → Keeps id keys (insert text_dec i k keys)
insert_other-Keeps id i k keys e n = record {
  map = insert-IsMap i k keys e;
  dead = λ h d x q. ground (arith, n, q, lookup-insert text_dec i id k keys, d x);
}

pub revoked-not_revoked : (k : ApiKey) (now : ℕ) → not_revoked (revoked k now).revoked_at ≡ false
unfolding revoked not_revoked
revoked-not_revoked k now = ground arith

pub revoked-id : (k : ApiKey) (now : ℕ) → (revoked k now).id ≡ k.id
unfolding revoked
revoked-id k now = ground arith

pub revoke-IsMap :
    (i : Text) (k : ApiKey) (now : ℕ) (keys : List (Text × ApiKey))
    → lookup text_dec i keys ≡ some k
    → IsMap keys
    → IsMap (insert text_dec i (revoked k now) keys)
revoke-IsMap i k now keys e h =
    insert-IsMap i (revoked k now) keys (revoked-id k now ∙ h.named i k e) h

pub insert_revoked-Dead :
    (id i : Text) (k : ApiKey) (now : ℕ) (keys : List (Text × ApiKey))
    → Dead id keys
    → Dead id (insert text_dec i (revoked k now) keys)
insert_revoked-Dead id i k now keys d x q =
    ground
      (arith, q, lookup-insert text_dec i id (revoked k now) keys, d x, revoked-not_revoked k now)

pub revoke-Keeps :
    (id i : Text) (k : ApiKey) (now : ℕ) (keys : List (Text × ApiKey))
    → lookup text_dec i keys ≡ some k
    → Keeps id keys (insert text_dec i (revoked k now) keys)
revoke-Keeps id i k now keys e = record {
  map = revoke-IsMap i k now keys e;
  dead = λ h d. insert_revoked-Dead id i k now keys d;
}
