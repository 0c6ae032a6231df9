-- ===== src/Server/Completions/Stored.antt =====
-- What holds of every entry in the cache of gateway/internal/cache/cache.go, by its key.
use cogni_gate.Prelude.{
  ℕ, zero, suc, ◌≡◌, ◌∷◌, Bool, true, false, Option, none, some, Text, text_dec, if◌then◌else◌,
  refl, sym, arith, lookup, lookup-insert, lookup-delete, Bool-cases, Option-cases, inl, inr, ltb,
  leb, ◌||◌, subst,
}
use cogni_gate.Cache.{
  Cache, Entry, Item, get, put, evict, back, add, replaced, remove_element, unlink, entry_size,
  new_cache,
}
use cogni_gate.Cache.Operations.{get-none, get-live, get-expired, replaced-none, replaced-some}
use cogni_gate.Cache.Eviction.{evict-stop, evict-empty, evict-next}

module _ (P : Text → Entry → Type 0) where
  abbrev pub Holds : Cache → Type 0
  Holds c = (k : Text) (it : Item) → lookup text_dec k c.items ≡ some it → P k it.entry

  remove_element-Holds : (c : Cache) (it : Item) → Holds c → Holds (remove_element c it)
  unfolding remove_element
  remove_element-Holds c it h k x e =
      h k x (ground (arith, e, lookup-delete text_dec it.key k c.items))

  pub get-Holds : (c : Cache) (k : Text) (now : ℕ) → Holds c → Holds (get c k now).0
  get-Holds c k now h = elim (Option-cases (lookup text_dec k c.items)) [
    | inl e ↦ subst Holds (sym (get-none c k now e)) h
    | inr (it, e) ↦ elim (Bool-cases (ltb now it.expires)) [
      | inl l ↦ subst Holds (sym (get-live c k now it e l)) h
      | inr l ↦ subst Holds (sym (get-expired c k now it e l)) (remove_element-Holds c it h)
    ]
  ]

  pub get-P :
      (c : Cache) (k : Text) (now : ℕ) (e : Entry) → Holds c → (get c k now).1 ≡ some e → P k e
  unfolding get
  get-P c k now e h = go (lookup text_dec k c.items) refl
    where
      go :
          (o : Option Item)
          → lookup text_dec k c.items ≡ o
          → (elim o as (λ _. Cache × Option Entry) [
            | none ↦ (c, none)
            | some it ↦
                if ltb now it.expires
                then (record c { order = it ∷ unlink it.key c.order }, some it.entry)
                else (remove_element c it, none)
          ]).1
            ≡ some e
          → P k e
      go none l g = absurd (ground (arith, g))
      go (some it) l g = subst (P k) (ground (arith, g)) (h k it l)

  replaced-Holds : (c : Cache) (k : Text) → Holds c → Holds (replaced c k)
  replaced-Holds c k h = elim (Option-cases (lookup text_dec k c.items)) [
    | inl e ↦ subst Holds (sym (replaced-none c k e)) h
    | inr (it, e) ↦ subst Holds (sym (replaced-some c k it e)) (remove_element-Holds c it h)
  ]

  add-Holds : (c : Cache) (it : Item) → P it.key it.entry → Holds c → Holds (add c it)
  unfolding add
  add-Holds c it p h k x e = elim (text_dec it.key k) [
    | yes same ↦
        let here : it ≡ x = ground (arith, e, same, lookup-insert text_dec it.key k it c.items) in
        subst (λ (y : Item). P k y.entry) here (subst (λ j. P j it.entry) same p)
    | no other ↦ h k x (ground (arith, e, other, lookup-insert text_dec it.key k it c.items))
  ]

  evict-Holds : (rounds : ℕ) (c : Cache) → Holds c → Holds (evict rounds c)
  unfolding evict
  evict-Holds zero c h = h
  evict-Holds (suc rounds) c h = elim (Bool-cases (ltb c.max_bytes c.bytes)) [
    | inr within ↦ subst Holds (sym (evict-stop rounds c within)) h
    | inl over ↦ elim (Option-cases (back c.order)) [
      | inl e ↦ subst Holds (sym (evict-empty rounds c over e)) h
      | inr (it, e) ↦
          subst Holds (sym (evict-next rounds c it over e))
            (evict-Holds rounds (remove_element c it) (remove_element-Holds c it h))
    ]
  ]

  pub put-Holds :
      (c : Cache) (tenant k : Text) (e : Entry) (ttl now : ℕ)
      → P k e
      → Holds c
      → Holds (put c tenant k e ttl now)
  unfolding put
  put-Holds c tenant k e ttl now p h =
      if-Holds (leb ttl 0 || ltb c.max_entry_bytes (entry_size k e)) c _ h
        (evict-Holds _ _ (add-Holds (replaced c k) _ p (replaced-Holds c k h)))
    where
      if-Holds : (b : Bool) (x y : Cache) → Holds x → Holds y → Holds (if b then x else y)
      if-Holds true x y hx hy = hx
      if-Holds false x y hx hy = hy

  pub empty-Holds : (m n : ℕ) → Holds (new_cache m n)
  unfolding new_cache lookup
  empty-Holds m n k it e = absurd (ground (arith, e))
