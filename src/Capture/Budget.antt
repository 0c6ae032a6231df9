-- ===== src/Capture/Budget.antt =====
-- The byte budget of a tenant's captures, and what a capture is followed by.
use cogni_gate.Prelude.{
  ℕ, ◌+◌, ◌-◌, ◌≤◌, ◌<◌, ◌≡◌, ◌∙◌, refl, ap, inl, inr, Bool-cases, Bool, true, false, ◌||◌, List,
  [], ◌∷◌, ◌++◌, arith, leb, ltb, if◌then◌else◌, Text, text_dec, text_eq, insert, lookup-insert,
  All,
}
use cogni_gate.Capture.{
  Entry, size, Bucket, Store, expire_from, expire, make_room, bucket_of, stored, put, newest_first,
  list,
}

unfoldable pub total : List Entry → ℕ
total [] = 0
total (e ∷ es) = size e + total es

expire_from-total :
    (now bytes : ℕ) (es : List Entry)
    → bytes ≡ total es
    → (expire_from now bytes es).0.bytes ≡ total (expire_from now bytes es).0.entries
unfolding expire_from total
expire_from-total now bytes [] h = h
expire_from-total now bytes (e ∷ es) h =
    ground (arith, h, expire_from-total now (bytes - size e) es (omega arith))

make_room-total :
    (max need bytes : ℕ) (es : List Entry)
    → bytes ≡ total es
    → need ≤ max
    → ((make_room max need bytes es).bytes ≡ total (make_room max need bytes es).entries)
      × ((make_room max need bytes es).bytes + need ≤ max)
unfolding make_room total
make_room-total max need bytes [] h n = (h, omega arith)
make_room-total max need bytes (e ∷ es) h n =
    ground (arith, h, make_room-total max need (bytes - size e) es (omega arith) n)

total-append : (es : List Entry) (e : Entry) → total (es ++ (e ∷ [])) ≡ total es + size e
unfolding total
total-append [] e = omega arith
total-append (x ∷ es) e = ground (arith, total-append es e)

-- A bucket's count is that of its entries, and within the budget.
abbrev pub Fits : ℕ → Bucket → Type 0
Fits max b = (b.bytes ≡ total b.entries) × (b.bytes ≤ max)

stored-Fits :
    (max : ℕ) (e : Entry) (b : Bucket) → size e ≤ max → Fits max b → Fits max (stored max e b)
unfolding stored expire
stored-Fits max e b n f =
    let b' = (expire_from e.at b.bytes b.entries).0 in
    let r = make_room max (size e) b'.bytes b'.entries in
    let m =
      make_room-total max (size e) b'.bytes b'.entries
        (expire_from-total e.at b.bytes b.entries f.0) n in
    (ground (arith, m.0, total-append r.entries e), m.1)

abbrev pub AllFit : Store → Type 0
AllFit s = (t : Text) → Fits s.max_bytes_per_tenant (bucket_of s t)

bucket_of-insert :
    (s : Store) (t u : Text) (b : Bucket)
    → bucket_of (record s { by_tenant = insert text_dec t b s.by_tenant }) u
      ≡ (if text_eq t u then b else bucket_of s u)
unfolding bucket_of
bucket_of-insert s t u b = ground (arith, lookup-insert text_dec t u b s.by_tenant)

put-bucket :
    (s : Store) (t u : Text) (e : Entry)
    → (put s t e).1 ≡ true
    → bucket_of (put s t e).0 u
      ≡ (if text_eq t u then stored s.max_bytes_per_tenant e (bucket_of s t) else bucket_of s u)
unfolding put
put-bucket s t u e h =
    ground (arith, h, bucket_of-insert s t u (stored s.max_bytes_per_tenant e (bucket_of s t)))

put-refused : (s : Store) (t : Text) (e : Entry) → (put s t e).1 ≡ false → (put s t e).0 ≡ s
unfolding put
put-refused s t e h = go (text_eq t [] || ltb s.max_bytes_per_tenant (size e)) refl
  where
    go : (b : Bool) → (text_eq t [] || ltb s.max_bytes_per_tenant (size e)) ≡ b → (put s t e).0 ≡ s
    go true q = rw (q, put) refl
    go false q = absurd (ground (arith, h, q))

put-max :
    (s : Store) (t : Text) (e : Entry) → (put s t e).0.max_bytes_per_tenant ≡ s.max_bytes_per_tenant
unfolding put
put-max s t e = ground arith

put-small :
    (s : Store) (t : Text) (e : Entry) → (put s t e).1 ≡ true → size e ≤ s.max_bytes_per_tenant
unfolding put
put-small s t e h = ground (arith, h)

either_Fits :
    (max : ℕ) (b : Bool) (x y : Bucket) → Fits max x → Fits max y → Fits max (if b then x else y)
either_Fits max true x y f g = f
either_Fits max false x y f g = g

-- Where every bucket's count is that of its entries and within the budget, that holds of every
-- bucket after a put, accepted or not.
pub put-AllFit : (s : Store) (t : Text) (e : Entry) → AllFit s → AllFit (put s t e).0
put-AllFit s t e f u = elim (Bool-cases (put s t e).1) [
  | inr h ↦ rw (put-refused s t e h) (f u)
  | inl h ↦
      let p = stored-Fits s.max_bytes_per_tenant e (bucket_of s t) (put-small s t e h) (f t) in
      rw (put-max s t e, put-bucket s t u e h)
        (either_Fits s.max_bytes_per_tenant (text_eq t u)
          (stored s.max_bytes_per_tenant e (bucket_of s t)) (bucket_of s u) p (f u))
]

newest_first-append :
    (now : ℕ) (es : List Entry) (e : Entry) (out : List Entry)
    → now < e.expires_at
    → newest_first now (es ++ (e ∷ [])) out ≡ e ∷ newest_first now es out
unfolding newest_first
newest_first-append now [] e out h = ground (arith, h)
newest_first-append now (x ∷ es) e out h =
    newest_first-append now es e (if leb x.expires_at now then out else x ∷ out) h

abbrev Live : ℕ → List Entry → Type 0
Live now es = All (λ (e : Entry). now < e.expires_at) es

newest_first-Live :
    (now : ℕ) (es out : List Entry) → Live now out → Live now (newest_first now es out)
unfolding newest_first
newest_first-Live now [] out l = l
newest_first-Live now (e ∷ es) out l =
    newest_first-Live now es (if leb e.expires_at now then out else e ∷ out) (ground (arith, l))

abbrev pub Shown : Store → Text → Entry → ℕ → List Entry → Type 0
Shown s t e now es =
    (es
      ≡ e
        ∷ newest_first now
            (make_room s.max_bytes_per_tenant (size e) (expire e.at (bucket_of s t)).0.bytes
              (expire e.at (bucket_of s t)).0.entries).entries
            [])
    × Live now es

-- After an accepted put, the tenant's list shows the new capture first while it is live, behind it
-- the captures that the budget left, and nothing that has expired.
pub list-put :
    (s : Store) (t : Text) (e : Entry) (now : ℕ)
    → (put s t e).1 ≡ true
    → now < e.expires_at
    → Shown s t e now (list (put s t e).0 t now)
unfolding list stored
list-put s t e now h l =
    let b' = (expire e.at (bucket_of s t)).0 in
    let r = make_room s.max_bytes_per_tenant (size e) b'.bytes b'.entries in
    let q : (bucket_of (put s t e).0 t).entries ≡ r.entries ++ (e ∷ []) =
      ground (arith, put-bucket s t t e h) in
    (
      ap (λ es. newest_first now es []) q ∙ newest_first-append now r.entries e [] l,
      newest_first-Live now (bucket_of (put s t e).0 t).entries [] tt,
    )
