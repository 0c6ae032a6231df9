-- ===== src/Capture.antt =====
-- gateway/internal/capture/capture.go: debug captures under a byte budget for each tenant. The fields of an
-- entry that the store only carries are left out, and so are calls on a nil store.
pub mod Budget
mod Tests
use cogni_gate.Prelude.{
  ℕ, zero, suc, ◌+◌, ◌-◌, Bool, true, false, ◌||◌, not, Option, none, some, List, [], ◌∷◌, ◌++◌,
  leb, ltb, if◌then◌else◌, length, keep_if, Text, text_dec, text_eq, lookup, insert, delete,
}

pub record Entry : Type 0 where
  pub at : ℕ
  pub expires_at : ℕ
  pub request : Text
  pub response : Text

unfoldable pub size : Entry → ℕ
size e = length e.request + length e.response + 256

-- Oldest first.
pub record Bucket : Type 0 where
  pub bytes : ℕ
  pub entries : List Entry

pub record Store : Type 0 where
  pub max_bytes_per_tenant : ℕ
  pub by_tenant : List (Text × Bucket)

unfoldable pub new_store : ℕ → Store
new_store max = record { max_bytes_per_tenant = max; by_tenant = [] }

unfoldable pub empty_bucket : Bucket
empty_bucket = record { bytes = 0; entries = [] }

-- The loop of expire, which stops at the first entry still live, with the number cut.
unfoldable pub expire_from : ℕ → ℕ → List Entry → Bucket × ℕ
expire_from now bytes [] = (record { bytes = bytes; entries = [] }, 0)
expire_from now bytes (e ∷ es) =
    let rest = expire_from now (bytes - size e) es in
    if leb e.expires_at now
    then (rest.0, rest.1 + 1)
    else (record { bytes = bytes; entries = e ∷ es }, 0)

unfoldable pub expire : ℕ → Bucket → Bucket × ℕ
expire now b = expire_from now b.bytes b.entries

-- The loop of Put that drops the oldest entries.
unfoldable pub make_room : ℕ → ℕ → ℕ → List Entry → Bucket
make_room max need bytes [] = record { bytes = bytes; entries = [] }
make_room max need bytes (e ∷ es) =
    let rest = make_room max need (bytes - size e) es in
    if ltb max (bytes + need) then rest else record { bytes = bytes; entries = e ∷ es }

unfoldable pub bucket_of : Store → Text → Bucket
bucket_of s tenant = elim (lookup text_dec tenant s.by_tenant) [ none ↦ empty_bucket | some b ↦ b ]

unfoldable pub stored : ℕ → Entry → Bucket → Bucket
stored max e b =
    let b' = (expire e.at b).0 in
    let r = make_room max (size e) b'.bytes b'.entries in
    record { bytes = r.bytes + size e; entries = r.entries ++ (e ∷ []) }

unfoldable pub put : Store → Text → Entry → Store × Bool
put s tenant e = if text_eq tenant [] || ltb s.max_bytes_per_tenant (size e) then (s, false) else (
  record s {
    by_tenant =
        insert text_dec tenant (stored s.max_bytes_per_tenant e (bucket_of s tenant)) s.by_tenant;
  },
  true,
)

-- The loop of List, from the last entry to the first.
unfoldable pub newest_first : ℕ → List Entry → List Entry → List Entry
newest_first now [] out = out
newest_first now (e ∷ es) out = newest_first now es (if leb e.expires_at now then out else e ∷ out)

unfoldable pub list : Store → Text → ℕ → List Entry
list s tenant now = newest_first now (bucket_of s tenant).entries []

unfoldable pub sweep_from : ℕ → List (Text × Bucket) → List (Text × Bucket) × ℕ
sweep_from now [] = ([], 0)
sweep_from now ((t, b) ∷ bs) =
    let rest = sweep_from now bs in
    let x = expire now b in
    if leb (length x.0.entries) 0 then (rest.0, x.1 + rest.1) else ((t, x.0) ∷ rest.0, x.1 + rest.1)

unfoldable pub sweep : Store → ℕ → Store × ℕ
sweep s now = let r = sweep_from now s.by_tenant in (record s { by_tenant = r.0 }, r.1)

unfoldable pub flush : Store → Text → Store × ℕ
flush s tenant = elim (lookup text_dec tenant s.by_tenant) [
  | none ↦ (s, 0)
  | some b ↦ (record s { by_tenant = delete text_dec tenant s.by_tenant }, length b.entries)
]
