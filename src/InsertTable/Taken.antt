-- ===== src/InsertTable/Taken.antt =====
-- The number of buckets that `InsertTable` has used up.
use tellstore.Prelude.{
  ℕ, zero, suc, ◌+◌, ◌≤◌, ◌<◌, ◌≡◌, refl, Option, none, some, arith, ◌==◌, if◌then◌else◌, update,
  Bool-cases, inl, inr,
}
use tellstore.HashFunction.{HashFunction}
use tellstore.InsertTable.{free_marker, Entry, InsertTable, make_table, insert}
use tellstore.InsertTable.Probe.{insert_at}
use tellstore.InsertTable.Operations.{insert-stop, stop_of}
use tellstore.InsertTable.Valid.{IsValid}

unfoldable pub taken : ℕ → (ℕ → Entry) → ℕ
taken zero b = 0
taken (suc n) b = taken n b + (if (b n).value == free_marker then 0 else 1)

taken-update_above :
    (n : ℕ) (b : ℕ → Entry) (i : ℕ) (e : Entry) → n ≤ i → taken n (update b i e) ≡ taken n b
unfolding taken
taken-update_above zero b i e h = refl
taken-update_above (suc n) b i e h = ground (arith, taken-update_above n b i e)

taken-update : (n : ℕ) (b : ℕ → Entry) (i : ℕ) (e : Entry) → taken n (update b i e) ≤ taken n b + 1
unfolding taken
taken-update zero b i e = omega arith
taken-update (suc n) b i e = ground (arith, taken-update n b i e, taken-update_above n b i e)

-- A count below the size leaves a free bucket.
pub free_bucket :
    (n : ℕ) (b : ℕ → Entry) → taken n b < n → (i : ℕ) × (i < n) × ((b i).value ≡ free_marker)
unfolding taken
free_bucket zero b h = absurd (omega arith)
free_bucket (suc n) b h = elim (Bool-cases ((b n).value == free_marker)) [
  | inl free ↦ (n, omega arith, ground arith)
  | inr used ↦ let (i, lt, e) = free_bucket n b (ground arith) in (i, omega arith, e)
]

pub taken-make_table :
    (n capacity : ℕ) (h : HashFunction) → taken n (make_table capacity h).buckets ≡ 0
unfolding taken
taken-make_table zero capacity h = refl
taken-make_table (suc n) capacity h = omega (arith, taken-make_table n capacity h)

-- An insert uses up one bucket at most.
pub taken-insert :
    (t : InsertTable) (key v : ℕ)
    → IsValid t
    → let t' = (insert t key v).2 in
      (taken t.capacity t'.buckets ≤ taken t.capacity t.buckets + 1) × (t'.capacity ≡ t.capacity)
taken-insert t key v valid = rw (insert-stop t key v valid) (go (stop_of t key))
  where
    go :
        (s : Option ℕ)
        → let t' = (insert_at t key v s).2 in
          (taken t.capacity t'.buckets ≤ taken t.capacity t.buckets + 1)
          × (t'.capacity ≡ t.capacity)
    go none = (omega arith, refl)
    go (some i) =
        let e : Entry = record { key = key; value = v } in
        ground (arith, taken-update t.capacity t.buckets i e)
