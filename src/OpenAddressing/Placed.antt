-- ===== src/OpenAddressing/Placed.antt =====
-- The invariant that makes lookups in `OpenAddressingTable` complete, and what a write does to them.
use native.Mathlib.Decide.{ℕ_discrete}
use tellstore.Prelude.{
  ℕ, zero, suc, ◌+◌, ◌%◌, ◌<◌, ◌≡◌, ◌≢◌, refl, none, some, arith, ap, inl, inr, ◌∙◌, sym,
  update-cases, update_ne,
}
use tellstore.OpenAddressing.{Entry, OpenAddressingTable, store}
use tellstore.OpenAddressing.Probe.{find_live, find_claim}

-- The entry holds the key, with a pointer that carries no marker.
abbrev pub IsHeld : Entry → ℕ → ℕ → Type 0
IsHeld e table key = (e.ptr % 8 ≡ 0) × (e.ptr ≢ 0) × (e.table_id ≡ table) × (e.key_id ≡ key)

-- The bucket that a loop from `pos` reads in round `d`.
unfoldable pub bucket_at : OpenAddressingTable → ℕ → ℕ → Entry
bucket_at t pos d = t.buckets ((pos + d) % t.capacity)

-- No bucket before the one that holds a key is free, and none holds the key too.
abbrev pub IsPlaced : ℕ → OpenAddressingTable → ℕ → ℕ → ℕ → Type 0
IsPlaced n t pos table key =
    (d e : ℕ)
    → d < n
    → e < d
    → IsHeld (bucket_at t pos d) table key
    → ((bucket_at t pos e).ptr ≢ 0) × ¬ IsHeld (bucket_at t pos e) table key

abbrev pub IsAbsent : ℕ → OpenAddressingTable → ℕ → ℕ → ℕ → Type 0
IsAbsent n t pos table key = (d : ℕ) → d < n → ¬ IsHeld (bucket_at t pos d) table key

pub shift :
    (pos d : ℕ) (t : OpenAddressingTable) → bucket_at t (pos + 1) d ≡ bucket_at t pos (suc d)
unfolding bucket_at
shift pos d t =
    let e : pos + 1 + d ≡ pos + suc d = omega arith in ap (λ n. t.buckets (n % t.capacity)) e

pub start : (pos : ℕ) (t : OpenAddressingTable) → bucket_at t pos 0 ≡ t.buckets (pos % t.capacity)
unfolding bucket_at
start pos t = let e : pos + 0 ≡ pos = omega arith in ap (λ n. t.buckets (n % t.capacity)) e

pub IsPlaced-suc :
    (n : ℕ) (t : OpenAddressingTable) (pos table key : ℕ)
    → IsPlaced (suc n) t pos table key
    → IsPlaced n t (pos + 1) table key
IsPlaced-suc n t pos table key placed d e lt lt' h =
    rw shift (placed (suc d) (suc e) (omega arith) (omega arith) (rw shift at h))

IsAbsent-suc :
    (n : ℕ) (t : OpenAddressingTable) (pos table key : ℕ)
    → IsAbsent (suc n) t pos table key
    → IsAbsent n t (pos + 1) table key
IsAbsent-suc n t pos table key absent d lt h = absent (suc d) (omega arith) (rw shift at h)

pub find_absent :
    (n : ℕ) (t : OpenAddressingTable) (pos table key : ℕ)
    → IsAbsent n t pos table key
    → find_live n t pos table key ≡ none
unfolding find_live
find_absent zero t pos table key absent = refl
find_absent (suc n) t pos table key absent = ground (
  arith,
  start pos t,
  absent 0,
  find_absent n t (pos + 1) table key (IsAbsent-suc n t pos table key absent),
)

-- A placed key that is held is found.
pub find_held :
    (n : ℕ) (t : OpenAddressingTable) (pos table key d : ℕ)
    → IsPlaced n t pos table key
    → d < n
    → IsHeld (bucket_at t pos d) table key
    → find_live n t pos table key ≢ none
unfolding find_live
find_held zero t pos table key d placed lt h = absurd (omega arith)
find_held (suc n) t pos table key zero placed lt h = ground (arith, start pos t)
find_held (suc n) t pos table key (suc d) placed lt h = ground (
  arith,
  start pos t,
  placed (suc d) 0 lt (omega arith) h,
  find_held n t (pos + 1) table key d (IsPlaced-suc n t pos table key placed) (omega arith)
      (rw (← shift) at h),
)

pub IsAbsent-of_find :
    (n : ℕ) (t : OpenAddressingTable) (pos table key : ℕ)
    → IsPlaced n t pos table key
    → find_live n t pos table key ≡ none
    → IsAbsent n t pos table key
IsAbsent-of_find n t pos table key placed e d lt h = find_held n t pos table key d placed lt h e

-- Behind a free bucket the key is not found.
pub find_behind_free :
    (n : ℕ) (t : OpenAddressingTable) (pos table key : ℕ)
    → IsPlaced (suc n) t pos table key
    → (t.buckets (pos % t.capacity)).ptr ≡ 0
    → find_live n t (pos + 1) table key ≡ none
find_behind_free n t pos table key placed free =
    find_absent n t (pos + 1) table key
      λ d lt h. (placed (suc d) 0 (omega arith) (omega arith) (rw shift at h)).0 (rw start free)

-- One round of the search: past a taken bucket that does not hold the key, and at a free one.
pub find-skip :
    (n : ℕ) (t : OpenAddressingTable) (pos table key : ℕ)
    → (t.buckets (pos % t.capacity)).ptr ≢ 0
    → ¬ IsHeld (t.buckets (pos % t.capacity)) table key
    → find_live (suc n) t pos table key ≡ find_live n t (pos + 1) table key
unfolding find_live
find-skip n t pos table key taken other = ground arith

find-free :
    (n : ℕ) (t : OpenAddressingTable) (pos table key : ℕ)
    → (t.buckets (pos % t.capacity)).ptr ≡ 0
    → find_live (suc n) t pos table key ≡ none
unfolding find_live
find-free n t pos table key free = ground arith

find-same :
    (n : ℕ) (t : OpenAddressingTable) (pos i : ℕ) (entry : Entry) (table key : ℕ)
    → pos % t.capacity ≢ i
    → find_live n (store t i entry) (pos + 1) table key ≡ find_live n t (pos + 1) table key
    → find_live (suc n) (store t i entry) pos table key ≡ find_live (suc n) t pos table key
unfolding find_live
find-same n t pos i entry table key ne rest =
    rw (update_ne t.buckets i (pos % t.capacity) entry ne, rest)

-- A taken bucket that did not hold the key and does not hold it now changes no search for it.
pub find-store_other :
    (n : ℕ) (t : OpenAddressingTable) (pos i : ℕ) (entry : Entry) (table key : ℕ)
    → IsPlaced n t pos table key
    → entry.ptr ≢ 0
    → ¬ IsHeld entry table key
    → ¬ IsHeld (t.buckets i) table key
    → find_live n (store t i entry) pos table key ≡ find_live n t pos table key
unfolding find_live
find-store_other zero t pos i entry table key placed taken now was = refl
find-store_other (suc n) t pos i entry table key placed taken now was =
    let rest =
      find-store_other n t (pos + 1) i entry table key (IsPlaced-suc n t pos table key placed) taken
        now was in
    elim (update-cases t.buckets i entry (pos % t.capacity)) [
      | inr (ne, _) ↦ find-same n t pos i entry table key ne rest
      | inl (e, at) ↦
          let skip = find-skip n (store t i entry) pos table key (rw at taken) (rw at now) in
          elim (ℕ_discrete (t.buckets i).ptr 0) [
            | yes free ↦
                let free' : (t.buckets (pos % t.capacity)).ptr ≡ 0 = rw e free in
                skip
                ∙ rest
                ∙ find_behind_free n t pos table key placed free'
                ∙ sym (find-free n t pos table key free')
            | no live ↦ skip ∙ rest ∙ sym (find-skip n t pos table key (rw e live) (rw e was))
          ]
    ]

-- A key that is written where an insert claims a bucket is found there.
pub find-store_claim :
    (n : ℕ) (t : OpenAddressingTable) (pos c : ℕ) (entry : Entry)
    → find_claim n t pos ≡ some c
    → find_live n t pos entry.table_id entry.key_id ≡ none
    → entry.ptr % 8 ≡ 0
    → entry.ptr ≢ 0
    → find_live n (store t (c % t.capacity) entry) pos entry.table_id entry.key_id
      ≡ some (c % t.capacity)
unfolding find_live find_claim
find-store_claim zero t pos c entry claim absent aligned live = cc
find-store_claim (suc n) t pos c entry claim absent aligned live =
    ground (arith, find-store_claim n t (pos + 1) c entry)

-- A key whose pointer is replaced is found in the same bucket.
pub find-store_self :
    (n : ℕ) (t : OpenAddressingTable) (pos i : ℕ) (entry : Entry)
    → find_live n t pos entry.table_id entry.key_id ≡ some i
    → entry.ptr % 8 ≡ 0
    → entry.ptr ≢ 0
    → find_live n (store t i entry) pos entry.table_id entry.key_id ≡ some i
unfolding find_live
find-store_self zero t pos i entry h aligned live = h
find-store_self (suc n) t pos i entry h aligned live =
    ground (arith, find-store_self n t (pos + 1) i entry)

pub find-IsHeld :
    (n : ℕ) (t : OpenAddressingTable) (pos table key i : ℕ)
    → find_live n t pos table key ≡ some i
    → IsHeld (t.buckets i) table key
unfolding find_live
find-IsHeld zero t pos table key i h = cc
find-IsHeld (suc n) t pos table key i h = ground (arith, find-IsHeld n t (pos + 1) table key i)
