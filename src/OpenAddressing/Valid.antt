-- ===== src/OpenAddressing/Valid.antt =====
-- The invariant of `OpenAddressingTable` between operations, and the writes that keep it.
use tellstore.Prelude.{
  ℕ, zero, suc, ◌+◌, ◌%◌, ◌^◌, ◌≤◌, ◌<◌, ◌≡◌, ◌≢◌, refl, none, some, arith, ap, ◌==◌, Bool-cases,
  inl, inr, ◌⊎◌, ◌∙◌, sym, update_ne, update-cases, add-mod_injective,
}
use mathlib.Core.Path.{subst₂}
use tellstore.HashFunction.{HashFunction}
use tellstore.OpenAddressing.{
  free_marker, deleted_marker, deleted_entry, Entry, OpenAddressingTable, store, rounds,
  calculate_hash, make_table,
}
use tellstore.OpenAddressing.Probe.{find_live, find_claim}
use tellstore.OpenAddressing.Placed.{
  IsHeld, bucket_at, IsPlaced, IsAbsent, IsAbsent-of_find, shift, start,
}
use tellstore.OpenAddressing.Conflict.{IsQuiet, IsClaimable}

pub record IsValid (t : OpenAddressingTable) : Type 0 where
  pub roomy : 0 < t.capacity
  pub small : t.capacity < 2 ^ 64
  pub quiet : IsQuiet t
  pub placed :
      (table key : ℕ) → let h = calculate_hash t table key in IsPlaced (rounds t h) t h table key

-- A loop makes no more rounds than there are buckets.
pub rounds-le : (t : OpenAddressingTable) (h : ℕ) → t.capacity < 2 ^ 64 → rounds t h ≤ t.capacity
rounds-le t h small = omega arith

-- A new table is valid.
pub make_table-IsValid :
    (capacity : ℕ) (f g : HashFunction) (combine : ℕ → ℕ → ℕ)
    → 0 < capacity
    → capacity < 2 ^ 64
    → IsValid (make_table capacity f g combine)
unfolding bucket_at
make_table-IsValid capacity f g combine pos small = record {
  roomy = pos;
  small = small;
  quiet = λ i. inl refl;
  placed = λ table key d e lt lt' h. absurd (h.1 refl);
}

-- The first bucket that an insert may claim.
pub record Claim (n : ℕ) (t : OpenAddressingTable) (pos c : ℕ) : Type 0 where
  pub round : ℕ
  pub round-lt : round < n
  pub index : c ≡ pos + round
  pub claimable : IsClaimable (t.buckets (c % t.capacity))
  pub before : (e : ℕ) → e < round → (bucket_at t pos e).ptr ≢ 0

Claim-here :
    (n : ℕ) (t : OpenAddressingTable) (pos c : ℕ)
    → c ≡ pos
    → IsClaimable (t.buckets (c % t.capacity))
    → Claim (suc n) t pos c
Claim-here n t pos c e claimable = record {
  round = 0;
  round-lt = omega arith;
  index = omega arith;
  claimable = claimable;
  before = λ x lt. absurd (omega arith);
}

taken-suc :
    (t : OpenAddressingTable) (pos r : ℕ)
    → (t.buckets (pos % t.capacity)).ptr ≢ 0
    → ((e : ℕ) → e < r → (bucket_at t (pos + 1) e).ptr ≢ 0)
    → (e : ℕ) → e < suc r
    → (bucket_at t pos e).ptr ≢ 0
taken-suc t pos r taken before zero lt = rw start taken
taken-suc t pos r taken before (suc e) lt = rw (← shift) (before e (omega arith))

Claim-next :
    (n : ℕ) (t : OpenAddressingTable) (pos c : ℕ)
    → (t.buckets (pos % t.capacity)).ptr ≢ 0
    → Claim n t (pos + 1) c
    → Claim (suc n) t pos c
Claim-next n t pos c taken s = record {
  round = suc s.round;
  round-lt = omega (arith, s.round-lt);
  index = omega (arith, s.index);
  claimable = s.claimable;
  before = taken-suc t pos s.round taken s.before;
}

pub find_claim-Claim :
    (n : ℕ) (t : OpenAddressingTable) (pos c : ℕ) → find_claim n t pos ≡ some c → Claim n t pos c
unfolding find_claim
find_claim-Claim zero t pos c h = cc
find_claim-Claim (suc n) t pos c h =
    let ptr = (t.buckets (pos % t.capacity)).ptr in
    elim (Bool-cases (ptr == deleted_marker)) [
      | inl deleted ↦ Claim-here n t pos c (ground arith) (inr (ground arith))
      | inr other ↦ elim (Bool-cases (ptr == free_marker)) [
        | inl free ↦ Claim-here n t pos c (ground arith) (inl (ground arith))
        | inr taken ↦
            Claim-next n t pos c (ground arith) (find_claim-Claim n t (pos + 1) c (ground arith))
      ]
    ]

-- A write of a taken entry keeps a key placed if it adds no second bucket of that key, and none
-- behind a free one.
IsPlaced-store :
    (n : ℕ) (t : OpenAddressingTable) (pos i : ℕ) (entry : Entry) (table key : ℕ)
    → n ≤ t.capacity
    → IsPlaced n t pos table key
    → entry.ptr ≢ 0
    → ((d e : ℕ)
        → d < n
        → e < d
        → (pos + d) % t.capacity ≡ i
        → IsHeld entry table key
        → ((bucket_at t pos e).ptr ≢ 0) × ¬ IsHeld (bucket_at t pos e) table key)
    → (IsHeld entry table key → IsAbsent n t pos table key ⊎ IsHeld (t.buckets i) table key)
    → IsPlaced n (store t i entry) pos table key
unfolding bucket_at
IsPlaced-store n t pos i entry table key le placed taken self once d e lt lt' held =
    let distinct = add-mod_injective t.capacity pos d e (omega arith) (omega arith) in
    elim (update-cases t.buckets i entry ((pos + d) % t.capacity)) [
      | inl (at, now) ↦
          let ne : (pos + e) % t.capacity ≢ i =
            λ x. absurd (omega (arith, distinct (at ∙ sym x))) in
          rw (update_ne t.buckets i ((pos + e) % t.capacity) entry ne)
            (self d e lt lt' at (rw now at held))
      | inr (away, same) ↦
          let old = rw same at held in
          let (live, other) = placed d e lt lt' old in
          elim (update-cases t.buckets i entry ((pos + e) % t.capacity)) [
            | inr (_, same') ↦ rw same' (live, other)
            | inl (at, now) ↦ rw now (
              taken,
              λ x. elim (once x) [
                | inl absent ↦ absent d lt old
                | inr was ↦ other (rw (at, bucket_at) was)
              ],
            )
          ]
    ]

-- A deletion keeps the invariant.
pub delete-IsValid :
    (t : OpenAddressingTable) (i : ℕ) → IsValid t → IsValid (store t i deleted_entry)
unfolding calculate_hash
delete-IsValid t i v = record {
  roomy = v.roomy;
  small = v.small;
  quiet = λ j. ground (arith, v.quiet j);
  placed = λ table key.
      let h = calculate_hash t table key in
      IsPlaced-store (rounds t h) t h i deleted_entry table key (rounds-le t h v.small)
        (v.placed table key) (omega arith) (λ d e lt lt' at held. absurd (omega (arith, held.0)))
        (λ held. absurd (omega (arith, held.0)));
}

-- Another pointer for the key that a bucket holds keeps the invariant.
pub replace-IsValid :
    (t : OpenAddressingTable) (i : ℕ) (entry : Entry)
    → IsValid t
    → IsHeld (t.buckets i) entry.table_id entry.key_id
    → entry.ptr % 8 ≡ 0
    → entry.ptr ≢ 0
    → IsValid (store t i entry)
unfolding calculate_hash bucket_at
replace-IsValid t i entry v was aligned live = record {
  roomy = v.roomy;
  small = v.small;
  quiet = λ j. ground (arith, v.quiet j, v.quiet i);
  placed = λ table key.
      let h = calculate_hash t table key in
      let held_before : IsHeld entry table key → IsHeld (t.buckets i) table key =
        λ held. (was.0, was.1, was.2 ∙ held.2, was.3 ∙ held.3) in
      IsPlaced-store (rounds t h) t h i entry table key (rounds-le t h v.small) (v.placed table key)
        live
        (λ d e lt lt' at held.
          v.placed table key d e lt lt' (rw (at, bucket_at) (held_before held)))
        (λ held. inr (held_before held));
}

-- Nothing in the way of a key that is written in the bucket that an insert claims.
abbrev IsReachable : OpenAddressingTable → ℕ → ℕ → ℕ → Type 0
IsReachable t c table key =
    let h = calculate_hash t table key in
    IsAbsent (rounds t h) t h table key
    × ((d e : ℕ)
        → d < rounds t h
        → e < d
        → (h + d) % t.capacity ≡ c % t.capacity
        → ((bucket_at t h e).ptr ≢ 0) × ¬ IsHeld (bucket_at t h e) table key)

Claim-IsReachable :
    (t : OpenAddressingTable) (c table key : ℕ)
    → IsValid t
    → let h = calculate_hash t table key in
      Claim (rounds t h) t h c
      → find_live (rounds t h) t h table key ≡ none
      → IsReachable t c table key
Claim-IsReachable t c table key v claim none_found =
    let h = calculate_hash t table key in
    let absent = IsAbsent-of_find (rounds t h) t h table key (v.placed table key) none_found in
    (
      absent,
      λ d e lt lt' at.
          let le = rounds-le t h v.small in
          let at' : (h + d) % t.capacity ≡ (h + claim.round) % t.capacity =
            at ∙ ap (λ x. x % t.capacity) claim.index in
          let same : d ≡ claim.round =
            add-mod_injective t.capacity h d claim.round (omega arith)
              (omega (arith, claim.round-lt)) at' in
          (claim.before e (omega arith), absent e (omega arith)),
    )

-- A new key in the bucket that an insert claims keeps the invariant.
pub claim-IsValid :
    (t : OpenAddressingTable) (c : ℕ) (entry : Entry)
    → IsValid t
    → let h = calculate_hash t entry.table_id entry.key_id in
      Claim (rounds t h) t h c
      → find_live (rounds t h) t h entry.table_id entry.key_id ≡ none
      → entry.table_id ≢ 0
      → entry.ptr % 8 ≡ 0
      → entry.ptr ≢ 0
      → IsValid (store t (c % t.capacity) entry)
unfolding calculate_hash
claim-IsValid t c entry v claim none_found named aligned live =
    let way = Claim-IsReachable t c entry.table_id entry.key_id v claim none_found in
    let way_for : (table key : ℕ) → IsHeld entry table key → IsReachable t c table key =
      λ table key held. subst₂ (IsReachable t c) held.2 held.3 way in
    record {
      roomy = v.roomy;
      small = v.small;
      quiet = λ j. ground (arith, v.quiet j);
      placed = λ table key.
          let h = calculate_hash t table key in
          IsPlaced-store (rounds t h) t h (c % t.capacity) entry table key (rounds-le t h v.small)
            (v.placed table key) live
            (λ d e lt lt' at held. (way_for table key held).1 d e lt lt' at)
            (λ held. inl (way_for table key held).0);
    }
