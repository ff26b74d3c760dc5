-- ===== src/InsertTable/Valid.antt =====
-- The invariant of `InsertTable`: the constructor sets it up, and every operation keeps it.
use tellstore.Prelude.{
  ℕ, zero, suc, ◌+◌, ◌%◌, ◌<◌, ◌≡◌, ◌≢◌, refl, ◌⊎◌, inl, inr, none, some, arith, ◌∙◌, ◌==◌,
  Bool-cases, add-mod_injective, add-mod_surjective,
}
use tellstore.HashFunction.{HashFunction, hash}
use tellstore.InsertTable.{free_marker, Entry, InsertTable, store, make_table}
use tellstore.InsertTable.Probe.{find, IsClean}
use tellstore.InsertTable.Placed.{bucket_at, IsPlaced, shift, start}

-- Where the loop stopped, and what stands before that bucket.
pub record Stop (n : ℕ) (t : InsertTable) (pos key i : ℕ) : Type 0 where
  pub round : ℕ
  pub round-lt : round < n
  pub index : i ≡ (pos + round) % t.capacity
  pub stops : ((t.buckets i).value ≡ free_marker) ⊎ ((t.buckets i).key ≡ key)
  pub before :
      (e : ℕ)
      → e < round
      → ((bucket_at t pos e).value ≢ free_marker) × ((bucket_at t pos e).key ≢ key)

before-suc :
    (t : InsertTable) (pos key r : ℕ)
    → (t.buckets (pos % t.capacity)).value ≢ free_marker
    → (t.buckets (pos % t.capacity)).key ≢ key
    → ((e : ℕ)
        → e < r
        → ((bucket_at t (pos + 1) e).value ≢ free_marker) × ((bucket_at t (pos + 1) e).key ≢ key))
    → (e : ℕ) → e < suc r
    → ((bucket_at t pos e).value ≢ free_marker) × ((bucket_at t pos e).key ≢ key)
before-suc t pos key r v k before zero lt = rw start (v, k)
before-suc t pos key r v k before (suc e) lt = rw (← shift) (before e (omega arith))

Stop-here :
    (n : ℕ) (t : InsertTable) (pos key i : ℕ)
    → i ≡ pos % t.capacity
    → ((t.buckets i).value ≡ free_marker) ⊎ ((t.buckets i).key ≡ key)
    → Stop (suc n) t pos key i
Stop-here n t pos key i e stops = record {
  round = 0;
  round-lt = omega arith;
  index = let q : pos + 0 ≡ pos = omega arith in rw q e;
  stops = stops;
  before = λ e lt. absurd (omega arith);
}

Stop-next :
    (n : ℕ) (t : InsertTable) (pos key i : ℕ)
    → (t.buckets (pos % t.capacity)).value ≢ free_marker
    → (t.buckets (pos % t.capacity)).key ≢ key
    → Stop n t (pos + 1) key i
    → Stop (suc n) t pos key i
Stop-next n t pos key i v k s = record {
  round = suc s.round;
  round-lt = omega (arith, s.round-lt);
  index = let q : pos + suc s.round ≡ pos + 1 + s.round = omega arith in rw q s.index;
  stops = s.stops;
  before = before-suc t pos key s.round v k s.before;
}

pub find-Stop :
    (n : ℕ) (t : InsertTable) (pos key i : ℕ) → find n t pos key ≡ some i → Stop n t pos key i
unfolding find
find-Stop zero t pos key i h = cc
find-Stop (suc n) t pos key i h =
    let entry = t.buckets (pos % t.capacity) in
    elim (Bool-cases (entry.value == free_marker)) [
      | inl free ↦ Stop-here n t pos key i (ground arith) (inl (ground arith))
      | inr taken ↦ elim (Bool-cases (entry.key == key)) [
        | inl same ↦ Stop-here n t pos key i (ground arith) (inr (ground arith))
        | inr other ↦
            Stop-next n t pos key i (ground arith) (ground arith)
              (find-Stop n t (pos + 1) key i (ground arith))
      ]
    ]

pub record IsValid (t : InsertTable) : Type 0 where
  pub roomy : 0 < t.capacity
  pub clean : IsClean t
  pub placed : (key : ℕ) → IsPlaced t.capacity t (hash t.hasher key) key

-- A new table is valid.
pub make_table-IsValid :
    (capacity : ℕ) (h : HashFunction) → 0 < capacity → IsValid (make_table capacity h)
unfolding bucket_at
make_table-IsValid capacity h pos = record {
  roomy = pos;
  clean = λ i e. refl;
  placed = λ key d e lt lt' holds. absurd (holds.0 refl);
}

module _ (t : InsertTable) (entry : Entry) (i : ℕ) (taken : entry.value ≢ free_marker)
    (stop : Stop t.capacity t (hash t.hasher entry.key) entry.key i) where
  -- The entry itself has only other, taken buckets before it.
  placed_self :
      (d e : ℕ)
      → d < t.capacity
      → e < d
      → (hash t.hasher entry.key + d) % t.capacity ≡ i
      → let before = t.buckets ((hash t.hasher entry.key + e) % t.capacity) in
        (before.value ≢ free_marker) × (before.key ≢ entry.key)
  unfolding bucket_at
  placed_self d e lt lt' at =
      let pos = hash t.hasher entry.key in
      let same : d ≡ stop.round =
        add-mod_injective t.capacity pos d stop.round lt stop.round-lt (at ∙ stop.index) in
      stop.before e (omega arith)

  store-IsPlaced :
      ((key : ℕ) → IsPlaced t.capacity t (hash t.hasher key) key)
      → (key : ℕ) → IsPlaced t.capacity (store t i entry) (hash t.hasher key) key
  unfolding bucket_at
  store-IsPlaced placed key d e lt lt' holds =
      let pos = hash t.hasher key in
      ground (
        arith,
        stop.stops,
        placed key d e lt lt',
        placed_self d e lt lt',
        add-mod_injective t.capacity pos d e lt,
      )

-- A write where the loop stopped keeps the invariant.
pub store-IsValid :
    (t : InsertTable) (entry : Entry) (i : ℕ)
    → IsValid t
    → entry.value ≢ free_marker
    → find t.capacity t (hash t.hasher entry.key) entry.key ≡ some i
    → IsValid (store t i entry)
store-IsValid t entry i v taken h =
    let stop = find-Stop t.capacity t (hash t.hasher entry.key) entry.key i h in
    record {
      roomy = v.roomy;
      clean = λ j e. ground (arith, v.clean j);
      placed = store-IsPlaced t entry i taken stop v.placed;
    }

-- Where no bucket stops the loop, none is free.
find_full :
    (n : ℕ) (t : InsertTable) (pos key : ℕ)
    → find n t pos key ≡ none
    → (d : ℕ) → d < n
    → (bucket_at t pos d).value ≢ free_marker
unfolding find
find_full zero t pos key h d lt = absurd (omega arith)
find_full (suc n) t pos key h zero lt = rw start (ground arith)
find_full (suc n) t pos key h (suc d) lt =
    rw (← shift) (find_full n t (pos + 1) key (ground arith) d (omega arith))

pub find-ne-none :
    (t : InsertTable) (key i : ℕ)
    → i < t.capacity
    → (t.buckets i).value ≡ free_marker
    → find t.capacity t (hash t.hasher key) key ≢ none
unfolding bucket_at
find-ne-none t key i lt free h =
    let pos = hash t.hasher key in
    let (d, lt', at) = add-mod_surjective t.capacity pos i lt in
    find_full t.capacity t pos key h d lt' (rw (at, bucket_at) free)
