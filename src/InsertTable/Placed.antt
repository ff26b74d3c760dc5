-- ===== src/InsertTable/Placed.antt =====
-- The invariant that makes lookups in `InsertTable` complete, and what a write does to lookups.
use tellstore.Prelude.{ℕ, zero, suc, ◌+◌, ◌%◌, ◌<◌, ◌≡◌, ◌≢◌, refl, ◌⊎◌, none, some, arith, ap}
use tellstore.InsertTable.{free_marker, Entry, InsertTable, store}
use tellstore.InsertTable.Probe.{find, read}

abbrev pub Holds : Entry → ℕ → Type 0
Holds entry key = (entry.value ≢ free_marker) × (entry.key ≡ key)

-- The bucket that the loop for a key reads in round `d`.
unfoldable pub bucket_at : InsertTable → ℕ → ℕ → Entry
bucket_at t pos d = t.buckets ((pos + d) % t.capacity)

-- Every bucket before the one that holds a key is taken, by other keys.
abbrev pub IsPlaced : ℕ → InsertTable → ℕ → ℕ → Type 0
IsPlaced n t pos key =
    (d e : ℕ)
    → d < n
    → e < d
    → Holds (bucket_at t pos d) key
    → (((bucket_at t pos e).value ≢ free_marker) × ((bucket_at t pos e).key ≢ key))

abbrev IsAbsent : ℕ → InsertTable → ℕ → ℕ → Type 0
IsAbsent n t pos key = (d : ℕ) → d < n → Holds (bucket_at t pos d) key → ⊥

pub shift : (pos d : ℕ) (t : InsertTable) → bucket_at t (pos + 1) d ≡ bucket_at t pos (suc d)
unfolding bucket_at
shift pos d t =
    let e : pos + 1 + d ≡ pos + suc d = omega arith in ap (λ n. t.buckets (n % t.capacity)) e

pub start : (pos : ℕ) (t : InsertTable) → bucket_at t pos 0 ≡ t.buckets (pos % t.capacity)
unfolding bucket_at
start pos t = let e : pos + 0 ≡ pos = omega arith in ap (λ n. t.buckets (n % t.capacity)) e

IsPlaced-suc :
    (n : ℕ) (t : InsertTable) (pos key : ℕ)
    → IsPlaced (suc n) t pos key
    → IsPlaced n t (pos + 1) key
IsPlaced-suc n t pos key placed d e lt lt' h =
    rw shift (placed (suc d) (suc e) (omega arith) (omega arith) (rw shift at h))

-- A key that no bucket holds is not found.
read_absent :
    (n : ℕ) (t : InsertTable) (pos key : ℕ) → IsAbsent n t pos key → read n t pos key ≡ none
unfolding find
read_absent zero t pos key absent = refl
read_absent (suc n) t pos key absent = ground (
  arith,
  start pos t,
  absent 0,
  read_absent n t (pos + 1) key (λ d lt h. absent (suc d) (omega arith) (rw shift at h)),
)

-- Behind a free bucket the key is not found.
read_behind_free :
    (n : ℕ) (t : InsertTable) (pos key : ℕ)
    → IsPlaced (suc n) t pos key
    → (t.buckets (pos % t.capacity)).value ≡ free_marker
    → read n t (pos + 1) key ≡ none
read_behind_free n t pos key placed free =
    read_absent n t (pos + 1) key
      λ d lt h. (placed (suc d) 0 (omega arith) (omega arith) (rw shift at h)).0 (rw start free)

-- A bucket that takes a key or keeps it changes no lookup of another key.
pub read-store_other :
    (n : ℕ) (t : InsertTable) (pos i : ℕ) (entry : Entry) (key : ℕ)
    → IsPlaced n t pos key
    → entry.value ≢ free_marker
    → entry.key ≢ key
    → (((t.buckets i).value ≡ free_marker) ⊎ ((t.buckets i).key ≡ entry.key))
    → read n (store t i entry) pos key ≡ read n t pos key
unfolding find
read-store_other zero t pos i entry key placed taken other was = refl
read-store_other (suc n) t pos i entry key placed taken other was = ground (
  arith,
  read_behind_free n t pos key placed,
  read-store_other n t (pos + 1) i entry key (IsPlaced-suc n t pos key placed),
)

-- A bucket that held the key where the loop stopped, or was free there, is where it stops again.
pub find-store_self :
    (n : ℕ) (t : InsertTable) (pos i : ℕ) (entry : Entry)
    → find n t pos entry.key ≡ some i
    → find n (store t i entry) pos entry.key ≡ some i
unfolding find
find-store_self zero t pos i entry h = h
find-store_self (suc n) t pos i entry h = ground (arith, find-store_self n t (pos + 1) i entry)
