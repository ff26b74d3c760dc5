-- ===== src/LogPage/Threads/Safety.antt =====
-- The invariant of a page and its appending threads, and that one access of a thread keeps it.
use tellstore.Prelude.{
  ℕ, ◌+◌, ◌/◌, ◌%◌, ◌^◌, ◌≤◌, ◌<◌, ◌≡◌, ◌≢◌, refl, Option, none, some, arith, ◌⊎◌, inl,
}
use tellstore.Align.{Aligner}
use tellstore.LogPage.{
  LogPage, Pc, start, trying, publishing, returned, Request, entry_size, entry_size_from_size,
  max_entry_size, size, offset,
}
use tellstore.LogPage.Walk.{IsVisited, Extends, IsVisited-Extends}

-- What `tryAcquire` asserts of a size.
abbrev pub IsRequest : Request → Type 0
IsRequest r = (0 < r.size) × (r.size < 2 ^ 31)

module _ (aligner : Aligner) (page_size : ℕ) where
  abbrev pub es : ℕ → ℕ
  es n = entry_size_from_size aligner page_size n

  abbrev pub max_size : ℕ
  max_size = max_entry_size aligner page_size

  pub record IsPageSafe (page : LogPage) : Type 0 where
    pub fits :
        (p : ℕ)
        → (page.entries p).size_word ≢ 0
        → p + entry_size aligner page_size (page.entries p) ≤ max_size
    pub visited : IsVisited aligner page_size page (offset page)
    pub small : offset page ≤ max_size
    pub word : (p : ℕ) → (page.entries p).size_word < 2 ^ 32
    pub filled : (p : ℕ) → (page.entries p).size_word ≢ 0 → 0 < size (page.entries p)

  -- The entry at the position is acquired for the request.
  pub record IsOwned (page : LogPage) (r : Request) (p : ℕ) : Type 0 where
    pub visited : IsVisited aligner page_size page p
    pub acquired : (page.entries p).size_word ≢ 0
    pub sized : size (page.entries p) ≡ r.size

  abbrev pub IsSeen : LogPage → ℕ → Type 0
  IsSeen page seen = (seen % 2 ≡ 1) × (seen / 2 ≤ offset page)

  abbrev pub IsPcSafe : LogPage → Request → Pc → Type 0
  IsPcSafe page r start = Unit {0}
  IsPcSafe page r (trying p seen) =
      IsVisited aligner page_size page p
      × (p ≤ max_size)
      × (es r.size ≤ max_size)
      × IsSeen page seen
  IsPcSafe page r (publishing p end seen) =
      IsOwned page r p × (end ≡ p + es r.size) × (end ≤ max_size) × IsSeen page seen
  IsPcSafe page r (returned none) = Unit {0}
  IsPcSafe page r (returned (some p)) = IsOwned page r p × (p + es r.size ≤ offset page)

  -- The position whose entry a thread has acquired.
  abbrev pub held : Pc → Option ℕ
  held start = none
  held (trying p seen) = none
  held (publishing p end seen) = some p
  held (returned r) = r

  IsOwned-Extends :
      (page page' : LogPage) (r : Request) (p : ℕ)
      → Extends aligner page_size page page'
      → IsOwned page r p
      → IsOwned page' r p
  IsOwned-Extends page page' r p ext o =
      let (acq, same) = ext p o.acquired in
      record {
        visited = IsVisited-Extends aligner page_size page page' p ext o.visited;
        acquired = acq;
        sized = ground arith;
      }

  -- What a thread knows stays true while entries are added and the offset grows.
  pub IsPcSafe-Extends :
      (page page' : LogPage) (r : Request) (pc : Pc)
      → Extends aligner page_size page page'
      → offset page ≤ offset page'
      → IsPcSafe page r pc
      → IsPcSafe page' r pc
  IsPcSafe-Extends page page' r start ext le h = tt
  IsPcSafe-Extends page page' r (trying p seen) ext le h =
      (IsVisited-Extends aligner page_size page page' p ext h.0, h.1, h.2, (h.3.0, omega arith))
  IsPcSafe-Extends page page' r (publishing p end seen) ext le h =
      (IsOwned-Extends page page' r p ext h.0, h.1, h.2, (h.3.0, omega arith))
  IsPcSafe-Extends page page' r (returned none) ext le h = tt
  IsPcSafe-Extends page page' r (returned (some p)) ext le h =
      (IsOwned-Extends page page' r p ext h.0, omega arith)

  -- What one access of a thread does: `pc` and `page` become `pc'` and `page'`.
  pub record Progress (page : LogPage) (r : Request) (pc : Pc) (page' : LogPage) (pc' : Pc)
      : Type 0 where
    pub page_safe : IsPageSafe page'
    pub pc_safe : IsPcSafe page' r pc'
    pub extends : Extends aligner page_size page page'
    pub grows : offset page ≤ offset page'
    pub fresh : (p : ℕ) → held pc' ≡ some p → (held pc ≡ some p) ⊎ ((page.entries p).size_word ≡ 0)

  -- A step that leaves the page alone and acquires nothing.
  pub stay :
      (page : LogPage) (r : Request) (pc pc' : Pc)
      → IsPageSafe page
      → IsPcSafe page r pc'
      → ((p : ℕ) → held pc' ≡ some p → held pc ≡ some p)
      → Progress page r pc page pc'
  stay page r pc pc' safe h keep = record {
    page_safe = safe;
    pc_safe = h;
    extends = λ p acq. (acq, refl);
    grows = omega arith;
    fresh = λ p e. inl (keep p e);
  }
