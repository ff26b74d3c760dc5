-- ===== src/LogPage/Walk.antt =====
-- The entries of a page, read from its start: what `LogPage::EntryIterator` visits.
use native.Mathlib.Decide.{dec_lt}
use tellstore.Prelude.{
  ℕ, zero, suc, ◌+◌, ◌-◌, ◌%◌, ◌^◌, ◌≤◌, ◌<◌, ◌≡◌, ◌≢◌, refl, ◌⊎◌, inl, inr, ◌==◌, if◌then◌else◌,
  arith, Bool-cases, ap, ◌∙◌, sym,
}
use tellstore.Align.{Aligner}
use tellstore.LogPage.{LogPage, entry_size, entry_size_from_size, size}

module _ (aligner : Aligner) (page_size : ℕ) where
  -- `operator++`
  unfoldable next : LogPage → ℕ → ℕ
  next page p = p + entry_size aligner page_size (page.entries p)

  -- A step of an iteration. Every entry before its end, an offset of the page, is acquired; where none
  -- is, there is no further step.
  pub advance : LogPage → ℕ → ℕ
  unfolding next
  advance page p = if (page.entries p).size_word == 0 then p else next page p

  pub walk : LogPage → ℕ → ℕ
  walk page zero = 0
  walk page (suc n) = advance page (walk page n)

  -- The iterator comes to the position.
  abbrev pub IsVisited : LogPage → ℕ → Type 0
  IsVisited page p = (n : ℕ) × (walk page n ≡ p)

  advance-ge : (page : LogPage) (p : ℕ) → p ≤ advance page p
  unfolding advance
  advance-ge page p = ground arith

  walk-le-add : (page : LogPage) (n k : ℕ) → walk page n ≤ walk page (n + k)
  unfolding walk
  walk-le-add page n zero = let e : n + 0 ≡ n = omega arith in rw e (omega arith)
  walk-le-add page n (suc k) =
      let e : n + suc k ≡ suc (n + k) = omega arith in
      rw (e, walk) (omega (arith, walk-le-add page n k, advance-ge page (walk page (n + k))))

  walk-advance-le : (page : LogPage) (n m : ℕ) → n < m → advance page (walk page n) ≤ walk page m
  unfolding walk
  walk-advance-le page n m lt =
      let e : m ≡ suc n + (m - suc n) = omega arith in rw e (walk-le-add page (suc n) (m - suc n))

  -- Of two visited positions one is behind the entry at the other.
  pub visited_apart :
      (page : LogPage) (p q : ℕ)
      → IsVisited page p
      → IsVisited page q
      → (p ≡ q) ⊎ (advance page p ≤ q) ⊎ (advance page q ≤ p)
  visited_apart page p q (n, a) (m, b) = elim (dec_lt n m) [
    | yes lt ↦ inr (inl (rw (← a, ← b) (walk-advance-le page n m lt)))
    | no ge ↦ elim (dec_lt m n) [
      | yes lt ↦ inr (inr (rw (← a, ← b) (walk-advance-le page m n lt)))
      | no ge' ↦ let e : n ≡ m = omega arith in inl (rw (← a, ← b, e))
    ]
  ]

  pub IsVisited-zero : (page : LogPage) → IsVisited page 0
  unfolding walk
  IsVisited-zero page = (0, refl)

  pub IsVisited-advance :
      (page : LogPage) (p : ℕ) → IsVisited page p → IsVisited page (advance page p)
  unfolding walk
  IsVisited-advance page p (n, a) = (suc n, ap (advance page) a)

  -- Acquired entries keep their sizes in `page'`.
  abbrev pub Extends : LogPage → LogPage → Type 0
  Extends page page' =
      (p : ℕ)
      → (page.entries p).size_word ≢ 0
      → ((page'.entries p).size_word ≢ 0) × (size (page'.entries p) ≡ size (page.entries p))

  advance-Extends :
      (page page' : LogPage) (p : ℕ)
      → Extends page page'
      → (page.entries p).size_word ≢ 0
      → advance page' p ≡ advance page p
  unfolding advance entry_size
  advance-Extends page page' p ext acq = ground (arith, ext p acq)

  advance-free : (page : LogPage) (p : ℕ) → (page.entries p).size_word ≡ 0 → advance page p ≡ p
  unfolding advance
  advance-free page p h = ground arith

  pub advance-acquired :
      (page : LogPage) (p : ℕ)
      → (page.entries p).size_word ≢ 0
      → advance page p ≡ p + entry_size aligner page_size (page.entries p)
  unfolding advance
  advance-acquired page p h = ground arith

  walk-Extends :
      (page page' : LogPage) → Extends page page' → (n : ℕ) → IsVisited page' (walk page n)
  unfolding walk
  walk-Extends page page' ext zero = (0, refl)
  walk-Extends page page' ext (suc n) =
      let (m, a) = walk-Extends page page' ext n in
      elim (Bool-cases ((page.entries (walk page n)).size_word == 0)) [
        | inl free ↦ (m, a ∙ sym (advance-free page (walk page n) (ground arith)))
        | inr acq ↦ (suc m, rw a (advance-Extends page page' (walk page n) ext (ground arith)))
      ]

  pub IsVisited-Extends :
      (page page' : LogPage) (p : ℕ) → Extends page page' → IsVisited page p → IsVisited page' p
  IsVisited-Extends page page' p ext (n, a) = rw (← a) (walk-Extends page page' ext n)

  -- An entry takes its payload size and the header, rounded up, with no wrap below 2^31.
  pub entry_size_bounds :
      (n : ℕ)
      → n < 2 ^ 31
      → (n + 8 ≤ entry_size_from_size aligner page_size n)
        × (entry_size_from_size aligner page_size n < n + 24)
        × (entry_size_from_size aligner page_size n % 16 ≡ 0)
  unfolding entry_size_from_size
  entry_size_bounds n h =
      let lo = aligner.align-ge (n + 8) 16 (omega arith) in
      let hi = aligner.align-lt (n + 8) 16 (omega arith) in
      let m = aligner.align-mod (n + 8) 16 (omega arith) in (omega arith, omega arith, omega arith)
