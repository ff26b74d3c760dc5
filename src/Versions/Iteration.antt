-- ===== src/Versions/Iteration.antt =====
-- The iterator visits the live entries of a chain.
use tellstore.Prelude.{
  ℕ, suc, ◌≤◌, ◌<◌, ◌≡◌, refl, false, List, [], ◌∷◌, arith, ltb, leb, Bool-cases, ◌⊎◌, inl, inr,
  length, ◌==◌, le→ltb,
}
use tellstore.Versions.{
  is_revert, UpdateLogEntry, UpdateRecordIterator, forward, next, iterate, max_version,
}
use tellstore.Versions.History.{Version, version_of, live, lowest}

-- Under a bound that is not above the base nothing is left.
pub live_base :
    (base bound : ℕ) (chain : List UpdateLogEntry) → bound ≤ base → live base bound chain ≡ []
unfolding live
live_base base bound [] h = refl
live_base base bound (e ∷ previous) h = ground (arith, live_base base bound previous h)

pub lowest_base :
    (base bound : ℕ) (chain : List UpdateLogEntry) → bound ≤ base → lowest base bound chain ≡ bound
unfolding lowest
lowest_base base bound [] h = refl
lowest_base base bound (e ∷ previous) h = ground (arith, lowest_base base bound previous h)

-- The iterator stands on an entry, or it is done: it has the versions `vs` before it, of entries
-- among the last `n` of the chain, and ends with the lowest version `low`.
abbrev pub Done : UpdateRecordIterator → List Version → ℕ → Type 0
Done it vs low = (it ≡ record { current = []; lowest_version = low }) × (vs ≡ [])

abbrev pub StandsOn :
    ℕ → UpdateRecordIterator → List Version → ℕ → ℕ → UpdateLogEntry → List UpdateLogEntry → Type 0
StandsOn base it vs low n entry previous =
    (it ≡ record { current = entry ∷ previous; lowest_version = entry.version })
    × (is_revert entry.type ≡ false)
    × (base ≤ entry.version)
    × (vs ≡ version_of entry ∷ live base entry.version previous)
    × (low ≡ lowest base entry.version previous)
    × (length previous < n)

abbrev pub Shows : ℕ → UpdateRecordIterator → List Version → ℕ → ℕ → Type 0
Shows base it vs low n =
    Done it vs low
    ⊎ ((entry : UpdateLogEntry) × (previous : List UpdateLogEntry) × StandsOn base it vs low n entry
          previous)

longer :
    (base : ℕ) (it : UpdateRecordIterator) (vs : List Version) (low n : ℕ)
    → Shows base it vs low n
    → Shows base it vs low (suc n)
longer base it vs low n (inl done) = inl done
longer base it vs low n (inr (e, previous, (i, r, b, v, l, s))) =
    inr (e, previous, (i, r, b, v, l, ground arith))

pub forward-Shows :
    (base bound : ℕ) (chain : List UpdateLogEntry)
    → Shows base
        (forward base bound chain)
        (live base bound chain)
        (lowest base bound chain)
        (length chain)
unfolding forward live lowest
forward-Shows base bound [] = inl (refl, refl)
forward-Shows base bound (e ∷ previous) = elim (Bool-cases (ltb e.version base)) [
  | inl cut ↦ rw cut (inl (refl, refl))
  | inr in_ ↦ elim (Bool-cases (leb bound e.version)) [
    | inl skip ↦
        rw (in_, skip)
          (longer base (forward base bound previous) (live base bound previous)
            (lowest base bound previous) (length previous) (forward-Shows base bound previous))
    | inr new ↦ elim (Bool-cases (is_revert e.type)) [
      | inl reverted ↦ elim (Bool-cases (e.version == base)) [
        | inl last ↦
            rw (in_, new, reverted, last)
              (inl (
                ground (arith, lowest_base base e.version previous),
                live_base base e.version previous (ground arith),
              ))
        | inr more ↦
            rw (in_, new, reverted, more)
              (longer base (forward base e.version previous) (live base e.version previous)
                (lowest base e.version previous) (length previous)
                (forward-Shows base e.version previous))
      ]
      | inr kept ↦
          rw (in_, new, kept)
            (inr (e, previous, (refl, kept, ground arith, refl, refl, ground arith)))
    ]
  ]
]

-- The step from an entry: what is left is behind it.
pub next-Shows :
    (base : ℕ) (entry : UpdateLogEntry) (previous : List UpdateLogEntry)
    → base ≤ entry.version
    → Shows base
        (next base (record { current = entry ∷ previous; lowest_version = entry.version }))
        (live base entry.version previous)
        (lowest base entry.version previous)
        (length previous)
unfolding next
next-Shows base e previous in_ = elim (Bool-cases (e.version == base)) [
  | inl last ↦ rw last (
      inl (
        ground (arith, lowest_base base e.version previous),
        live_base base e.version previous (ground arith),
      ))
  | inr more ↦ rw more (forward-Shows base e.version previous)
]

pub lt→leb : (a b : ℕ) → b < a → leb a b ≡ false
lt→leb a b h = ground arith

-- What the code asserts of the head of a chain, and that its version is no largest number.
abbrev pub IsChain : ℕ → List UpdateLogEntry → Type 0
IsChain base [] = Unit
IsChain base (entry ∷ previous) = (base ≤ entry.version) × (entry.version < max_version)

pub iterate-Shows :
    (base : ℕ) (chain : List UpdateLogEntry)
    → IsChain base chain
    → Shows base
        (iterate base chain)
        (live base max_version chain)
        (lowest base max_version chain)
        (length chain)
unfolding iterate live lowest
iterate-Shows base [] ok = inl (refl, refl)
iterate-Shows base (e ∷ previous) ok = elim (Bool-cases (is_revert e.type)) [
  | inl reverted ↦
      rw (reverted, le→ltb e.version base ok.0, lt→leb max_version e.version ok.1)
        (longer base (next base (record { current = e ∷ previous; lowest_version = e.version }))
          (live base e.version previous) (lowest base e.version previous) (length previous)
          (next-Shows base e previous ok.0))
  | inr kept ↦
      rw (kept, le→ltb e.version base ok.0, lt→leb max_version e.version ok.1)
        (inr (e, previous, (refl, kept, ok.0, refl, refl, ground arith)))
]
