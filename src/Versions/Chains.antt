-- ===== src/Versions/Chains.antt =====
-- A new entry at the head of a chain: what it hides and what it leaves.
use tellstore.Prelude.{
  ℕ, ◌≤◌, ◌<◌, ◌≡◌, refl, true, false, List, [], ◌∷◌, ◌++◌, arith, ltb, leb, if◌then◌else◌,
  Bool-cases, inl, inr, ap, sym, le→ltb, lt→ltb, le→leb,
}
use tellstore.Versions.{is_revert, UpdateLogEntry, max_version}
use tellstore.Versions.History.{Version, version_of, live, lowest, below}
use tellstore.Versions.Iteration.{IsChain, lt→leb}
use tellstore.Versions.Contents.{contents}

-- All versions of the list are below the bound.
abbrev pub AllBelow : ℕ → List Version → Type 0
AllBelow bound [] = Unit
AllBelow bound (v ∷ rest) = (v.number < bound) × AllBelow bound rest

AllBelow-mono : (a b : ℕ) (vs : List Version) → a ≤ b → AllBelow a vs → AllBelow b vs
AllBelow-mono a b [] h all = tt
AllBelow-mono a b (v ∷ rest) h all = (ground arith, AllBelow-mono a b rest h all.1)

pub below-all : (bound : ℕ) (vs : List Version) → AllBelow bound vs → below bound vs ≡ vs
unfolding below
below-all bound [] all = refl
below-all bound (v ∷ rest) all =
    rw (lt→ltb v.number bound all.0) (ap (λ x. v ∷ x) (below-all bound rest all.1))

pub below-append :
    (bound : ℕ) (vs ws : List Version) → below bound (vs ++ ws) ≡ below bound vs ++ below bound ws
unfolding below
below-append bound [] ws = refl
below-append bound (v ∷ vs) ws = elim (Bool-cases (ltb v.number bound)) [
  | inl in_ ↦ rw in_ (ap (λ x. v ∷ x) (below-append bound vs ws))
  | inr out ↦ rw out (below-append bound vs ws)
]

pub min : ℕ → ℕ → ℕ
min a b = if leb a b then a else b

pub below-below : (a b : ℕ) (vs : List Version) → below a (below b vs) ≡ below (min a b) vs
unfolding below min
below-below a b [] = refl
below-below a b (v ∷ vs) = ground (arith, below-below a b vs)

-- What is live under a bound is below it.
pub live-below :
    (base bound : ℕ) (chain : List UpdateLogEntry) → AllBelow bound (live base bound chain)
unfolding live
live-below base bound [] = tt
live-below base bound (e ∷ previous) = elim (Bool-cases (ltb e.version base)) [
  | inl cut ↦ rw cut tt
  | inr in_ ↦ elim (Bool-cases (leb bound e.version)) [
    | inl skip ↦ rw (in_, skip) (live-below base bound previous)
    | inr new ↦
        let rest =
          AllBelow-mono e.version bound (live base e.version previous) (ground arith)
            (live-below base e.version previous) in
        elim (Bool-cases (is_revert e.type)) [
          | inl reverted ↦ rw (in_, new, reverted) rest
          | inr kept ↦ rw (in_, new, kept) (ground arith, rest)
        ]
  ]
]

-- A lower bound leaves the versions below it.
pub live_lower :
    (base s bound : ℕ) (chain : List UpdateLogEntry)
    → s ≤ bound
    → live base s chain ≡ below s (live base bound chain)
unfolding live below
live_lower base s bound [] h = refl
live_lower base s bound (e ∷ previous) h = elim (Bool-cases (ltb e.version base)) [
  | inl cut ↦ rw cut refl
  | inr in_ ↦ elim (Bool-cases (leb bound e.version)) [
    | inl skip ↦
        rw (in_, skip, le→leb s e.version (ground arith)) (live_lower base s bound previous h)
    | inr new ↦ elim (Bool-cases (leb s e.version)) [
      | inl skip ↦ elim (Bool-cases (is_revert e.type)) [
        | inl reverted ↦
            rw (in_, skip, new, reverted) (live_lower base s e.version previous (ground arith))
        | inr kept ↦
            rw (in_, skip, new, kept, le→ltb e.version s (ground arith))
              (live_lower base s e.version previous (ground arith))
      ]
      | inr both ↦
          let rest = below-all s (live base e.version previous) (
            AllBelow-mono e.version s (live base e.version previous) (ground arith)
              (live-below base e.version previous)) in
          elim (Bool-cases (is_revert e.type)) [
            | inl reverted ↦ rw (in_, both, new, reverted) (sym rest)
            | inr kept ↦
                rw (in_, both, new, kept, lt→ltb e.version s (ground arith))
                  (ap (λ x. version_of e ∷ x) (sym rest))
          ]
    ]
  ]
]

lowest_le : (base bound : ℕ) (chain : List UpdateLogEntry) → lowest base bound chain ≤ bound
unfolding lowest
lowest_le base bound [] = omega arith
lowest_le base bound (e ∷ previous) =
    ground (arith, lowest_le base bound previous, lowest_le base e.version previous)

pub lowest_lower :
    (base s bound : ℕ) (chain : List UpdateLogEntry)
    → s ≤ bound
    → lowest base s chain ≡ min s (lowest base bound chain)
unfolding lowest min
lowest_lower base s bound [] h = ground arith
lowest_lower base s bound (e ∷ previous) h = elim (Bool-cases (ltb e.version base)) [
  | inl cut ↦ ground arith
  | inr in_ ↦ elim (Bool-cases (leb bound e.version)) [
    | inl skip ↦ ground (arith, lowest_lower base s bound previous h)
    | inr new ↦ elim (Bool-cases (leb s e.version)) [
      | inl skip ↦ ground (arith, lowest_lower base s e.version previous (ground arith))
      | inr both ↦ ground (arith, lowest_le base e.version previous)
    ]
  ]
]

module _ (base : ℕ) (versions : List Version) (e : UpdateLogEntry) (chain : List UpdateLogEntry)
    (ok : IsChain base (e ∷ chain)) where
  behind :
      live base e.version chain ++ below (lowest base e.version chain) versions
      ≡ below e.version (contents base versions chain)
  unfolding contents
  behind =
      rw
        (
          live_lower base e.version max_version chain (omega (arith, ok.1)),
          lowest_lower base e.version max_version chain (omega (arith, ok.1)),
          below-append e.version (live base max_version chain)
              (below (lowest base max_version chain) versions),
          below-below e.version (lowest base max_version chain) versions,
        )
        refl

  -- A written entry becomes the newest version, before the older ones.
  pub contents_write :
      is_revert e.type ≡ false
      → contents base versions (e ∷ chain)
        ≡ version_of e ∷ below e.version (contents base versions chain)
  unfolding contents live lowest
  contents_write kept =
      rw (le→ltb e.version base ok.0, lt→leb max_version e.version ok.1, kept)
        (ap (λ x. version_of e ∷ x) behind)

  -- A revert leaves the versions before its own.
  pub contents_revert :
      is_revert e.type ≡ true
      → contents base versions (e ∷ chain) ≡ below e.version (contents base versions chain)
  unfolding contents live lowest
  contents_revert reverted =
      rw (le→ltb e.version base ok.0, lt→leb max_version e.version ok.1, reverted) behind
