-- ===== src/Cuckoo/Pages.antt =====
-- Copy on write of the pages of a `Modifier`.
use mathlib.Core.Path.{subst}
use native.Mathlib.Decide.{ℕ_discrete}
use tellstore.Prelude.{
  ℕ, zero, suc, ◌+◌, ◌≤◌, ◌<◌, ◌≡◌, ◌≢◌, refl, sym, ap, ◌∙◌, Bool, true, false, List, [], ◌∷◌, some,
  length, if◌then◌else◌, update, update_self, update_ne, update-cases, Bool-cases, ◌⊎◌, inl, inr,
  arith,
}
use tellstore.Cuckoo.{Entry, Modifier, hasher, page_of, copy_page, cow}

-- The part of a modifier that a write changes.
pub record Paging : Type 0 where
  pub pages : ℕ → ℕ
  pub page_was_modified : ℕ → Bool
  pub to_delete : List ℕ
  pub free_pages : List ℕ
  pub store : ℕ → ℕ → Entry

abbrev pub with_paging : Modifier → Paging → Modifier
with_paging m x = record m {
  pages = x.pages;
  page_was_modified = x.page_was_modified;
  to_delete = x.to_delete;
  free_pages = x.free_pages;
  store = x.store;
}

-- The number of pages among the first ones that were not copied yet.
unfoldable pub unmodified : (ℕ → Bool) → ℕ → ℕ
unmodified modified zero = 0
unmodified modified (suc n) = (if modified n then 0 else 1) + unmodified modified n

abbrev pub AllOther : ℕ → List ℕ → Type 0
AllOther x [] = Unit
AllOther x (y ∷ rest) = (x ≢ y) × AllOther x rest

-- The free pages are none of the pages of the modifier or of the table, and different.
abbrev pub AreFresh : (ℕ → ℕ) → (ℕ → ℕ) → List ℕ → Type 0
AreFresh pages table_pages [] = Unit
AreFresh pages table_pages (x ∷ rest) =
    ((p : ℕ) → pages p ≢ x)
    × ((q : ℕ) → table_pages q ≢ x)
    × AllOther x rest
    × AreFresh pages table_pages rest

-- The pages of a modifier are apart, those that it may write are its own, and there is a free page for
-- each of the others.
pub record IsPaged (m : Modifier) : Type 0 where
  pub some_entries : 0 < m.entries_per_page
  pub in_range : (h key : ℕ) → h < 3 → page_of m h (hasher m h key) < m.num_pages
  pub apart : (p q : ℕ) → p < m.num_pages → q < m.num_pages → m.pages p ≡ m.pages q → p ≡ q
  pub fresh : AreFresh m.pages m.table_pages m.free_pages
  pub room : unmodified m.page_was_modified m.num_pages ≤ length m.free_pages
  pub own : (p q : ℕ) → m.page_was_modified p ≡ true → m.pages p ≢ m.table_pages q

-- The contents of all pages, and of the pages of the table.
abbrev pub Kept : Modifier → Modifier → Type 0
Kept m m' = (p : ℕ) → p < m.num_pages → m'.store (m'.pages p) ≡ m.store (m.pages p)

abbrev pub Isolated : Modifier → Modifier → Type 0
Isolated m m' = (q : ℕ) → m'.store (m'.table_pages q) ≡ m.store (m.table_pages q)

AreFresh-update :
    (pages table_pages : ℕ → ℕ) (page x : ℕ) (rest : List ℕ)
    → AllOther x rest
    → AreFresh pages table_pages rest
    → AreFresh (update pages page x) table_pages rest
AreFresh-update pages table_pages page x [] other fresh = tt
AreFresh-update pages table_pages page x (y ∷ rest) other fresh = (
  λ p e. elim (update-cases pages page x p) [
    | inl (at, new) ↦ other.0 (sym new ∙ e)
    | inr (off, old) ↦ fresh.0 p (sym old ∙ e)
  ],
  fresh.1,
  fresh.2,
  AreFresh-update pages table_pages page x rest other.1 fresh.3,
)

unmodified-update_outside :
    (modified : ℕ → Bool) (page n : ℕ)
    → n ≤ page
    → unmodified (update modified page true) n ≡ unmodified modified n
unfolding unmodified
unmodified-update_outside modified page zero h = refl
unmodified-update_outside modified page (suc n) h =
    rw
      (
        update_ne modified page n true (omega (arith, h)),
        unmodified-update_outside modified page n (omega (arith, h)),
      )
      refl

unmodified-update :
    (modified : ℕ → Bool) (page n : ℕ)
    → page < n
    → modified page ≡ false
    → suc (unmodified (update modified page true) n) ≡ unmodified modified n
unfolding unmodified
unmodified-update modified page zero h e = absurd (omega (arith, h))
unmodified-update modified page (suc n) h e = elim (ℕ_discrete page n) [
  | yes same ↦
      rw
        (
          sym same,
          update_self modified page true,
          e,
          unmodified-update_outside modified page page (omega arith),
        )
        (omega arith)
  | no ne ↦
      rw (update_ne modified page n true (λ x. ne (sym x)))
        (omega (arith, unmodified-update modified page n (omega (arith, h, ne)) e))
]

unmodified_pos :
    (modified : ℕ → Bool) (page n : ℕ)
    → page < n
    → modified page ≡ false
    → 0 < unmodified modified n
unmodified_pos modified page n h e = omega (arith, unmodified-update modified page n h e)

List-cases :
    {A : Type 0} (xs : List A) → (xs ≡ []) ⊎ ((x : A) × (rest : List A) × (xs ≡ (x ∷ rest)))
List-cases [] = inl refl
List-cases (x ∷ rest) = inr (x, rest, refl)

-- After `cow` the page is the modifier's own, and all entries are as before.
module _ (m : Modifier) (ok : IsPaged m) (page : ℕ) (in_bounds : page < m.num_pages) where
  copied :
      (x : ℕ) (rest : List ℕ)
      → m.free_pages ≡ (x ∷ rest)
      → m.page_was_modified page ≡ false
      → (y : Paging) × (copy_page m page (x ∷ rest) ≡ some (with_paging m y))
        × IsPaged (with_paging m y)
        × (y.page_was_modified page ≡ true)
        × Kept m (with_paging m y)
        × Isolated m (with_paging m y)
  unfolding copy_page
  copied x rest free e =
      let fresh : AreFresh m.pages m.table_pages (x ∷ rest) =
        subst (AreFresh m.pages m.table_pages) free ok.fresh in
      let room : unmodified m.page_was_modified m.num_pages ≤ length (x ∷ rest) =
        subst (λ l. unmodified m.page_was_modified m.num_pages ≤ length l) free ok.room in
      let y : Paging = record {
        pages = update m.pages page x;
        page_was_modified = update m.page_was_modified page true;
        to_delete = m.pages page ∷ m.to_delete;
        free_pages = rest;
        store = update m.store x (m.store (m.pages page));
      } in
      (
        y,
        refl,
        record {
          some_entries = ok.some_entries;
          in_range = ok.in_range;
          apart = λ p q l l' s. elim (update-cases m.pages page x p) [
            | inl (at, new) ↦ elim (update-cases m.pages page x q) [
              | inl (at', new') ↦ at ∙ sym at'
              | inr (off', old') ↦ absurd (fresh.0 q (sym old' ∙ sym s ∙ new))
            ]
            | inr (off, old) ↦ elim (update-cases m.pages page x q) [
              | inl (at', new') ↦ absurd (fresh.0 p (sym old ∙ s ∙ new'))
              | inr (off', old') ↦ ok.apart p q l l' (sym old ∙ s ∙ old')
            ]
          ];
          fresh = AreFresh-update m.pages m.table_pages page x rest fresh.2 fresh.3;
          room =
              omega
                (arith, room, unmodified-update m.page_was_modified page m.num_pages in_bounds e);
          own = λ p q w s. elim (update-cases m.pages page x p) [
            | inl (at, new) ↦ fresh.1 q (sym s ∙ new)
            | inr (off, old) ↦
                ok.own p q (sym (update_ne m.page_was_modified page p true off) ∙ w) (sym old ∙ s)
          ];
        },
        update_self m.page_was_modified page true,
        λ p l. elim (update-cases m.pages page x p) [
          | inl (at, new) ↦ rw (new, at) (update_self m.store x (m.store (m.pages page)))
          | inr (off, old) ↦
              rw old (update_ne m.store x (m.pages p) (m.store (m.pages page)) (fresh.0 p))
        ],
        λ q. update_ne m.store x (m.table_pages q) (m.store (m.pages page)) (fresh.1 q),
      )

  pub cow_lem :
      (y : Paging) × (cow m page ≡ some (with_paging m y))
      × IsPaged (with_paging m y)
      × (y.page_was_modified page ≡ true)
      × Kept m (with_paging m y)
      × Isolated m (with_paging m y)
  unfolding cow
  cow_lem = elim (Bool-cases (m.page_was_modified page)) [
    | inl modified ↦ (
      record {
        pages = m.pages;
        page_was_modified = m.page_was_modified;
        to_delete = m.to_delete;
        free_pages = m.free_pages;
        store = m.store;
      },
      rw modified refl,
      ok,
      modified,
      λ p l. refl,
      λ q. refl,
    )
    | inr shared ↦ elim (List-cases m.free_pages) [
      | inl none_left ↦ absurd (
          omega (
            arith,
            unmodified_pos m.page_was_modified page m.num_pages in_bounds shared,
            ok.room,
            ap length none_left,
          ))
      | inr (x, rest, free) ↦
          let (y, run, paged, modified, kept, isolated) = copied x rest free shared in
          (y, rw (shared, free) run, paged, modified, kept, isolated)
    ]
  ]
