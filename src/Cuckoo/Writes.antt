-- ===== src/Cuckoo/Writes.antt =====
-- The assignment to an entry of a `Modifier`.
use native.Mathlib.Decide.{ℕ_discrete}
use native.Mathlib.Nat.{div-add-mod'}
use tellstore.Prelude.{
  ℕ, ◌*◌, ◌/◌, ◌<◌, ◌≡◌, refl, sym, ap, ◌∙◌, true, some, update, update_self, update_ne, arith,
}
use tellstore.Cuckoo.{Entry, Modifier, hasher, page_of, place_of, entry_for, write_entry, set_entry}
use tellstore.Cuckoo.Pages.{Paging, with_paging, IsPaged, Kept, Isolated, cow_lem}

-- The page and the place there tell the part and the index.
same_entry :
    (m : Modifier) (h h' a b : ℕ)
    → h < 3
    → h' < 3
    → page_of m h' a ≡ page_of m h b
    → place_of m a ≡ place_of m b
    → (h' ≡ h) × (a ≡ b)
same_entry m h h' a b l l' page place =
    let part : h' ≡ h = omega (arith, page) in
    let row : a / m.entries_per_page ≡ b / m.entries_per_page = omega (arith, page) in
    let same : a / m.entries_per_page * m.entries_per_page
        ≡ b / m.entries_per_page * m.entries_per_page =
      ap (λ x. x * m.entries_per_page) row in
    (
      part,
      omega (
        arith,
        same,
        place,
        div-add-mod' a m.entries_per_page,
        div-add-mod' b m.entries_per_page,
      ),
    )

module _ (m : Modifier) (ok : IsPaged m) (h idx : ℕ) (e : Entry) (part : h < 3)
    (in_bounds : page_of m h idx < m.num_pages) where
  abbrev page : ℕ
  page = page_of m h idx

  -- Another entry keeps its contents, and this one has the new contents.
  written :
      (y : Paging)
      → IsPaged (with_paging m y)
      → y.page_was_modified page ≡ true
      → Kept m (with_paging m y)
      → Isolated m (with_paging m y)
      → let m' = write_entry (with_paging m y) page (place_of m idx) e in
        IsPaged m'
        × Isolated m m'
        × ((key : ℕ) → hasher m h key ≡ idx → entry_for m' h key ≡ e)
        × ((h' key : ℕ)
            → h' < 3
            → ((h' ≡ h) × (hasher m h' key ≡ idx) → ⊥)
            → entry_for m' h' key ≡ entry_for m h' key)
  written y paged modified kept isolated =
      let old = y.store (y.pages page) in
      let new = update old (place_of m idx) e in
      (
        record {
          some_entries = paged.some_entries;
          in_range = paged.in_range;
          apart = paged.apart;
          fresh = paged.fresh;
          room = paged.room;
          own = paged.own;
        },
        λ q.
            update_ne y.store (y.pages page) (m.table_pages q) new
              (λ s. paged.own page q modified (sym s))
            ∙ isolated q,
        λ key s.
            rw (s, update_self y.store (y.pages page) new) (update_self old (place_of m idx) e),
        λ h' key l differs. elim (ℕ_discrete (page_of m h' (hasher m h' key)) page) [
          | yes same ↦
              ap (λ p. update y.store (y.pages page) new (y.pages p) (place_of m (hasher m h' key)))
                same
              ∙ ap (λ f. f (place_of m (hasher m h' key))) (update_self y.store (y.pages page) new)
              ∙ update_ne old (place_of m idx) (place_of m (hasher m h' key)) e
                  (λ s. differs (same_entry m h h' (hasher m h' key) idx part l same s))
              ∙ ap (λ f. f (place_of m (hasher m h' key))) (kept page in_bounds)
              ∙ sym (ap (λ p. m.store (m.pages p) (place_of m (hasher m h' key))) same)
          | no ne ↦
              ap (λ f. f (place_of m (hasher m h' key)))
                (update_ne y.store (y.pages page) (y.pages (page_of m h' (hasher m h' key))) new
                    (λ s. ne (
                      paged.apart (page_of m h' (hasher m h' key)) page (paged.in_range h' key l)
                        in_bounds s))
                  ∙ kept (page_of m h' (hasher m h' key)) (paged.in_range h' key l))
        ],
      )

-- An assignment ends, and changes one entry.
pub set_entry_lem :
    (m : Modifier) (h key : ℕ) (e : Entry)
    → IsPaged m
    → h < 3
    → (y : Paging) × (set_entry m h (hasher m h key) e ≡ some (with_paging m y))
      × IsPaged (with_paging m y)
      × Isolated m (with_paging m y)
      × ((other : ℕ) → hasher m h other ≡ hasher m h key → entry_for (with_paging m y) h other ≡ e)
      × ((h' other : ℕ)
          → h' < 3
          → ((h' ≡ h) × (hasher m h' other ≡ hasher m h key) → ⊥)
          → entry_for (with_paging m y) h' other ≡ entry_for m h' other)
unfolding set_entry
set_entry_lem m h key e ok part =
    let idx : ℕ = hasher m h key in
    let in_bounds : page_of m h idx < m.num_pages = ok.in_range h key part in
    let (y, run, paged, modified, kept, isolated) = cow_lem m ok (page_of m h idx) in_bounds in
    let (paged', isolated', here, other) =
      written m ok h idx e part in_bounds y paged modified kept isolated in
    let y' : Paging = record y {
      store =
          update y.store (y.pages (page_of m h idx))
            (update (y.store (y.pages (page_of m h idx))) (place_of m idx) e);
    } in
    (y', rw (set_entry, run) refl, paged', isolated', here, other)
