-- ===== src/Cuckoo/Tests.antt =====
-- The theorems on `Modifier` at a table with one key.
use tellstore.Prelude.{
  ℕ, zero, suc, ◌+◌, ◌-◌, ◌*◌, ◌/◌, ◌<◌, ◌≡◌, ◌≢◌, refl, sym, ap, ◌∙◌, Bool, true, false, [], ◌∷◌,
  ◌==◌, if◌then◌else◌, ◌⊎◌, inl, inr, arith, Bool-cases, ◌&&◌,
}
use tellstore.HashFunction.{hash}
use tellstore.HashFunction.Bounds.{hash-lt_size}
use tellstore.HashFunction.Tests.{eight, make-eight}
use tellstore.Cuckoo.{Modifier, hasher, entry_for, get, returned, insert, remove}
use tellstore.Cuckoo.Pages.{unmodified, IsPaged}
use tellstore.Cuckoo.Lookups.{IsTable}
use tellstore.Cuckoo.Rounds.{IsModifier}
use tellstore.Cuckoo.Operations.{InsertOutcome, insert_outcome, Stores, remove_outcome}

-- Pages of four entries, at even addresses; the key 13 is in the second page of the first part.
abbrev is_thirteen : ℕ → ℕ → Bool
is_thirteen page place = page == 6 && place == 1

abbrev small : Modifier
small = record {
  entries_per_page = 4;
  table_pages = λ p. 2 * p;
  num_pages = 6;
  pages = λ p. 2 * p;
  page_was_modified = λ p. false;
  hash1 = eight;
  hash2 = eight;
  hash3 = eight;
  size = 1;
  to_delete = [];
  free_pages = 1 ∷ 3 ∷ 5 ∷ 7 ∷ 9 ∷ 11 ∷ [];
  store = λ page place.
      if is_thirteen page place
      then record { key = 13; value = 7 }
      else record { key = 0; value = 0 };
}

hasher-lt : (h key : ℕ) → hasher small h key < 8
hasher-lt zero key = hash-lt_size 0x2000_0000_0000_0001 8 key eight (omega arith) make-eight
hasher-lt (suc zero) key = hash-lt_size 0x2000_0000_0000_0001 8 key eight (omega arith) make-eight
hasher-lt (suc (suc h)) key =
    hash-lt_size 0x2000_0000_0000_0001 8 key eight (omega arith) make-eight

small-IsPaged : IsPaged small
unfolding unmodified
small-IsPaged = record {
  some_entries = omega arith;
  in_range = λ h key l. omega (arith, hasher-lt h key, l);
  apart = λ p q l l' e. omega (arith, e);
  fresh = (
    λ p e. omega (arith, e),
    λ q e. omega (arith, e),
    (
      λ e. omega (arith, e),
      (
        λ e. omega (arith, e),
        (λ e. omega (arith, e), (λ e. omega (arith, e), (λ e. omega (arith, e), tt))),
      ),
    ),
    (
      λ p e. omega (arith, e),
      λ q e. omega (arith, e),
      (
        λ e. omega (arith, e),
        (λ e. omega (arith, e), (λ e. omega (arith, e), (λ e. omega (arith, e), tt))),
      ),
      (
        λ p e. omega (arith, e),
        λ q e. omega (arith, e),
        (λ e. omega (arith, e), (λ e. omega (arith, e), (λ e. omega (arith, e), tt))),
        (
          λ p e. omega (arith, e),
          λ q e. omega (arith, e),
          (λ e. omega (arith, e), (λ e. omega (arith, e), tt)),
          (
            λ p e. omega (arith, e),
            λ q e. omega (arith, e),
            (λ e. omega (arith, e), tt),
            (λ p e. omega (arith, e), λ q e. omega (arith, e), tt, tt),
          ),
        ),
      ),
    ),
  );
  room = omega arith;
  own = λ p q e. ground (arith, e);
}

at_thirteen :
    (h key : ℕ)
    → h < 3
    → (entry_for small h key).value ≢ 0
    → (h ≡ 0) × (hasher small h key ≡ 5) × ((entry_for small h key).key ≡ 13)
at_thirteen h key l live =
    let idx : ℕ = hasher small h key in
    elim (Bool-cases (is_thirteen (2 * (3 * (idx / 4) + h)) (idx - idx / 4 * 4))) [
      | inr off ↦ absurd (live (rw off refl))
      | inl on ↦ (ground (arith, on, l), ground (arith, on, l, hasher-lt h key), rw on refl)
    ]

small-IsTable : IsTable small
unfolding hash
small-IsTable = record {
  home = λ h key l live.
      let (first_part, index, thirteen) = at_thirteen h key l live in
      ap (hasher small h) thirteen ∙ ap (λ x. hasher small x 13) first_part ∙ sym index;
  first = λ h h' key l' l e live. absurd (omega (arith, l', (at_thirteen h key l live).0));
}

small-IsModifier : IsModifier small small
small-IsModifier = record { paged = small-IsPaged; table = small-IsTable; isolated = λ q. refl }

insert_outcome_example : InsertOutcome small 21 9 false (insert small 21 9 false)
insert_outcome_example = insert_outcome small 21 9 false small-IsModifier (omega arith)

remove_outcome_example :
    ((get small 13 ≡ 0) × (remove small 13 ≡ returned false small))
    ⊎ ((get small 13 ≢ 0)
        × ((m' : Modifier) × (remove small 13 ≡ returned true m') × Stores small 13 0 m'))
remove_outcome_example = remove_outcome small 13 small-IsModifier

get_test : get small 13 ≡ 7
unfolding get hash
get_test = refl
