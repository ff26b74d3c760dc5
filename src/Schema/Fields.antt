-- ===== src/Schema/Fields.antt =====
-- The invariant of `Schema`, and that `addField` keeps it.
use tellstore.Prelude.{
  ℕ, suc, ◌+◌, ◌≤◌, ◌<◌, ◌≡◌, refl, Bool, true, false, List, [], ◌∷◌, ◌++◌, ◌==◌, leb, length,
  if◌then◌else◌, arith, Bool-cases, inl, inr, ==_refl,
}
use tellstore.Schema.{
  Text, text_eq, is_fixed_sized, align_of, Field, Schema, insert_position, is_fresh, max_word16,
}

pub text_eq_refl : (t : Text) → text_eq t t ≡ true
text_eq_refl [] = refl
text_eq_refl (x ∷ xs) = ground (arith, ==_refl x, text_eq_refl xs)

pub text_eq_sym : (a b : Text) → text_eq a b ≡ text_eq b a
text_eq_sym [] [] = refl
text_eq_sym [] (y ∷ ys) = refl
text_eq_sym (x ∷ xs) [] = refl
text_eq_sym (x ∷ xs) (y ∷ ys) = ground (arith, text_eq_sym xs ys)

-- No field has the name.
abbrev pub IsFresh : Text → List Field → Type 0
IsFresh name [] = Unit
IsFresh name (f ∷ rest) = (text_eq f.name name ≡ false) × IsFresh name rest

abbrev pub AreDistinct : List Field → Type 0
AreDistinct [] = Unit
AreDistinct (f ∷ rest) = IsFresh f.name rest × AreDistinct rest

-- The alignments descend.
abbrev pub AllAtMost : ℕ → List Field → Type 0
AllAtMost alignment [] = Unit
AllAtMost alignment (f ∷ rest) = (align_of f.type ≤ alignment) × AllAtMost alignment rest

abbrev pub AreDescending : List Field → Type 0
AreDescending [] = Unit
AreDescending (f ∷ rest) = AllAtMost (align_of f.type) rest × AreDescending rest

abbrev pub AllSized : Bool → List Field → Type 0
AllSized fixed [] = Unit
AllSized fixed (f ∷ rest) = (is_fixed_sized f.type ≡ fixed) × AllSized fixed rest

abbrev pub AllShort : List Field → Type 0
AllShort [] = Unit
AllShort (f ∷ rest) = (length f.name ≤ max_word16) × AllShort rest

unfoldable pub nullable : List Field → ℕ
nullable [] = 0
nullable (f ∷ rest) = (if f.not_null then 0 else 1) + nullable rest

abbrev pub all_fields : Schema → List Field
all_fields s = s.fixed_size_fields ++ s.var_size_fields

pub record IsSchema (s : Schema) : Type 0 where
  pub descending : AreDescending s.fixed_size_fields
  pub fixed : AllSized true s.fixed_size_fields
  pub variable : AllSized false s.var_size_fields
  pub distinct : AreDistinct (all_fields s)
  pub short : AllShort (all_fields s)
  pub counted : s.null_fields ≡ nullable (all_fields s)
  pub few : length s.fixed_size_fields + length s.var_size_fields ≤ max_word16

-- The number of leading fields with an alignment that is no smaller.
unfoldable pub rank : ℕ → List Field → ℕ
rank alignment [] = 0
rank alignment (f ∷ rest) = if leb alignment (align_of f.type) then suc (rank alignment rest) else 0

pub rank-le : (alignment : ℕ) (fields : List Field) → rank alignment fields ≤ length fields
unfolding rank
rank-le alignment [] = omega arith
rank-le alignment (f ∷ rest) = ground (arith, rank-le alignment rest)

rank_zero :
    (alignment bound : ℕ) (fields : List Field)
    → AllAtMost bound fields
    → bound < alignment
    → rank alignment fields ≡ 0
unfolding rank
rank_zero alignment bound [] all h = refl
rank_zero alignment bound (f ∷ rest) all h = ground arith

-- The loop of `addField` finds the rank, and whether the name is fresh.
pub insert_position-fresh :
    (alignment : ℕ) (name : Text) (fields : List Field) (index position : ℕ)
    → (insert_position alignment name fields index position).1 ≡ is_fresh name fields
unfolding insert_position is_fresh
insert_position-fresh alignment name [] index position = refl
insert_position-fresh alignment name (f ∷ rest) index position =
    let position' = if leb alignment (align_of f.type) then index + 1 else position in
    elim (Bool-cases (text_eq f.name name)) [
      | inl same ↦ rw same refl
      | inr other ↦ rw other (insert_position-fresh alignment name rest (index + 1) position')
    ]

pub insert_position-rank :
    (alignment : ℕ) (name : Text) (fields : List Field) (index position : ℕ)
    → AreDescending fields
    → is_fresh name fields ≡ true
    → (insert_position alignment name fields index position).0
      ≡ (if rank alignment fields == 0 then position else index + rank alignment fields)
unfolding insert_position rank is_fresh
insert_position-rank alignment name [] index position d fresh = refl
insert_position-rank alignment name (f ∷ rest) index position d fresh =
    elim (Bool-cases (text_eq f.name name)) [
      | inl same ↦ ground (arith, same, fresh)
      | inr other ↦ elim (Bool-cases (leb alignment (align_of f.type))) [
        | inl above ↦
            ground (arith, insert_position-rank alignment name rest (index + 1) (index + 1) d.1)
        | inr below ↦ ground (
          arith,
          insert_position-rank alignment name rest (index + 1) position d.1,
          rank_zero alignment (align_of f.type) rest d.0,
        )
      ]
    ]

pub IsFresh-of_is_fresh :
    (name : Text) (fields : List Field) → is_fresh name fields ≡ true → IsFresh name fields
unfolding is_fresh
IsFresh-of_is_fresh name [] h = tt
IsFresh-of_is_fresh name (f ∷ rest) h = ground (arith, IsFresh-of_is_fresh name rest)
