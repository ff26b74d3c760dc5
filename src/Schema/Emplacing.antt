-- ===== src/Schema/Emplacing.antt =====
-- What the loops of `Schema::deserialize` build from the fields and the indexes that they read.
use mathlib.Core.List.{append_assoc, append-nil}
use tellstore.Prelude.{
  ℕ, zero, suc, ◌+◌, ◌≡◌, refl, sym, ap, ◌∙◌, true, false, List, [], ◌∷◌, ◌++◌, Option, none, some,
  ◌==◌, if◌then◌else◌, arith, Bool-cases, inl, inr, ==_iff,
}
use tellstore.Schema.{Text, text_eq, Field, Index, Schema, insert_at}
use tellstore.Schema.Fields.{AllSized, nullable}
use tellstore.Schema.Wire.{append_field, has_index, emplace_index}
use tellstore.Schema.Reading.{append_fields, emplace_indexes}

-- `find` on the map.
unfoldable pub find_index : Text → List Index → Option Index
find_index name [] = none
find_index name (i ∷ rest) =
    let later = find_index name rest in if text_eq i.name name then some i else later

text_eq-true : (a b : Text) → text_eq a b ≡ true → a ≡ b
text_eq-true [] [] h = refl
text_eq-true [] (y ∷ ys) h = ground (arith, h)
text_eq-true (x ∷ xs) [] h = ground (arith, h)
text_eq-true (x ∷ xs) (y ∷ ys) h = elim (Bool-cases (x == y)) [
  | inl same ↦
      ap (λ z. z ∷ xs) ((==_iff x y).0 same)
      ∙ ap (λ l. y ∷ l) (text_eq-true xs ys (ground (arith, same, h)))
  | inr other ↦ ground (arith, other, h)
]

-- The first of two maps that has the name.
abbrev pub or_else : Option Index → Option Index → Option Index
or_else none x = x
or_else (some i) x = some i

or_else-none : (x : Option Index) → x ≡ or_else x none
or_else-none none = refl
or_else-none (some i) = refl

add-zero : (n : ℕ) → n + 0 ≡ n
add-zero n = omega arith

count_not_null :
    (f : Field) (n m : ℕ)
    → (if f.not_null then n else n + 1) + m ≡ n + ((if f.not_null then 0 else 1) + m)
count_not_null f n m = ground arith

find_index-absent :
    (name : Text) (is : List Index) → has_index name is ≡ false → find_index name is ≡ none
unfolding find_index has_index
find_index-absent name [] h = refl
find_index-absent name (i ∷ is) h = ground (arith, find_index-absent name is)

find_index-present :
    (name : Text) (is : List Index) (x : Option Index)
    → has_index name is ≡ true
    → or_else (find_index name is) x ≡ find_index name is
unfolding find_index has_index
find_index-present name [] x h = ground (arith, h)
find_index-present name (i ∷ is) x h = elim (Bool-cases (text_eq i.name name)) [
  | inl same ↦ rw same refl
  | inr other ↦ rw other (find_index-present name is x (ground (arith, other, h)))
]

-- At any place, a new entry is found by its name and hides no other.
find_index-insert_at :
    (name : Text) (p : ℕ) (i : Index) (is : List Index)
    → has_index i.name is ≡ false
    → find_index name (insert_at p i is)
      ≡ (if text_eq i.name name then some i else find_index name is)
unfolding find_index has_index insert_at
find_index-insert_at name zero i is h = refl
find_index-insert_at name (suc p) i [] h = refl
find_index-insert_at name (suc p) i (j ∷ is) h = elim (Bool-cases (text_eq j.name i.name)) [
  | inl same ↦ ground (arith, same, h)
  | inr other ↦ elim (Bool-cases (text_eq j.name name)) [
    | inr past ↦ rw past (find_index-insert_at name p i is (ground (arith, other, h)))
    | inl found ↦ elim (Bool-cases (text_eq i.name name)) [
      | inr differs ↦ rw (found, differs) refl
      | inl equal ↦ absurd (ground (arith, other, text_eq-true i.name name equal, found))
    ]
  ]
]

find_index-emplace_index :
    (place : Text → List Index → ℕ) (name : Text) (s : Schema) (i : Index) (x : Option Index)
    → or_else (find_index name (emplace_index place s i).indexes) x
      ≡ or_else (find_index name s.indexes) (if text_eq i.name name then some i else x)
unfolding emplace_index
find_index-emplace_index place name s i x = elim (Bool-cases (has_index i.name s.indexes)) [
  | inl old ↦ rw old (elim (Bool-cases (text_eq i.name name)) [
    | inr differs ↦ rw differs refl
    | inl equal ↦
        rw (equal, sym (text_eq-true i.name name equal))
          (find_index-present i.name s.indexes x old
            ∙ sym (find_index-present i.name s.indexes (some i) old))
  ])
  | inr new ↦
      rw (new, find_index-insert_at name (place i.name s.indexes) i s.indexes new)
        (elim (Bool-cases (text_eq i.name name)) [
          | inr differs ↦ rw differs refl
          | inl equal ↦
              rw
                (
                  equal,
                  sym (text_eq-true i.name name equal),
                  find_index-absent i.name s.indexes new,
                )
                refl
        ])
]

-- The entries that are there win over those that are emplaced.
pub find_index-emplace_indexes :
    (place : Text → List Index → ℕ) (name : Text) (s : Schema) (is : List Index)
    → find_index name (emplace_indexes place s is).indexes
      ≡ or_else (find_index name s.indexes) (find_index name is)
unfolding emplace_indexes find_index
find_index-emplace_indexes place name s [] = or_else-none (find_index name s.indexes)
find_index-emplace_indexes place name s (i ∷ is) =
    find_index-emplace_indexes place name (emplace_index place s i) is
    ∙ find_index-emplace_index place name s i (find_index name is)

-- Indexes leave the fields as they are.
abbrev pub with_indexes : Schema → List Index → Schema
with_indexes s is = record s { indexes = is }

emplace_index-fields :
    (place : Text → List Index → ℕ) (s : Schema) (i : Index)
    → emplace_index place s i ≡ with_indexes s (emplace_index place s i).indexes
unfolding emplace_index
emplace_index-fields place s i = elim (Bool-cases (has_index i.name s.indexes)) [
  | inl old ↦ rw old refl
  | inr new ↦ rw new refl
]

pub emplace_indexes-fields :
    (place : Text → List Index → ℕ) (s : Schema) (is : List Index)
    → emplace_indexes place s is ≡ with_indexes s (emplace_indexes place s is).indexes
unfolding emplace_indexes emplace_index
emplace_indexes-fields place s [] = refl
emplace_indexes-fields place s (i ∷ is) =
    emplace_indexes-fields place (emplace_index place s i) is
    ∙ ap (λ t. with_indexes t (emplace_indexes place (emplace_index place s i) is).indexes)
        (emplace_index-fields place s i)

-- The fields of a fixed size follow those that are there, and so do the others.
pub append_fields-fixed :
    (s : Schema) (fs : List Field)
    → AllSized true fs
    → append_fields s fs ≡ record s {
      null_fields = s.null_fields + nullable fs;
      fixed_size_fields = s.fixed_size_fields ++ fs;
    }
unfolding append_fields nullable append_field
append_fields-fixed s [] all = rw (append-nil s.fixed_size_fields, add-zero s.null_fields) refl
append_fields-fixed s (f ∷ fs) all =
    append_fields-fixed (append_field s f) fs all.1
    ∙ rw
        (
          all.0,
          append_assoc s.fixed_size_fields (f ∷ []) fs,
          count_not_null f s.null_fields (nullable fs),
        )
        refl

pub append_fields-variable :
    (s : Schema) (fs : List Field)
    → AllSized false fs
    → append_fields s fs ≡ record s {
      null_fields = s.null_fields + nullable fs;
      var_size_fields = s.var_size_fields ++ fs;
    }
unfolding append_fields nullable append_field
append_fields-variable s [] all = rw (append-nil s.var_size_fields, add-zero s.null_fields) refl
append_fields-variable s (f ∷ fs) all =
    append_fields-variable (append_field s f) fs all.1
    ∙ rw
        (
          all.0,
          append_assoc s.var_size_fields (f ∷ []) fs,
          count_not_null f s.null_fields (nullable fs),
        )
        refl
