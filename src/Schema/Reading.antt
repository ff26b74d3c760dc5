-- ===== src/Schema/Reading.antt =====
-- The reads of a field and of an index give what was written.
use mathlib.Core.List.{append_assoc}
use native.Mathlib.Nat.{mod-eq_of_lt}
use tellstore.Prelude.{
  ℕ, ◌+◌, ◌%◌, ◌^◌, ◌<◌, ◌≡◌, refl, sym, ap, ◌∙◌, Bool, true, false, not, List, [], ◌∷◌, ◌++◌, ◌==◌,
  length, if◌then◌else◌, arith, Bool-cases, inl, inr, length-append,
}
use tellstore.Align.{Aligner}
use tellstore.Schema.{Text, Field, Index, Schema}
use tellstore.Schema.Wire.{
  Write, word8, word16, word32, bytes, align, take, end_position, ByteBuffer, type_code, type_of,
  write_field, write_fields, write_ids, padded, write_index, write_indexes, append_field,
  emplace_index, read_field, read_fields, read_ids, read_index, read_indexes,
}

-- A field whose type is an enumerator, or a number beyond them.
pub record IsWritableField (f : Field) : Type 0 where
  pub known : type_of (type_code f.type) ≡ f.type
  pub word : type_code f.type < 2 ^ 16
  pub short : length f.name < 2 ^ 32

abbrev pub AllWords : List ℕ → Type 0
AllWords [] = Unit
AllWords (n ∷ rest) = (n < 2 ^ 16) × AllWords rest

-- The sizes of an index fit their words.
pub record IsWritableIndex (i : Index) : Type 0 where
  pub many : length i.fields < 2 ^ 16
  pub short : length i.name < 2 ^ 16
  pub words : AllWords i.fields

take_all : (t : Text) → take (length t) t ≡ t
take_all [] = refl
take_all (x ∷ t) = ap (λ l. x ∷ l) (take_all t)

flag_of : (c : Bool) → not ((if c then 1 else 0) == 0) ≡ c
flag_of true = refl
flag_of false = refl

take_prefix : (t u : Text) → take (length t) (t ++ u) ≡ t
take_prefix [] u = refl
take_prefix (x ∷ t) u = ap (λ l. x ∷ l) (take_prefix t u)

pub length-padded : (t : Text) → length (padded t) ≡ length t + length t % 2
length-padded t = ground (arith, length-append t (0 ∷ []))

take-padded : (t : Text) → take (length t) (padded t) ≡ t
take-padded t = elim (Bool-cases (length t % 2 == 0)) [
  | inl even ↦ rw even (take_all t)
  | inr odd ↦ rw odd (take_prefix t (0 ∷ []))
]

flag_small : (c : Bool) → (if c then 1 else 0) < 2 ^ 8
flag_small true = omega arith
flag_small false = omega arith

-- Conditions on the lists that are written, and the end of a list of writes.
abbrev pub AllWritable : List Field → Type 0
AllWritable [] = Unit
AllWritable (f ∷ rest) = IsWritableField f × AllWritable rest

pub end_position-append :
    (a : Aligner) (p : ℕ) (xs ys : List Write)
    → end_position a p (xs ++ ys) ≡ end_position a (end_position a p xs) ys
unfolding end_position
end_position-append a p [] ys = refl
end_position-append a p (word8 n ∷ xs) ys = end_position-append a (p + 1) xs ys
end_position-append a p (word16 n ∷ xs) ys = end_position-append a (p + 2) xs ys
end_position-append a p (word32 n ∷ xs) ys = end_position-append a (p + 4) xs ys
end_position-append a p (bytes t ∷ xs) ys = end_position-append a (p + length t) xs ys
end_position-append a p (align n ∷ xs) ys = end_position-append a (a.align p n) xs ys

-- The fields of a list are appended in its order.
unfoldable pub append_fields : Schema → List Field → Schema
append_fields s [] = s
append_fields s (f ∷ rest) = append_fields (append_field s f) rest

unfoldable pub emplace_indexes : (Text → List Index → ℕ) → Schema → List Index → Schema
emplace_indexes place s [] = s
emplace_indexes place s (i ∷ rest) = emplace_indexes place (emplace_index place s i) rest

abbrev pub AllIndexes : List Index → Type 0
AllIndexes [] = Unit
AllIndexes (i ∷ rest) = IsWritableIndex i × AllIndexes rest

module _ (b : ByteBuffer) (place : Text → List Index → ℕ) where
  read_field-write_field :
      (p : ℕ) (f : Field) (rest : List Write)
      → IsWritableField f
      → read_field b place (b.reader_of p (write_field f ++ rest))
        ≡ (f, b.reader_of (end_position b.aligner p (write_field f)) rest)
  unfolding read_field write_field end_position
  read_field-write_field p f rest w =
      let l0 : List Write = bytes f.name ∷ align 4 ∷ rest in
      let l1 : List Write = word8 0 ∷ word32 (length f.name) ∷ l0 in
      let flag : ℕ = if f.not_null then 1 else 0 in
      rw
        (
          mod-eq_of_lt w.short,
          b.read16-word16 p (type_code f.type) (word8 flag ∷ l1) w.word,
          b.read8-word8 (p + 2) flag l1 (flag_small f.not_null),
          b.advance-word8 (p + 2 + 1) 0 (word32 (length f.name) ∷ l0),
          b.read32-word32 (p + 2 + 1 + 1) (length f.name) l0 w.short,
          b.peek-bytes (p + 2 + 1 + 1 + 4) (length f.name) f.name (align 4 ∷ rest) (omega arith),
          b.advance-bytes (p + 2 + 1 + 1 + 4) f.name (align 4 ∷ rest),
          b.align_to-align (p + 2 + 1 + 1 + 4 + length f.name) 4 rest,
          take_all f.name,
          flag_of f.not_null,
          w.known,
        )
        refl

  pub read_fields-write_fields :
      (p : ℕ) (s : Schema) (fs : List Field) (rest : List Write)
      → AllWritable fs
      → read_fields b place (length fs) s (b.reader_of p (write_fields fs ++ rest))
        ≡ (append_fields s fs, b.reader_of (end_position b.aligner p (write_fields fs)) rest)
  unfolding read_fields write_fields end_position append_fields
  read_fields-write_fields p s [] rest w = refl
  read_fields-write_fields p s (f ∷ fs) rest w =
      rw
        (
          append_assoc (write_field f) (write_fields fs) rest,
          end_position-append b.aligner p (write_field f) (write_fields fs),
        )
        (ap (λ x. read_fields b place (length fs) (append_field s x.0) x.1)
            (read_field-write_field p f (write_fields fs ++ rest) w.0)
          ∙ read_fields-write_fields (end_position b.aligner p (write_field f)) (append_field s f)
              fs rest w.1)

  read_ids-write_ids :
      (p : ℕ) (ids : List ℕ) (rest : List Write)
      → AllWords ids
      → read_ids b place (length ids) (b.reader_of p (write_ids ids ++ rest))
        ≡ (ids, b.reader_of (end_position b.aligner p (write_ids ids)) rest)
  unfolding read_ids write_ids end_position
  read_ids-write_ids p [] rest w = refl
  read_ids-write_ids p (id ∷ ids) rest w =
      rw (b.read16-word16 p id (write_ids ids ++ rest) w.0)
        (ap (λ x. (id ∷ x.0, x.1)) (read_ids-write_ids (p + 2) ids rest w.1))

  read_index-write_index :
      (p : ℕ) (i : Index) (rest : List Write)
      → IsWritableIndex i
      → read_index b place (b.reader_of p (write_index i ++ rest))
        ≡ (i, b.reader_of (end_position b.aligner p (write_index i)) rest)
  unfolding read_index write_index end_position
  read_index-write_index p i rest w =
      let l0 : List Write = write_ids i.fields ++ rest in
      let l1 : List Write = word16 (length i.name) ∷ bytes (padded i.name) ∷ l0 in
      let flag : ℕ = if i.unique then 1 else 0 in
      rw
        (
          mod-eq_of_lt w.many,
          mod-eq_of_lt w.short,
          b.read16-word16 p (length i.fields) (word8 flag ∷ word8 0 ∷ l1) w.many,
          b.read8-word8 (p + 2) flag (word8 0 ∷ l1) (flag_small i.unique),
          b.read8-word8 (p + 2 + 1) 0 l1 (omega arith),
          b.read16-word16 (p + 2 + 1 + 1) (length i.name) (bytes (padded i.name) ∷ l0) w.short,
          b.peek-bytes (p + 2 + 1 + 1 + 2) (length i.name) (padded i.name) l0
              (omega (arith, length-padded i.name)),
          take-padded i.name,
          sym (length-padded i.name),
          b.advance-bytes (p + 2 + 1 + 1 + 2) (padded i.name) l0,
          read_ids-write_ids (p + 2 + 1 + 1 + 2 + length (padded i.name)) i.fields rest w.words,
          flag_of i.unique,
        )
        refl

  pub read_indexes-write_indexes :
      (p : ℕ) (s : Schema) (is : List Index) (rest : List Write)
      → AllIndexes is
      → read_indexes b place (length is) s (b.reader_of p (write_indexes is ++ rest)) ≡ (
        emplace_indexes place s is,
        b.reader_of (end_position b.aligner p (write_indexes is)) rest,
      )
  unfolding read_indexes write_indexes end_position emplace_indexes
  read_indexes-write_indexes p s [] rest w = refl
  read_indexes-write_indexes p s (i ∷ is) rest w =
      rw
        (
          append_assoc (write_index i) (write_indexes is) rest,
          end_position-append b.aligner p (write_index i) (write_indexes is),
        )
        (ap (λ x. read_indexes b place (length is) (emplace_index place s x.0) x.1)
            (read_index-write_index p i (write_indexes is ++ rest) w.0)
          ∙ read_indexes-write_indexes (end_position b.aligner p (write_index i))
              (emplace_index place s i) is rest w.1)
