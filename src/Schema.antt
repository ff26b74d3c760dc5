-- ===== src/Schema.antt =====
-- tellstore/Record.hpp and common/Record.cpp: `FieldBase`, `Field` and `Schema`. A string is the list of
-- its bytes.
pub mod Fields
pub mod Insertion
pub mod Adding
pub mod Lookups
pub mod Wire
pub mod Reading
pub mod Emplacing
pub mod RoundTrip
pub mod Lengths
pub mod Buffers
pub mod Tests
use tellstore.Prelude.{
  ℕ, zero, suc, ◌+◌, ◌-◌, ◌%◌, ◌^◌, Bool, true, false, not, ◌&&◌, List, [], ◌∷◌, ◌++◌, Option, none,
  some, ◌==◌, ltb, leb, length, get_elem?, if◌then◌else◌,
}

abbrev pub Text : Type 0
Text = List ℕ

abbrev pub text_eq : Text → Text → Bool
text_eq [] [] = true
text_eq (x ∷ xs) [] = false
text_eq [] (y ∷ ys) = false
text_eq (x ∷ xs) (y ∷ ys) = x == y && text_eq xs ys

-- `FieldType`, an enumeration over 16 bits: a number that was read need not be one of its values.
pub data FieldType : Type 0 where
  no_type : FieldType
  null_type : FieldType
  small_int : FieldType
  int : FieldType
  big_int : FieldType
  float : FieldType
  double : FieldType
  text : FieldType
  blob : FieldType
  unknown_type : ℕ → FieldType

abbrev pub is_fixed_sized : FieldType → Bool
is_fixed_sized null_type = true
is_fixed_sized small_int = true
is_fixed_sized int = true
is_fixed_sized big_int = true
is_fixed_sized float = true
is_fixed_sized double = true
is_fixed_sized _ = false

-- `std::numeric_limits<size_t>::max()`
abbrev pub max_size : ℕ
max_size = 2 ^ 64 - 1

abbrev pub static_size : FieldType → ℕ
static_size null_type = 0
static_size small_int = 2
static_size int = 4
static_size big_int = 8
static_size float = 4
static_size double = 8
static_size text = 4
static_size blob = 4
static_size no_type = max_size
static_size (unknown_type n) = max_size

abbrev pub align_of : FieldType → ℕ
align_of null_type = 0
align_of small_int = 2
align_of int = 4
align_of big_int = 8
align_of float = 4
align_of double = 8
align_of text = 4
align_of blob = 4
align_of no_type = max_size
align_of (unknown_type n) = max_size

pub record Field : Type 0 where
  pub type : FieldType
  pub name : Text
  pub not_null : Bool

-- An entry of `IndexMap`.
pub record Index : Type 0 where
  pub name : Text
  pub unique : Bool
  pub fields : List ℕ

-- `indexes` are the entries of the `unordered_map`, in the order of an iteration.
pub record Schema : Type 0 where
  pub type : ℕ
  pub null_fields : ℕ
  pub fixed_size_fields : List Field
  pub var_size_fields : List Field
  pub indexes : List Index

abbrev pub make_schema : ℕ → Schema
make_schema type = record {
  type = type;
  null_fields = 0;
  fixed_size_fields = [];
  var_size_fields = [];
  indexes = [];
}

-- The loop of `addField` on the fixed size fields: from the index on, the position for the insertion
-- that was found so far, and whether no name was equal.
unfoldable pub insert_position : ℕ → Text → List Field → ℕ → ℕ → ℕ × Bool
insert_position alignment name [] index position = (position, true)
insert_position alignment name (f ∷ rest) index position =
    let position' = if leb alignment (align_of f.type) then index + 1 else position in
    let (found, fresh) = insert_position alignment name rest (index + 1) position' in
    if text_eq f.name name then (position', false) else (found, fresh)

-- The loop on the variable size fields.
unfoldable pub is_fresh : Text → List Field → Bool
is_fresh name [] = true
is_fresh name (f ∷ rest) = if text_eq f.name name then false else is_fresh name rest

-- `emplace`
unfoldable pub insert_at {ℓ} : {A : Type ℓ} → ℕ → A → List A → List A
insert_at zero f fields = f ∷ fields
insert_at (suc n) f [] = f ∷ []
insert_at (suc n) f (g ∷ rest) = g ∷ insert_at n f rest

abbrev pub max_word16 : ℕ
max_word16 = 2 ^ 16 - 1

abbrev pub is_empty {ℓ} : {A : Type ℓ} → List A → Bool
is_empty [] = true
is_empty (x ∷ xs) = false

-- `addField` with its checks behind it.
unfoldable pub emplace_field : Schema → Field → ℕ → Schema
unfolding insert_at
emplace_field s f position =
    let null_fields = if f.not_null then s.null_fields else s.null_fields + 1 in
    if is_fixed_sized f.type
    then record s {
      null_fields = null_fields;
      fixed_size_fields = insert_at position f s.fixed_size_fields;
    }
    else record s { null_fields = null_fields; var_size_fields = s.var_size_fields ++ (f ∷ []) }

unfoldable pub add_field : Schema → FieldType → Text → Bool → Bool × Schema
unfolding insert_position is_fresh emplace_field
add_field s type name not_null =
    let f : Field = record { type = type; name = name; not_null = not_null } in
    let (position, fresh) = insert_position (align_of type) name s.fixed_size_fields 0 0 in
    if not (is_empty s.indexes)
    then (false, s)
    else if ltb max_word16 (length name)
    then (false, s)
    else if ltb max_word16 (length s.fixed_size_fields + length s.var_size_fields + 1)
    then (false, s)
    else if fresh && is_fresh name s.var_size_fields
    then (true, emplace_field s f position)
    else (false, s)

-- `idOf`, none where it throws. An id has 16 bits.
unfoldable pub id_from : Text → List Field → ℕ → Option ℕ
id_from name [] id = none
id_from name (f ∷ rest) id =
    let later = id_from name rest ((id + 1) % 2 ^ 16) in
    if text_eq f.name name then some id else later

unfoldable pub id_of : Schema → Text → Option ℕ
unfolding id_from
id_of s name = elim (id_from name s.fixed_size_fields 0) [
  | some id ↦ some id
  | none ↦ id_from name s.var_size_fields (length s.fixed_size_fields % 2 ^ 16)
]

-- `getFieldFromName`, none where it throws.
unfoldable pub named : Text → List Field → Option Field
named name [] = none
named name (f ∷ rest) = let later = named name rest in if text_eq f.name name then some f else later

unfoldable pub get_field_from_name : Schema → Text → Option Field
unfolding named
get_field_from_name s name = elim (named name s.fixed_size_fields) [
  | some f ↦ some f
  | none ↦ named name s.var_size_fields
]

-- `operator[]`
unfoldable pub field_at : Schema → ℕ → Option Field
field_at s id =
    if ltb id (length s.fixed_size_fields)
    then get_elem? s.fixed_size_fields id
    else get_elem? s.var_size_fields (id - length s.fixed_size_fields)
