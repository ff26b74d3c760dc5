-- ===== src/Schema/Adding.antt =====
-- What `addField` returns and what it leaves, and the lookup of a field by its name.
use tellstore.Prelude.{
  ℕ, ◌+◌, ◌≤◌, ◌<◌, ◌≡◌, refl, ◌∙◌, Bool, true, false, ◌&&◌, List, [], ◌∷◌, ◌++◌, ltb, length,
  if◌then◌else◌, arith, Bool-cases, ◌⊎◌, inl, inr, length-append,
}
use tellstore.Schema.{
  Text, FieldType, align_of, Field, Schema, is_fresh, insert_at, insert_position, max_word16,
  is_empty, emplace_field, add_field,
}
use tellstore.Schema.Fields.{
  all_fields, IsSchema, rank, insert_position-fresh, insert_position-rank,
}
use tellstore.Schema.Insertion.{place, all_fields-emplace_field, emplace_field-IsSchema}

-- Why a field is refused: the schema has indexes, the name is too long, there are too many fields, or
-- one of them has the name.
pub data Refused (s : Schema) (f : Field) : Type 0 where
  indexed : is_empty s.indexes ≡ false → Refused s f
  long_name : max_word16 < length f.name → Refused s f
  many_fields : max_word16 < length (all_fields s) + 1 → Refused s f
  known_name : is_fresh f.name (all_fields s) ≡ false → Refused s f

is_fresh-append :
    (name : Text) (xs ys : List Field)
    → is_fresh name (xs ++ ys) ≡ (is_fresh name xs && is_fresh name ys)
unfolding is_fresh
is_fresh-append name [] ys = refl
is_fresh-append name (x ∷ xs) ys = ground (arith, is_fresh-append name xs ys)

-- The field was added at some place, and the schema is as it has to be; or nothing changed.
abbrev pub Added : Schema → Field → Bool × Schema → Type 0
Added s f (done, s') =
    ((done ≡ true) × IsSchema s' × ((p : ℕ) × (all_fields s' ≡ insert_at p f (all_fields s))))
    ⊎ ((done ≡ false) × (s' ≡ s) × Refused s f)

found_position :
    (s : Schema) (f : Field)
    → IsSchema s
    → is_fresh f.name s.fixed_size_fields ≡ true
    → (insert_position (align_of f.type) f.name s.fixed_size_fields 0 0).0
      ≡ rank (align_of f.type) s.fixed_size_fields
found_position s f ok fresh = ground (
  arith,
  insert_position-rank (align_of f.type) f.name s.fixed_size_fields 0 0 ok.descending fresh,
)

checked :
    (s : Schema) (f : Field)
    → IsSchema s
    → length f.name ≤ max_word16
    → length s.fixed_size_fields + length s.var_size_fields + 1 ≤ max_word16
    → let (position, fresh) = insert_position (align_of f.type) f.name s.fixed_size_fields 0 0 in
      Added s f (
        if fresh && is_fresh f.name s.var_size_fields
        then (true, emplace_field s f position)
        else (false, s))
checked s f ok short few =
    rw (insert_position-fresh (align_of f.type) f.name s.fixed_size_fields 0 0)
      (elim (Bool-cases (is_fresh f.name s.fixed_size_fields)) [
        | inr old ↦ rw old (
            inr (
              refl,
              refl,
              known_name
                  (is_fresh-append f.name s.fixed_size_fields s.var_size_fields ∙ rw old refl),
            ))
        | inl fresh ↦ elim (Bool-cases (is_fresh f.name s.var_size_fields)) [
          | inr old ↦
              rw (fresh, old)
                (inr (
                  refl,
                  refl,
                  known_name (
                      is_fresh-append f.name s.fixed_size_fields s.var_size_fields
                      ∙ rw (fresh, old) refl),
                ))
          | inl fresh' ↦
              rw (fresh, fresh', found_position s f ok fresh)
                (inl (
                  refl,
                  emplace_field-IsSchema s f ok fresh fresh' short few,
                  (
                    place s f ok fresh fresh' short few,
                    all_fields-emplace_field s f ok fresh fresh' short few,
                  ),
                ))
        ]
      ])

-- `addField` keeps the schema well-formed: the fixed size fields are in the order of their alignments,
-- from the largest, the names are distinct, and the nullable fields are counted. It puts one field
-- among the others, or it refuses the field and changes nothing: the schema has indexes, the name or
-- the list of fields would be too long, or a field has the name.
pub add_field-IsSchema :
    (s : Schema) (type : FieldType) (name : Text) (not_null : Bool)
    → IsSchema s
    → Added s
        (record { type = type; name = name; not_null = not_null })
        (add_field s type name not_null)
unfolding add_field
add_field-IsSchema s type name not_null ok =
    let f : Field = record { type = type; name = name; not_null = not_null } in
    elim (Bool-cases (is_empty s.indexes)) [
      | inr with_indexes ↦ rw with_indexes (inr (refl, refl, indexed with_indexes))
      | inl plain ↦ elim (Bool-cases (ltb max_word16 (length name))) [
        | inl long ↦ rw (plain, long) (inr (refl, refl, long_name (ground arith)))
        | inr short ↦
            elim (Bool-cases
              (ltb max_word16 (length s.fixed_size_fields + length s.var_size_fields + 1))) [
                | inl many ↦
                    rw (plain, short, many)
                      (inr (
                        refl,
                        refl,
                        many_fields
                            (ground (arith, length-append s.fixed_size_fields s.var_size_fields)),
                      ))
                | inr few ↦ rw (plain, short, few) (checked s f ok (ground arith) (ground arith))
              ]
      ]
    ]
