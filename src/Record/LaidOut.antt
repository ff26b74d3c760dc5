-- ===== src/Record/LaidOut.antt =====
-- The layout of every `Record` that the constructor makes.
use mathlib.Core.Path.{subst}
use mathlib.Core.Option.{none-ne-some}
use tellstore.Prelude.{
  ℕ, zero, suc, ◌+◌, ◌%◌, ◌≤◌, ◌<◌, ◌≡◌, refl, sym, ◌∙◌, List, [], ◌∷◌, ◌++◌, some, length, arith,
  ◌⊎◌, inl, inr, Bool-cases, get_elem?,
}
use tellstore.Align.{Aligner}
use tellstore.Schema.{Schema, is_empty}
use tellstore.Schema.Fields.{nullable, IsSchema}
use tellstore.Record.{FieldMetaData, Record, make_record, fixed_width, offset_width}
use tellstore.Record.Layout.{
  fixed_start, fixed_end, variable_start, variable_end, fixed_metadata, variable_metadata,
  fixed_layout, variable_layout, make_record-fixed, make_record-variable, null_fields-split,
}
use tellstore.Record.Creation.{get_elem?-append}
use tellstore.Record.Bounds.{
  AllWide-fixed, AllWide-variable, IsWithin, IsBefore, IsWithin-mono, IsBefore-within,
  placed-IsWithin, placed-IsBefore,
}
use tellstore.Record.Alignment.{
  IsAligned, Divides, fixed-IsAligned, variable-IsAligned, AllAtMost-fixed,
}

-- The fields are behind the null bytes and inside the static part, each with a null byte of its own if
-- it may be null; they are in the order of their ids, and aligned.
pub record IsLaidOut (r : Record) : Type 0 where
  pub inside :
      (id : ℕ) (f : FieldMetaData)
      → get_elem? r.metadata id ≡ some f
      → IsWithin r.schema.null_fields r.static_size 0 r.schema.null_fields f
  pub ordered :
      (id id' : ℕ) (f g : FieldMetaData)
      → id < id'
      → get_elem? r.metadata id ≡ some f
      → get_elem? r.metadata id' ≡ some g
      → IsBefore f g
  pub aligned : (id : ℕ) (f : FieldMetaData) → get_elem? r.metadata id ≡ some f → IsAligned f

get_elem?-lt :
    (xs : List FieldMetaData) (i : ℕ) (x : FieldMetaData) → get_elem? xs i ≡ some x → i < length xs
get_elem?-lt [] i x e = absurd (none-ne-some _ e)
get_elem?-lt (y ∷ xs) zero x e = omega arith
get_elem?-lt (y ∷ xs) (suc i) x e = omega (arith, get_elem?-lt xs i x e)

module _ (a : Aligner) (s : Schema) (ok : IsSchema s) where
  header : s.null_fields ≤ fixed_start a s
  header = a.align-ge s.null_fields 8 (omega arith)

  Divides-start : Divides 8 (fixed_start a s)
  Divides-start =
      let e : fixed_start a s % 8 ≡ 0 = a.align-mod s.null_fields 8 (omega arith) in
      (λ k. e, λ k. omega (arith, e), λ k. omega (arith, e))

  fixed_metadata-IsWithin :
      (id : ℕ) (f : FieldMetaData)
      → get_elem? (fixed_metadata a s) id ≡ some f
      → IsWithin (fixed_start a s) (fixed_end a s) 0 (0 + nullable s.fixed_size_fields) f
  fixed_metadata-IsWithin id f e =
      placed-IsWithin fixed_width s.fixed_size_fields (fixed_start a s) 0 id f
        (AllWide-fixed s.fixed_size_fields ok.fixed) e

  variable_metadata-IsWithin :
      (id : ℕ) (f : FieldMetaData)
      → get_elem? (variable_metadata a s) id ≡ some f
      → IsWithin
          (variable_start a s)
          (variable_end a s)
          (nullable s.fixed_size_fields)
          (nullable s.fixed_size_fields + nullable s.var_size_fields)
          f
  variable_metadata-IsWithin id f e =
      placed-IsWithin offset_width s.var_size_fields (variable_start a s)
        (nullable s.fixed_size_fields) id f (AllWide-variable s.var_size_fields ok.variable) e

  fixed_metadata-IsAligned :
      (id : ℕ) (f : FieldMetaData) → get_elem? (fixed_metadata a s) id ≡ some f → IsAligned f
  fixed_metadata-IsAligned id f e =
      fixed-IsAligned s.fixed_size_fields 8 (fixed_start a s) 0 id f
        (AllAtMost-fixed s.fixed_size_fields ok.fixed) ok.descending ok.fixed Divides-start e

  fixed_layout-IsLaidOut : IsLaidOut (fixed_layout a s)
  fixed_layout-IsLaidOut = record {
    inside = λ id f e.
        IsWithin-mono (fixed_start a s) s.null_fields (fixed_end a s) (fixed_end a s) 0 0
          (0 + nullable s.fixed_size_fields) s.null_fields f header (omega arith) (omega arith)
          (omega (arith, null_fields-split s ok)) (fixed_metadata-IsWithin id f e);
    ordered = λ id id' f g h e e'.
        placed-IsBefore fixed_width s.fixed_size_fields (fixed_start a s) 0 id id' f g
          (AllWide-fixed s.fixed_size_fields ok.fixed) h e e';
    aligned = fixed_metadata-IsAligned;
  }

  -- A field of the whole list is one of the first or one of the second kind.
  variable_layout-cases :
      (id : ℕ) (f : FieldMetaData)
      → get_elem? (fixed_metadata a s ++ variable_metadata a s) id ≡ some f
      → ((id < length (fixed_metadata a s)) × (get_elem? (fixed_metadata a s) id ≡ some f))
        ⊎ ((j : ℕ) × (id ≡ length (fixed_metadata a s) + j)
            × (get_elem? (variable_metadata a s) j ≡ some f))
  variable_layout-cases id f e =
      elim (get_elem?-append (fixed_metadata a s) (variable_metadata a s) id) [
        | inl h ↦ inl (get_elem?-lt (fixed_metadata a s) id f (sym h ∙ e), sym h ∙ e)
        | inr (j, place, h) ↦ inr (j, place, sym h ∙ e)
      ]

  behind_fixed : fixed_end a s ≤ variable_start a s
  behind_fixed = a.align-ge (fixed_end a s) 4 (omega arith)

  fixed_metadata-IsBefore :
      (i j : ℕ) (f g : FieldMetaData)
      → get_elem? (fixed_metadata a s) i ≡ some f
      → get_elem? (variable_metadata a s) j ≡ some g
      → IsBefore f g
  fixed_metadata-IsBefore i j f g e e' =
      let n : ℕ = nullable s.fixed_size_fields in
      IsBefore-within (fixed_start a s) (variable_start a s) (variable_end a s) 0 n
        (n + nullable s.var_size_fields) f g
        (IsWithin-mono (fixed_start a s) (fixed_start a s) (fixed_end a s) (variable_start a s) 0 0
          (0 + n) n f (omega arith) behind_fixed (omega arith) (omega arith)
          (fixed_metadata-IsWithin i f e))
        (variable_metadata-IsWithin j g e')

  variable_layout-IsLaidOut : IsLaidOut (variable_layout a s)
  variable_layout-IsLaidOut = record {
    inside = λ id f e. elim (variable_layout-cases id f e) [
      | inl (h, e1) ↦
          IsWithin-mono (fixed_start a s) s.null_fields (fixed_end a s) (variable_end a s + 4) 0 0
            (0 + nullable s.fixed_size_fields) s.null_fields f header (omega (arith, behind_fixed))
            (omega arith) (omega (arith, null_fields-split s ok)) (fixed_metadata-IsWithin id f e1)
      | inr (j, place, e1) ↦
          IsWithin-mono (variable_start a s) s.null_fields (variable_end a s) (variable_end a s + 4)
            (nullable s.fixed_size_fields) 0
            (nullable s.fixed_size_fields + nullable s.var_size_fields) s.null_fields f
            (omega (arith, header, behind_fixed)) (omega arith) (omega arith)
            (omega (arith, null_fields-split s ok)) (variable_metadata-IsWithin j f e1)
    ];
    ordered = λ id id' f g h e e'. elim (variable_layout-cases id f e) [
      | inl (l, e1) ↦ elim (variable_layout-cases id' g e') [
        | inl (l', e2) ↦
            placed-IsBefore fixed_width s.fixed_size_fields (fixed_start a s) 0 id id' f g
              (AllWide-fixed s.fixed_size_fields ok.fixed) h e1 e2
        | inr (j, place, e2) ↦ fixed_metadata-IsBefore id j f g e1 e2
      ]
      | inr (i, place, e1) ↦ elim (variable_layout-cases id' g e') [
        | inl (l', e2) ↦ absurd (omega (arith, place, l', h))
        | inr (j, place', e2) ↦
            placed-IsBefore offset_width s.var_size_fields (variable_start a s)
              (nullable s.fixed_size_fields) i j f g
              (AllWide-variable s.var_size_fields ok.variable) (omega (arith, place, place', h)) e1
              e2
      ]
    ];
    aligned = λ id f e. elim (variable_layout-cases id f e) [
      | inl (l, e1) ↦ fixed_metadata-IsAligned id f e1
      | inr (j, place, e1) ↦
          variable-IsAligned s.var_size_fields (variable_start a s) (nullable s.fixed_size_fields) j
            f ok.variable (a.align-mod (fixed_end a s) 4 (omega arith)) e1
    ];
  }

  -- For a schema with the invariant of `addField`, the record that the constructor makes has the schema,
  -- and every field behind the null bytes, inside the static part and at a multiple of its alignment, with
  -- a null byte of its own if it may be null; the bytes of the fields are in the order of their ids and
  -- do not overlap, and so are their null bytes.
  pub make_record-IsLaidOut : ((make_record a s).schema ≡ s) × IsLaidOut (make_record a s)
  make_record-IsLaidOut = elim (Bool-cases (is_empty s.var_size_fields)) [
    | inl empty ↦
        subst (λ r. (r.schema ≡ s) × IsLaidOut r) (sym (make_record-fixed a s ok empty))
          (refl, fixed_layout-IsLaidOut)
    | inr some_variable ↦
        subst (λ r. (r.schema ≡ s) × IsLaidOut r) (sym (make_record-variable a s ok some_variable))
          (refl, variable_layout-IsLaidOut)
  ]
