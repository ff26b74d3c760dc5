-- ===== src/Record/RoundTrip.antt =====
-- `Record::create` and then `Record::data` give the values of the tuple.
use mathlib.Core.List.{append-nil}
use mathlib.Core.Path.{subst}
use tellstore.Prelude.{
  ℕ, ◌+◌, ◌-◌, ◌^◌, ◌≤◌, ◌<◌, ◌≡◌, refl, sym, ap, ◌∙◌, true, false, List, [], ◌∷◌, ◌++◌, none, some,
  if◌then◌else◌, arith, inl, inr, Bool-cases, get_elem?,
}
use tellstore.Align.{Aligner}
use tellstore.Schema.{Field, Schema, is_empty}
use tellstore.Schema.Fields.{nullable, all_fields, IsSchema}
use tellstore.Record.{
  FieldMetaData, Record, make_record, GenericTuple, Memory, fill_zero, word_of, Filled, filled,
  refused, undefined, fill_field, fill_fields, fixed_width, create, set_last_offset, data_of,
}
use tellstore.Record.Memory.{fill_zero_inside, read_bytes-Agree}
use tellstore.Record.Layout.{
  total, null_width, fixed_start, fixed_end, variable_start, variable_end, fixed_metadata,
  variable_metadata, fixed_layout, variable_layout, make_record-fixed, make_record-variable,
  null_fields-split,
}
use tellstore.Record.Values.{AllGiven}
use tellstore.Record.Steps.{below, between, Frame, null_width-nullable}
use tellstore.Record.Filling.{
  continue, StoredFixed, fill_fields-fixed, fill_fields-variable, heap_bytes, finish,
}
use tellstore.Record.Sizes.{
  length-placed, heap_bytes-empty, HasSize, HasSize-fixed, HasSize-variable,
}
use tellstore.Record.Creation.{
  Reads, is_missing, fixed-Located, variable-Located, append-Located, data_of-Located,
}

fill_fields-append :
    (t : GenericTuple) (xs ys : List FieldMetaData) (m : Memory) (heap : ℕ)
    → fill_fields t (xs ++ ys) m heap ≡ continue t ys (fill_fields t xs m heap)
unfolding fill_fields
fill_fields-append t [] ys m heap = refl
fill_fields-append t (f ∷ xs) ys m heap =
    elim (fill_field (t f.field.name) f m heap)
      as (λ z. continue t (xs ++ ys) z ≡ continue t ys (continue t xs z)) [
        | filled m' heap' ↦ fill_fields-append t xs ys m' heap'
        | refused m' ↦ refl
        | undefined ↦ refl
      ]

StoredFixed-agree :
    (t : GenericTuple) (fs : List Field) (lo nlo : ℕ) (m m' : Memory)
    → ((b : ℕ) → nlo ≤ b → b < nlo + nullable fs → m' b ≡ m b)
    → ((b : ℕ) → lo ≤ b → b < lo + total fixed_width fs → m' b ≡ m b)
    → StoredFixed t fs lo nlo m
    → StoredFixed t fs lo nlo m'
unfolding nullable total
StoredFixed-agree t [] lo nlo m m' bits bytes stored = tt
StoredFixed-agree t (f ∷ fs) lo nlo m m' bits bytes stored = (
  λ e. bits nlo (omega arith) (omega (arith, null_width-nullable f e)) ∙ stored.0 e,
  ap word_of (read_bytes-Agree m' m lo (fixed_width f) (λ b l u. bytes b l (omega (arith, u))))
      ∙ stored.1,
  StoredFixed-agree t fs (lo + fixed_width f) (nlo + null_width f) m m'
      (λ b l u. bits b (omega (arith, l)) (omega (arith, u)))
      (λ b l u. bytes b (omega (arith, l)) (omega (arith, u))) stored.2,
)

AllGiven-split :
    (t : GenericTuple) (xs ys : List Field) → AllGiven t (xs ++ ys) → AllGiven t xs × AllGiven t ys
AllGiven-split t [] ys all = (tt, all)
AllGiven-split t (x ∷ xs) ys all =
    let (left, right) = AllGiven-split t xs ys all.1 in ((all.0, left), right)

create-stop :
    (r : Record) (t : GenericTuple) (m : Memory) {m' : Memory} {heap : ℕ}
    → is_empty r.schema.var_size_fields ≡ true
    → fill_fields t r.metadata (fill_zero m 0 r.schema.null_fields) r.static_size ≡ filled m' heap
    → create r t m ≡ filled m' heap
unfolding create set_last_offset
create-stop r t m empty run = ap (set_last_offset r) run ∙ rw empty refl

set_last_offset-finish :
    (r : Record) (z : Filled)
    → is_empty r.schema.var_size_fields ≡ false
    → set_last_offset r z ≡ finish (r.static_size - 4) z
unfolding set_last_offset
set_last_offset-finish r (filled m heap) e = rw e refl
set_last_offset-finish r (refused m) e = refl
set_last_offset-finish r undefined e = refl

create-finish :
    (r : Record) (t : GenericTuple) (m : Memory)
    → is_empty r.schema.var_size_fields ≡ false
    → create r t m
      ≡ finish
          (r.static_size - 4)
          (fill_fields t r.metadata (fill_zero m 0 r.schema.null_fields) r.static_size)
unfolding create
create-finish r t m e =
    set_last_offset-finish r
      (fill_fields t r.metadata (fill_zero m 0 r.schema.null_fields) r.static_size) e

append-empty : {A : Type 0} (xs ys : List A) → is_empty ys ≡ true → xs ++ ys ≡ xs
append-empty xs [] e = append-nil xs
append-empty xs (y ∷ ys) e = ground (arith, e)

-- Every field of a record in memory is found by its id.
abbrev pub AllFound : Record → GenericTuple → Memory → Type 0
AllFound r t m =
    (id : ℕ) (f : Field)
    → get_elem? (all_fields r.schema) id ≡ some f
    → (p : ℕ) × (data_of r m id
        ≡ some (p, f.type, (if f.not_null then none else some (is_missing (t f.name)))))
      × Reads t m f p

module _ (a : Aligner) (s : Schema) (t : GenericTuple) (m : Memory) (ok : IsSchema s)
    (all : AllGiven t (all_fields s)) where
  abbrev halves : AllGiven t s.fixed_size_fields × AllGiven t s.var_size_fields
  halves = AllGiven-split t s.fixed_size_fields s.var_size_fields all

  abbrev cleared : Memory
  cleared = fill_zero m 0 s.null_fields

  stored_fixed :
      (heap : ℕ)
      → fixed_end a s ≤ heap
      → (m' : Memory) × (fill_fields t (fixed_metadata a s) cleared heap ≡ filled m' heap)
        × StoredFixed t s.fixed_size_fields (fixed_start a s) 0 m'
        × Frame cleared m'
            (fixed_start a s)
            (fixed_end a s)
            0
            (0 + nullable s.fixed_size_fields)
            heap
  stored_fixed heap room =
      fill_fields-fixed t s.fixed_size_fields cleared (fixed_start a s) 0 heap ok.fixed halves.0
        (omega (arith, a.align-ge s.null_fields 8 (omega arith), null_fields-split s ok)) room
        (λ b l u. fill_zero_inside m 0 s.null_fields b l (omega (arith, u, null_fields-split s ok)))

  -- What `create` returns for a record, and what the other operations then read.
  abbrev pub Created : Record → Type 0
  Created r =
      let end = r.static_size + heap_bytes t s.var_size_fields in
      (m' : Memory) × (create r t m ≡ filled m' end) × AllFound r t m' × HasSize a r t m'

  -- Without fields of a variable size.
  create_fixed : is_empty s.var_size_fields ≡ true → Created (fixed_layout a s)
  unfolding create
  create_fixed empty =
      let end : fixed_end a s ≡ fixed_end a s + heap_bytes t s.var_size_fields =
        omega (arith, heap_bytes-empty t s.var_size_fields empty) in
      let (m', run, stored, frame) = stored_fixed (fixed_end a s) (omega arith) in
      (
        m',
        create-stop (fixed_layout a s) t m empty run ∙ ap (filled m') end,
        λ id f e. data_of-Located (fixed_layout a s) t m' id f (
            fixed-Located t s.fixed_size_fields (fixed_start a s) 0 m' id f ok.fixed stored (
              ap (λ l. get_elem? l id)
                (sym (append-empty s.fixed_size_fields s.var_size_fields empty))
              ∙ e)),
        HasSize-fixed a s t m' empty,
      )

  -- With fields of a variable size, whose strings follow the fields.
  create_variable :
      is_empty s.var_size_fields ≡ false
      → variable_end a s + 4 + heap_bytes t s.var_size_fields < 2 ^ 32
      → Created (variable_layout a s)
  unfolding create
  create_variable some_variable small =
      let heap : ℕ = variable_end a s + 4 in
      let n : ℕ = nullable s.fixed_size_fields in
      let start : fixed_end a s ≤ variable_start a s = a.align-ge (fixed_end a s) 4 (omega arith) in
      let room : fixed_end a s ≤ heap = omega (arith, start) in
      let apart : n + nullable s.var_size_fields ≤ fixed_start a s =
        omega (arith, a.align-ge s.null_fields 8 (omega arith), null_fields-split s ok) in
      let before : heap - 4 ≡ variable_end a s = omega arith in
      let (m1, run, stored, frame) = stored_fixed heap room in
      let (m', run', first, last, stored', frame') =
        fill_fields-variable t s.var_size_fields m1 (variable_start a s) n heap ok.variable halves.1
          (omega (arith, apart, start)) (omega arith) small
          (λ b l u.
            frame b (between (omega (arith, l)) (omega (arith, u, apart)))
            ∙ fill_zero_inside m 0 s.null_fields b (omega arith)
                (omega (arith, u, null_fields-split s ok))) in
      (
        m',
        create-finish (variable_layout a s) t m some_variable
            ∙ ap (finish (heap - 4)) (
                fill_fields-append t (fixed_metadata a s) (variable_metadata a s) cleared heap
                ∙ ap (continue t (variable_metadata a s)) run)
            ∙ ap (λ e. finish e (fill_fields t (variable_metadata a s) m1 heap)) before
            ∙ run',
        λ id f e. data_of-Located (variable_layout a s) t m' id f (
            append-Located t m' s.fixed_size_fields s.var_size_fields (fixed_metadata a s)
              (variable_metadata a s) id f
              (length-placed fixed_width s.fixed_size_fields (fixed_start a s) 0)
              (λ i e.
                fixed-Located t s.fixed_size_fields (fixed_start a s) 0 m' i f ok.fixed
                  (StoredFixed-agree t s.fixed_size_fields (fixed_start a s) 0 m1 m'
                    (λ b l u. frame' b (below (omega (arith, u))))
                    (λ b l u.
                      frame' b (between (omega (arith, l, apart)) (omega (arith, u, start))))
                    stored)
                  e)
              (λ i e.
                variable-Located t s.var_size_fields (variable_start a s) n heap m' i f ok.variable
                  stored' e)
              e),
        HasSize-variable a s t m' some_variable ok.variable halves.1 small last,
      )

  -- For a schema with the invariant of `addField`, and a tuple that gives every field that must not be
  -- null a value and no field a value of another type, `create` returns true when the size of the record
  -- fits its word, whatever memory holds before. In the memory that it leaves, `data` gives for every
  -- field of the schema its type, whether it is null, and an address, where the value of the field is
  -- read: a number, or the bytes of a string from its offset to the next offset. `sizeOfTuple` gives the
  -- same for the tuple and for the memory, and `heapSize` is the sum of the sizes of the strings.
  pub create-data :
      (make_record a s).static_size + heap_bytes t s.var_size_fields < 2 ^ 32
      → Created (make_record a s)
  create-data small = elim (Bool-cases (is_empty s.var_size_fields)) [
    | inl empty ↦ subst Created (sym (make_record-fixed a s ok empty)) (create_fixed empty)
    | inr some_variable ↦
        let e : make_record a s ≡ variable_layout a s = make_record-variable a s ok some_variable in
        let fits : variable_end a s + 4 + heap_bytes t s.var_size_fields < 2 ^ 32 =
          subst (λ r. r.static_size + heap_bytes t s.var_size_fields < 2 ^ 32) e small in
        subst Created (sym e) (create_variable some_variable fits)
  ]
