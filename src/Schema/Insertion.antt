-- ===== src/Schema/Insertion.antt =====
-- The insertion of a field keeps what the invariant of `Schema` says of lists of fields.
use mathlib.Core.List.{append_assoc}
use tellstore.Prelude.{
  ℕ, zero, suc, ◌+◌, ◌≤◌, ◌≡◌, refl, sym, ap, ◌∙◌, Bool, true, false, List, [], ◌∷◌, ◌++◌, leb,
  length, if◌then◌else◌, arith, Bool-cases, inl, inr, length-append,
}
use tellstore.Schema.{
  Text, text_eq, is_fixed_sized, align_of, Field, Schema, is_fresh, insert_at, max_word16,
  emplace_field,
}
use tellstore.Schema.Fields.{
  text_eq_sym, IsFresh, AreDistinct, AllAtMost, AreDescending, AllSized, AllShort, nullable,
  all_fields, IsSchema, rank, rank-le, IsFresh-of_is_fresh,
}

module _ (f : Field) where
  AllAtMost-insert_at :
      (bound p : ℕ) (fields : List Field)
      → align_of f.type ≤ bound
      → AllAtMost bound fields
      → AllAtMost bound (insert_at p f fields)
  unfolding insert_at
  AllAtMost-insert_at bound zero fields h all = (h, all)
  AllAtMost-insert_at bound (suc p) [] h all = (h, all)
  AllAtMost-insert_at bound (suc p) (g ∷ rest) h all =
      (all.0, AllAtMost-insert_at bound p rest h all.1)

  pub AllSized-insert_at :
      (fixed : Bool) (p : ℕ) (fields : List Field)
      → is_fixed_sized f.type ≡ fixed
      → AllSized fixed fields
      → AllSized fixed (insert_at p f fields)
  unfolding insert_at
  AllSized-insert_at fixed zero fields h all = (h, all)
  AllSized-insert_at fixed (suc p) [] h all = (h, all)
  AllSized-insert_at fixed (suc p) (g ∷ rest) h all =
      (all.0, AllSized-insert_at fixed p rest h all.1)

  pub AllShort-insert_at :
      (p : ℕ) (fields : List Field)
      → length f.name ≤ max_word16
      → AllShort fields
      → AllShort (insert_at p f fields)
  unfolding insert_at
  AllShort-insert_at zero fields h all = (h, all)
  AllShort-insert_at (suc p) [] h all = (h, all)
  AllShort-insert_at (suc p) (g ∷ rest) h all = (all.0, AllShort-insert_at p rest h all.1)

  IsFresh-insert_at :
      (name : Text) (p : ℕ) (fields : List Field)
      → text_eq f.name name ≡ false
      → IsFresh name fields
      → IsFresh name (insert_at p f fields)
  unfolding insert_at
  IsFresh-insert_at name zero fields h all = (h, all)
  IsFresh-insert_at name (suc p) [] h all = (h, all)
  IsFresh-insert_at name (suc p) (g ∷ rest) h all = (all.0, IsFresh-insert_at name p rest h all.1)

  pub AreDistinct-insert_at :
      (p : ℕ) (fields : List Field)
      → IsFresh f.name fields
      → AreDistinct fields
      → AreDistinct (insert_at p f fields)
  unfolding insert_at
  AreDistinct-insert_at zero fields fresh d = (fresh, d)
  AreDistinct-insert_at (suc p) [] fresh d = (fresh, d)
  AreDistinct-insert_at (suc p) (g ∷ rest) fresh d = (
    IsFresh-insert_at g.name p rest (text_eq_sym f.name g.name ∙ fresh.0) d.0,
    AreDistinct-insert_at p rest fresh.1 d.1,
  )

  pub nullable-insert_at :
      (p : ℕ) (fields : List Field)
      → nullable (insert_at p f fields) ≡ (if f.not_null then 0 else 1) + nullable fields
  unfolding insert_at nullable
  nullable-insert_at zero fields = refl
  nullable-insert_at (suc p) [] = refl
  nullable-insert_at (suc p) (g ∷ rest) = ground (arith, nullable-insert_at p rest)

  pub length-insert_at :
      (p : ℕ) (fields : List Field) → length (insert_at p f fields) ≡ suc (length fields)
  unfolding insert_at
  length-insert_at zero fields = refl
  length-insert_at (suc p) [] = refl
  length-insert_at (suc p) (g ∷ rest) = ap suc (length-insert_at p rest)

  AllAtMost-mono : (a b : ℕ) (fields : List Field) → a ≤ b → AllAtMost a fields → AllAtMost b fields
  AllAtMost-mono a b [] h all = tt
  AllAtMost-mono a b (g ∷ rest) h all = (omega (arith, h, all.0), AllAtMost-mono a b rest h all.1)

  -- At its rank a field keeps the order.
  pub AreDescending-insert_at :
      (fields : List Field)
      → AreDescending fields
      → AreDescending (insert_at (rank (align_of f.type) fields) f fields)
  unfolding insert_at rank
  AreDescending-insert_at [] d = (tt, tt)
  AreDescending-insert_at (g ∷ rest) d =
      elim (Bool-cases (leb (align_of f.type) (align_of g.type))) [
        | inl above ↦ rw above (
          AllAtMost-insert_at (align_of g.type) (rank (align_of f.type) rest) rest (ground arith)
              d.0,
          AreDescending-insert_at rest d.1,
        )
        | inr below ↦ rw below (
          (
            ground arith,
            AllAtMost-mono (align_of g.type) (align_of f.type) rest (ground arith) d.0,
          ),
          d,
        )
      ]

  -- An insertion before the end, and at the end.
  pub insert_at-append :
      (p : ℕ) (xs ys : List Field)
      → p ≤ length xs
      → insert_at p f xs ++ ys ≡ insert_at p f (xs ++ ys)
  unfolding insert_at
  insert_at-append zero xs ys h = refl
  insert_at-append (suc p) [] ys h = absurd (omega (arith, h))
  insert_at-append (suc p) (x ∷ xs) ys h =
      ap (λ l. x ∷ l) (insert_at-append p xs ys (omega (arith, h)))

  pub insert_at_end : (xs : List Field) → xs ++ (f ∷ []) ≡ insert_at (length xs) f xs
  unfolding insert_at
  insert_at_end [] = refl
  insert_at_end (x ∷ xs) = ap (λ l. x ∷ l) (insert_at_end xs)

IsFresh-append :
    (name : Text) (xs ys : List Field) → IsFresh name xs → IsFresh name ys → IsFresh name (xs ++ ys)
IsFresh-append name [] ys h h' = h'
IsFresh-append name (x ∷ xs) ys h h' = (h.0, IsFresh-append name xs ys h.1 h')

module _ (s : Schema) (f : Field) (ok : IsSchema s)
    (fresh : is_fresh f.name s.fixed_size_fields ≡ true)
    (fresh' : is_fresh f.name s.var_size_fields ≡ true) (short : length f.name ≤ max_word16)
    (few : length s.fixed_size_fields + length s.var_size_fields + 1 ≤ max_word16) where
  abbrev pub position : ℕ
  position = rank (align_of f.type) s.fixed_size_fields

  -- A field is emplaced at its rank among all fields, or at their end.
  abbrev pub place : ℕ
  place = if is_fixed_sized f.type then position else length (all_fields s)

  pub all_fields-emplace_field :
      all_fields (emplace_field s f position) ≡ insert_at place f (all_fields s)
  unfolding emplace_field
  all_fields-emplace_field = elim (Bool-cases (is_fixed_sized f.type)) [
    | inl fixed ↦ rw fixed (
        insert_at-append f position s.fixed_size_fields s.var_size_fields
          (rank-le (align_of f.type) s.fixed_size_fields))
    | inr var ↦ rw var (
        sym (append_assoc s.fixed_size_fields s.var_size_fields (f ∷ []))
        ∙ insert_at_end f (all_fields s))
  ]

  emplace_field-null_fields :
      (emplace_field s f position).null_fields
      ≡ (if f.not_null then s.null_fields else s.null_fields + 1)
  unfolding emplace_field
  emplace_field-null_fields = ground arith

  emplace_field-length :
      length (emplace_field s f position).fixed_size_fields
        + length (emplace_field s f position).var_size_fields
      ≤ max_word16
  unfolding emplace_field
  emplace_field-length = ground (
    arith,
    length-insert_at f position s.fixed_size_fields,
    length-append s.var_size_fields (f ∷ []),
  )

  pub emplace_field-IsSchema : IsSchema (emplace_field s f position)
  emplace_field-IsSchema = record {
    descending =
        unfold emplace_field in
        elim (Bool-cases (is_fixed_sized f.type)) [
          | inl fixed ↦ rw fixed (AreDescending-insert_at f s.fixed_size_fields ok.descending)
          | inr var ↦ rw var ok.descending
        ];
    fixed =
        unfold emplace_field in
        elim (Bool-cases (is_fixed_sized f.type)) [
          | inl fixed ↦
              rw fixed (AllSized-insert_at f true position s.fixed_size_fields fixed ok.fixed)
          | inr var ↦ rw var ok.fixed
        ];
    variable =
        unfold emplace_field in
        elim (Bool-cases (is_fixed_sized f.type)) [
          | inl fixed ↦ rw fixed ok.variable
          | inr var ↦
              rw (var, insert_at_end f s.var_size_fields)
                (AllSized-insert_at f false (length s.var_size_fields) s.var_size_fields var
                  ok.variable)
        ];
    distinct = rw all_fields-emplace_field (
        AreDistinct-insert_at f place (all_fields s)
          (IsFresh-append f.name s.fixed_size_fields s.var_size_fields
            (IsFresh-of_is_fresh f.name s.fixed_size_fields fresh)
            (IsFresh-of_is_fresh f.name s.var_size_fields fresh'))
          ok.distinct);
    short = rw all_fields-emplace_field (AllShort-insert_at f place (all_fields s) short ok.short);
    counted =
        rw (all_fields-emplace_field, nullable-insert_at f place (all_fields s))
          (ground (arith, ok.counted, emplace_field-null_fields));
    few = emplace_field-length;
  }
