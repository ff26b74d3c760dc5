-- ===== src/Schema/Lookups.antt =====
-- The lookups of a field by its id and by its name.
use native.Mathlib.Nat.{mod-eq_of_lt}
use mathlib.Core.Option.{none-ne-some, some-injective}
use mathlib.Core.Path.{subst}
use tellstore.Prelude.{
  ℕ, zero, suc, ◌+◌, ◌-◌, ◌%◌, ◌^◌, ◌<◌, ◌≡◌, refl, sym, ap, ◌∙◌, true, false, List, [], ◌∷◌, ◌++◌,
  none, some, ltb, length, get_elem?, arith, Bool-cases, inl, inr,
}
use tellstore.Schema.{
  Text, text_eq, Field, Schema, id_from, id_of, named, get_field_from_name, field_at,
}
use tellstore.Schema.Fields.{text_eq_refl, text_eq_sym, IsFresh, AreDistinct, IsSchema}

-- A field among those of a list has none of the names that are not there.
IsFresh-get :
    (name : Text) (fs : List Field) (i : ℕ) (f : Field)
    → IsFresh name fs
    → get_elem? fs i ≡ some f
    → text_eq f.name name ≡ false
IsFresh-get name [] i f fresh e = absurd (none-ne-some _ e)
IsFresh-get name (g ∷ fs) zero f fresh e =
    subst (λ f. text_eq f.name name ≡ false) (some-injective _ _ e) fresh.0
IsFresh-get name (g ∷ fs) (suc i) f fresh e = IsFresh-get name fs i f fresh.1 e

get_right :
    (xs ys : List Field) (i : ℕ) {f : Field}
    → get_elem? ys i ≡ some f
    → get_elem? (xs ++ ys) (length xs + i) ≡ some f
get_right [] ys i e = ap (get_elem? ys) (omega arith) ∙ e
get_right (x ∷ xs) ys i {f} e =
    let place : suc (length xs + i) ≡ suc (length xs) + i = omega arith in
    subst (λ n. get_elem? (x ∷ xs ++ ys) n ≡ some f) place (get_right xs ys i e)

IsFresh-left : (name : Text) (xs ys : List Field) → IsFresh name (xs ++ ys) → IsFresh name xs
IsFresh-left name [] ys fresh = tt
IsFresh-left name (x ∷ xs) ys fresh = (fresh.0, IsFresh-left name xs ys fresh.1)

-- The first field with the name of a field is that field.
module _ (f : Field) where
  differs :
      (g : Field) (fs : List Field) (i : ℕ)
      → IsFresh g.name fs
      → get_elem? fs i ≡ some f
      → text_eq g.name f.name ≡ false
  differs g fs i fresh e = text_eq_sym g.name f.name ∙ IsFresh-get g.name fs i f fresh e

  named-get :
      (fs : List Field) (i : ℕ)
      → AreDistinct fs
      → get_elem? fs i ≡ some f
      → named f.name fs ≡ some f
  unfolding named
  named-get [] i d e = absurd (none-ne-some _ e)
  named-get (g ∷ fs) zero d e =
      subst (λ f. named f.name (g ∷ fs) ≡ some f) (some-injective _ _ e)
        (rw (text_eq_refl g.name) refl)
  named-get (g ∷ fs) (suc i) d e = rw (differs g fs i d.0 e) (named-get fs i d.1 e)

  id_from-get :
      (fs : List Field) (i id : ℕ)
      → AreDistinct fs
      → get_elem? fs i ≡ some f
      → id + i < 2 ^ 16
      → id_from f.name fs id ≡ some (id + i)
  unfolding id_from
  id_from-get [] i id d e h = absurd (none-ne-some _ e)
  id_from-get (g ∷ fs) zero id d e h =
      subst (λ f. id_from f.name (g ∷ fs) id ≡ some (id + 0)) (some-injective _ _ e)
        (rw (text_eq_refl g.name) (ap some (omega arith)))
  id_from-get (g ∷ fs) (suc i) id d e h =
      let next : id + 1 < 2 ^ 16 = omega (arith, h) in
      rw (differs g fs i d.0 e, mod-eq_of_lt next)
        (id_from-get fs i (id + 1) d.1 e (omega (arith, h)) ∙ ap some (omega arith))

  -- Where no field has the name, nothing is found.
  named-fresh : (fs : List Field) → IsFresh f.name fs → named f.name fs ≡ none
  unfolding named
  named-fresh [] fresh = refl
  named-fresh (g ∷ fs) fresh = rw fresh.0 (named-fresh fs fresh.1)

  id_from-fresh : (fs : List Field) (id : ℕ) → IsFresh f.name fs → id_from f.name fs id ≡ none
  unfolding id_from
  id_from-fresh [] id fresh = refl
  id_from-fresh (g ∷ fs) id fresh = rw fresh.0 (id_from-fresh fs ((id + 1) % 2 ^ 16) fresh.1)

  append-IsFresh :
      (xs ys : List Field) (i : ℕ)
      → AreDistinct (xs ++ ys)
      → get_elem? ys i ≡ some f
      → IsFresh f.name xs
  append-IsFresh [] ys i d e = tt
  append-IsFresh (x ∷ xs) ys i d e =
      (differs x (xs ++ ys) (length xs + i) d.0 (get_right xs ys i e), append-IsFresh xs ys i d.1 e)

AreDistinct-left : (xs ys : List Field) → AreDistinct (xs ++ ys) → AreDistinct xs
AreDistinct-left [] ys d = tt
AreDistinct-left (x ∷ xs) ys d = (IsFresh-left x.name xs ys d.0, AreDistinct-left xs ys d.1)

AreDistinct-right : (xs ys : List Field) → AreDistinct (xs ++ ys) → AreDistinct ys
AreDistinct-right [] ys d = d
AreDistinct-right (x ∷ xs) ys d = AreDistinct-right xs ys d.1

get_elem?-lt : (fs : List Field) (i : ℕ) (f : Field) → get_elem? fs i ≡ some f → i < length fs
get_elem?-lt [] i f e = absurd (none-ne-some _ e)
get_elem?-lt (g ∷ fs) zero f e = omega arith
get_elem?-lt (g ∷ fs) (suc i) f e = omega (arith, get_elem?-lt fs i f e)

field_at-fixed :
    (s : Schema) (id : ℕ)
    → ltb id (length s.fixed_size_fields) ≡ true
    → field_at s id ≡ get_elem? s.fixed_size_fields id
unfolding field_at
field_at-fixed s id h = rw h refl

field_at-variable :
    (s : Schema) (id : ℕ)
    → ltb id (length s.fixed_size_fields) ≡ false
    → field_at s id ≡ get_elem? s.var_size_fields (id - length s.fixed_size_fields)
unfolding field_at
field_at-variable s id h = rw h refl

-- In a schema with the invariant of `addField`, the name of the field that `operator[]` gives for an id
-- below the number of fields has that id, and `getFieldFromName` gives the field for it.
pub id_of-field_at :
    (s : Schema) (id : ℕ) (f : Field)
    → IsSchema s
    → field_at s id ≡ some f
    → (id_of s f.name ≡ some id) × (get_field_from_name s f.name ≡ some f)
unfolding id_of get_field_from_name
id_of-field_at s id f ok e =
    let n : ℕ = length s.fixed_size_fields in
    elim (Bool-cases (ltb id n)) [
      | inl fixed ↦
          let e1 : get_elem? s.fixed_size_fields id ≡ some f =
            sym (field_at-fixed s id fixed) ∙ e in
          let d : AreDistinct s.fixed_size_fields =
            AreDistinct-left s.fixed_size_fields s.var_size_fields ok.distinct in
          let small : 0 + id < 2 ^ 16 =
            omega (arith, get_elem?-lt s.fixed_size_fields id f e1, ok.few) in
          let same : 0 + id ≡ id = omega arith in
          (
            rw (id_of, id_from-get f s.fixed_size_fields id 0 d e1 small, same) refl,
            rw (get_field_from_name, named-get f s.fixed_size_fields id d e1) refl,
          )
      | inr variable ↦
          let j : ℕ = id - n in
          let e1 : get_elem? s.var_size_fields j ≡ some f =
            sym (field_at-variable s id variable) ∙ e in
          let fresh : IsFresh f.name s.fixed_size_fields =
            append-IsFresh f s.fixed_size_fields s.var_size_fields j ok.distinct e1 in
          let d : AreDistinct s.var_size_fields =
            AreDistinct-right s.fixed_size_fields s.var_size_fields ok.distinct in
          let same : n + j ≡ id = ground (arith, variable) in
          let small : n + j < 2 ^ 16 =
            omega (arith, get_elem?-lt s.var_size_fields j f e1, ok.few) in
          let few : n < 2 ^ 16 = omega (arith, ok.few) in
          (
            rw
                (
                  id_of,
                  id_from-fresh f s.fixed_size_fields 0 fresh,
                  mod-eq_of_lt few,
                  id_from-get f s.var_size_fields j n d e1 small,
                  same,
                )
                refl,
            rw
                (
                  get_field_from_name,
                  named-fresh f s.fixed_size_fields fresh,
                  named-get f s.var_size_fields j d e1,
                )
                refl,
          )
    ]
