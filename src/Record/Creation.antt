-- ===== src/Record/Creation.antt =====
-- The fields that `Record::create` stored are those that `Record::data` finds by their ids.
use mathlib.Core.Path.{subst}
use mathlib.Core.Option.{none-ne-some, some-injective}
use tellstore.Prelude.{
  ℕ, zero, suc, ◌+◌, ◌-◌, ◌≡◌, refl, sym, ap, ◌∙◌, Bool, true, false, not, List, [], ◌∷◌, ◌++◌,
  Option, none, some, length, if◌then◌else◌, arith, ◌⊎◌, inl, inr, Bool-cases, get_elem?, ◌==◌,
}
use tellstore.Schema.{is_fixed_sized, static_size, Field}
use tellstore.Schema.Fields.{AllSized, nullable}
use tellstore.Record.{
  FieldMetaData, Record, GenericTuple, Value, Memory, word_of, read_bytes, read_word32, fixed_width,
  offset_width, data_of,
}
use tellstore.Record.Layout.{null_width, meta_of, placed}
use tellstore.Record.Values.{number_of, text_of, null_bit}
use tellstore.Record.Filling.{StoredFixed, StoredVariable}

-- What is at the address of a field: its number, or the offset of its string with the next one that
-- is its end.
abbrev pub Reads : GenericTuple → Memory → Field → ℕ → Type 0
Reads t m f p =
    ((is_fixed_sized f.type ≡ true)
      × (word_of (read_bytes m p (static_size f.type)) ≡ number_of (t f.name)))
    ⊎ ((is_fixed_sized f.type ≡ false)
        × (read_bytes m (read_word32 m p) (read_word32 m (p + 4) - read_word32 m p)
            ≡ text_of (t f.name)))

abbrev pub is_missing : Option Value → Bool
is_missing none = true
is_missing (some v) = false

zero_add : (n : ℕ) → 0 + n ≡ n
zero_add n = omega arith

suc_add : (a b : ℕ) → suc a + b ≡ suc (a + b)
suc_add a b = omega arith

get_elem?-left :
    {A : Type 0} (xs ys : List A) (i : ℕ) (x : A)
    → get_elem? xs i ≡ some x
    → get_elem? (xs ++ ys) i ≡ some x
get_elem?-left [] ys i x e = absurd (none-ne-some _ e)
get_elem?-left (y ∷ xs) ys zero x e = e
get_elem?-left (y ∷ xs) ys (suc i) x e = get_elem?-left xs ys i x e

get_elem?-right :
    {A : Type 0} (xs ys : List A) (i : ℕ) → get_elem? (xs ++ ys) (length xs + i) ≡ get_elem? ys i
get_elem?-right [] ys i = ap (get_elem? ys) (zero_add i)
get_elem?-right (x ∷ xs) ys i =
    ap (get_elem? (x ∷ xs ++ ys)) (suc_add (length xs) i) ∙ get_elem?-right xs ys i

pub get_elem?-append :
    {A : Type 0} (xs ys : List A) (i : ℕ)
    → (get_elem? (xs ++ ys) i ≡ get_elem? xs i)
      ⊎ ((j : ℕ) × (i ≡ length xs + j) × (get_elem? (xs ++ ys) i ≡ get_elem? ys j))
get_elem?-append [] ys i = inr (i, sym (zero_add i), refl)
get_elem?-append (x ∷ xs) ys zero = inl refl
get_elem?-append (x ∷ xs) ys (suc i) = elim (get_elem?-append xs ys i) [
  | inl h ↦ inl h
  | inr (j, place, h) ↦ inr (j, omega (arith, place), h)
]

-- A field among those that were placed, with what memory holds for it.
abbrev pub Located : GenericTuple → Memory → List FieldMetaData → ℕ → Field → Type 0
Located t m ms id f =
    (p : ℕ) × (n : ℕ) × (get_elem? ms id ≡ some (meta_of f p n))
    × (f.not_null ≡ false → m n ≡ null_bit (t f.name))
    × Reads t m f p

pub fixed-Located :
    (t : GenericTuple) (fs : List Field) (lo nlo : ℕ) (m : Memory) (id : ℕ) (f : Field)
    → AllSized true fs
    → StoredFixed t fs lo nlo m
    → get_elem? fs id ≡ some f
    → Located t m (placed fixed_width fs lo nlo) id f
unfolding placed
fixed-Located t [] lo nlo m id f sized stored e = absurd (none-ne-some _ e)
fixed-Located t (g ∷ fs) lo nlo m zero f sized stored e =
    subst (λ f. Located t m (placed fixed_width (g ∷ fs) lo nlo) 0 f) (some-injective _ _ e)
      (lo, nlo, refl, stored.0, inl (sized.0, stored.1))
fixed-Located t (g ∷ fs) lo nlo m (suc id) f sized stored e =
    fixed-Located t fs (lo + fixed_width g) (nlo + null_width g) m id f sized.1 stored.2 e

pub variable-Located :
    (t : GenericTuple) (fs : List Field) (lo nlo heap : ℕ) (m : Memory) (id : ℕ) (f : Field)
    → AllSized false fs
    → StoredVariable t fs lo nlo heap m
    → get_elem? fs id ≡ some f
    → Located t m (placed offset_width fs lo nlo) id f
unfolding placed
variable-Located t [] lo nlo heap m id f sized stored e = absurd (none-ne-some _ e)
variable-Located t (g ∷ fs) lo nlo heap m zero f sized stored e =
    let to : ℕ = heap + length (text_of (t g.name)) in
    let size : to - heap ≡ length (text_of (t g.name)) = omega arith in
    subst (λ f. Located t m (placed offset_width (g ∷ fs) lo nlo) 0 f) (some-injective _ _ e)
      (lo, nlo, refl, stored.0, inr (sized.0, rw (stored.1, stored.2, size) stored.3))
variable-Located t (g ∷ fs) lo nlo heap m (suc id) f sized stored e =
    variable-Located t fs (lo + 4) (nlo + null_width g) (heap + length (text_of (t g.name))) m id f
      sized.1 stored.4 e

Located-left :
    (t : GenericTuple) (m : Memory) (ms ms' : List FieldMetaData) (id : ℕ) (f : Field)
    → Located t m ms id f
    → Located t m (ms ++ ms') id f
Located-left t m ms ms' id f (p, n, e, bit, reads) =
    (p, n, get_elem?-left ms ms' id (meta_of f p n) e, bit, reads)

Located-right :
    (t : GenericTuple) (m : Memory) (ms ms' : List FieldMetaData) (id : ℕ) (f : Field)
    → Located t m ms' id f
    → Located t m (ms ++ ms') (length ms + id) f
Located-right t m ms ms' id f (p, n, e, bit, reads) =
    (p, n, get_elem?-right ms ms' id ∙ e, bit, reads)

-- What a schema's fields are found as, from those of a fixed and of a variable size.
pub append-Located :
    (t : GenericTuple) (m : Memory) (xs ys : List Field) (ms ms' : List FieldMetaData) (id : ℕ)
    (f : Field)
    → length ms ≡ length xs
    → ((i : ℕ) → get_elem? xs i ≡ some f → Located t m ms i f)
    → ((i : ℕ) → get_elem? ys i ≡ some f → Located t m ms' i f)
    → get_elem? (xs ++ ys) id ≡ some f
    → Located t m (ms ++ ms') id f
append-Located t m xs ys ms ms' id f same left right e = elim (get_elem?-append xs ys id) [
  | inl h ↦ Located-left t m ms ms' id f (left id (sym h ∙ e))
  | inr (j, place, h) ↦
      subst (λ i. Located t m (ms ++ ms') i f) (ap (λ n. n + j) same ∙ sym place)
        (Located-right t m ms ms' j f (right j (sym h ∙ e)))
]

null_bit_set : (o : Option Value) → not (null_bit o == 0) ≡ is_missing o
null_bit_set none = refl
null_bit_set (some v) = refl

pub data_of-Located :
    (r : Record) (t : GenericTuple) (m : Memory) (id : ℕ) (f : Field)
    → Located t m r.metadata id f
    → (p : ℕ) × (data_of r m id
        ≡ some (p, f.type, (if f.not_null then none else some (is_missing (t f.name)))))
      × Reads t m f p
unfolding data_of
data_of-Located r t m id f (p, n, e, bit, reads) = (
  p,
  rw (data_of, e)
      (elim (Bool-cases f.not_null) [
        | inl required ↦ rw required refl
        | inr nullable ↦ rw (nullable, bit nullable, null_bit_set (t f.name)) refl
      ]),
  reads,
)
