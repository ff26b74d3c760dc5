-- ===== src/Record/Bounds.antt =====
-- Where the constructor of `Record` puts the fields: aligned, apart and inside the record.
use mathlib.Core.Path.{subst}
use mathlib.Core.Option.{none-ne-some, some-injective}
use tellstore.Prelude.{
  ℕ, zero, suc, ◌+◌, ◌≤◌, ◌<◌, ◌≡◌, refl, true, false, List, [], ◌∷◌, some, if◌then◌else◌, arith,
  get_elem?,
}
use tellstore.Schema.{is_fixed_sized, static_size, Field}
use tellstore.Schema.Fields.{AllSized, nullable}
use tellstore.Record.{FieldMetaData, fixed_width, offset_width}
use tellstore.Record.Layout.{total, null_width, meta_of, placed}

-- The bytes of a field: its value, or the offset of its string.
abbrev pub field_width : Field → ℕ
field_width f = if is_fixed_sized f.type then static_size f.type else 4

-- A field between two offsets and between two null indexes.
pub record IsWithin (lo hi nlo nhi : ℕ) (f : FieldMetaData) : Type 0 where
  pub start : lo ≤ f.offset
  pub end : f.offset + field_width f.field ≤ hi
  pub null_start : f.field.not_null ≡ false → nlo ≤ f.null_idx
  pub null_end : f.field.not_null ≡ false → f.null_idx < nhi

-- One field before another one, with its bytes and with its null byte.
pub record IsBefore (f g : FieldMetaData) : Type 0 where
  pub bytes : f.offset + field_width f.field ≤ g.offset
  pub null_byte : f.field.not_null ≡ false → g.field.not_null ≡ false → f.null_idx < g.null_idx

-- The width that the constructor adds is that of the fields.
abbrev pub AllWide : (Field → ℕ) → List Field → Type 0
AllWide width [] = Unit
AllWide width (f ∷ fs) = (field_width f ≡ width f) × AllWide width fs

pub AllWide-fixed : (fs : List Field) → AllSized true fs → AllWide fixed_width fs
AllWide-fixed [] all = tt
AllWide-fixed (f ∷ fs) all = (rw all.0 refl, AllWide-fixed fs all.1)

pub AllWide-variable : (fs : List Field) → AllSized false fs → AllWide offset_width fs
AllWide-variable [] all = tt
AllWide-variable (f ∷ fs) all = (rw all.0 refl, AllWide-variable fs all.1)

meta_of-null_idx : (f : Field) (lo nlo : ℕ) → f.not_null ≡ false → (meta_of f lo nlo).null_idx ≡ nlo
meta_of-null_idx f lo nlo e = rw e refl

IsWithin-head :
    (f : Field) (lo nlo hi nhi : ℕ)
    → lo + field_width f ≤ hi
    → nlo + null_width f ≤ nhi
    → IsWithin lo hi nlo nhi (meta_of f lo nlo)
IsWithin-head f lo nlo hi nhi h k = record {
  start = omega arith;
  end = h;
  null_start = λ e. omega (arith, meta_of-null_idx f lo nlo e);
  null_end = λ e. ground (arith, e, k);
}

pub IsWithin-mono :
    (lo lo' hi hi' nlo nlo' nhi nhi' : ℕ) (f : FieldMetaData)
    → lo' ≤ lo
    → hi ≤ hi'
    → nlo' ≤ nlo
    → nhi ≤ nhi'
    → IsWithin lo hi nlo nhi f
    → IsWithin lo' hi' nlo' nhi' f
IsWithin-mono lo lo' hi hi' nlo nlo' nhi nhi' f h h' k k' w = record {
  start = omega (arith, w.start, h);
  end = omega (arith, w.end, h');
  null_start = λ e. omega (arith, w.null_start e, k);
  null_end = λ e. omega (arith, w.null_end e, k');
}

pub IsBefore-within :
    (lo mid hi nlo nmid nhi : ℕ) (f g : FieldMetaData)
    → IsWithin lo mid nlo nmid f
    → IsWithin mid hi nmid nhi g
    → IsBefore f g
IsBefore-within lo mid hi nlo nmid nhi f g wf wg = record {
  bytes = omega (arith, wf.end, wg.start);
  null_byte = λ e e'. omega (arith, wf.null_end e, wg.null_start e');
}

module _ (width : Field → ℕ) where
  pub placed-IsWithin :
      (fs : List Field) (lo nlo id : ℕ) (f : FieldMetaData)
      → AllWide width fs
      → get_elem? (placed width fs lo nlo) id ≡ some f
      → IsWithin lo (lo + total width fs) nlo (nlo + nullable fs) f
  unfolding placed total nullable
  placed-IsWithin [] lo nlo id f wide e = absurd (none-ne-some _ e)
  placed-IsWithin (g ∷ fs) lo nlo zero f wide e =
      subst (IsWithin lo (lo + total width (g ∷ fs)) nlo (nlo + nullable (g ∷ fs)))
        (some-injective _ _ e)
        (IsWithin-head g lo nlo (lo + total width (g ∷ fs)) (nlo + nullable (g ∷ fs))
          (omega (arith, wide.0)) (omega arith))
  placed-IsWithin (g ∷ fs) lo nlo (suc id) f wide e =
      IsWithin-mono (lo + width g) lo (lo + width g + total width fs) (lo + total width (g ∷ fs))
        (nlo + null_width g) nlo (nlo + null_width g + nullable fs) (nlo + nullable (g ∷ fs)) f
        (omega arith) (omega arith) (omega arith) (omega arith)
        (placed-IsWithin fs (lo + width g) (nlo + null_width g) id f wide.1 e)

  pub placed-IsBefore :
      (fs : List Field) (lo nlo id id' : ℕ) (f g : FieldMetaData)
      → AllWide width fs
      → id < id'
      → get_elem? (placed width fs lo nlo) id ≡ some f
      → get_elem? (placed width fs lo nlo) id' ≡ some g
      → IsBefore f g
  unfolding placed
  placed-IsBefore [] lo nlo id id' f g wide h e e' = absurd (none-ne-some _ e)
  placed-IsBefore (x ∷ fs) lo nlo id zero f g wide h e e' = absurd (omega (arith, h))
  placed-IsBefore (x ∷ fs) lo nlo zero (suc id') f g wide h e e' =
      subst (λ f. IsBefore f g) (some-injective _ _ e)
        (IsBefore-within lo (lo + width x) (lo + width x + total width fs) nlo (nlo + null_width x)
          (nlo + null_width x + nullable fs) (meta_of x lo nlo) g
          (IsWithin-head x lo nlo (lo + width x) (nlo + null_width x) (omega (arith, wide.0))
            (omega arith))
          (placed-IsWithin fs (lo + width x) (nlo + null_width x) id' g wide.1 e'))
  placed-IsBefore (x ∷ fs) lo nlo (suc id) (suc id') f g wide h e e' =
      placed-IsBefore fs (lo + width x) (nlo + null_width x) id id' f g wide.1 (omega (arith, h)) e
        e'
