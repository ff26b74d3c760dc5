-- ===== src/Versions/Refinement.antt =====
-- The operations of `Table` on a record, against the list of its versions.
use mathlib.Core.Option.{map as option_map}
use tellstore.Prelude.{
  ℕ, ◌≤◌, ◌<◌, ◌≡◌, refl, true, false, List, ◌∷◌, arith, if◌then◌else◌, Bool-cases, inl, inr, ap,
  ◌==◌, Option, none, some,
}
use tellstore.Versions.{is_revert, max_version, RecordImpl, SnapshotDescriptor, RecordType, Payload}
use tellstore.Versions.MainRecord.{main_record, base_version}
use tellstore.Versions.Table.{
  Newest, updates, main, invalid, Outcome, internal_get, internal_update,
}
use tellstore.Versions.History.{Version, content_of, below, read, write_check, newest_is}
use tellstore.Versions.Iteration.{IsChain}
use tellstore.Versions.Contents.{RecordLaws, contents, get_chain_lem, can_update_lem}
use tellstore.Versions.Laws.{main_versions, main_laws, Descending}
use tellstore.Versions.Chains.{contents_write}

-- The versions that the field `newest` stands for, none where the record is invalid.
unfoldable pub view : ℕ → List Version → Newest → Option (List Version)
unfolding contents
view base versions (updates chain) = some (contents base versions chain)
view base versions (main elements newest) =
    view (base_version elements) (main_versions elements) newest
view base versions invalid = none

-- Chains fit their base, and the versions of the main entries are in order.
unfoldable pub IsRecord : ℕ → Newest → Type 0
IsRecord base (updates chain) = IsChain base chain
IsRecord base (main elements newest) =
    Descending max_version elements × IsRecord (base_version elements) newest
IsRecord base invalid = Unit

-- The number of the snapshot is none below the base of the chain, which the code asserts.
unfoldable pub Fits : ℕ → Newest → ℕ → Type 0
Fits base (updates chain) number = (base ≤ number) × (number < max_version)
Fits base (main elements newest) number = Fits (base_version elements) newest number
Fits base invalid number = Unit

-- A write and a revert on the versions.
unfoldable pub write_versions :
    SnapshotDescriptor → RecordType → RecordType → Payload → List Version → List Version
unfolding write_check below
write_versions snapshot expected type payload vs =
    let v : Version = record { number = snapshot.version; content = content_of type payload } in
    if write_check vs snapshot expected == 0 then v ∷ below snapshot.version vs else vs

unfoldable pub revert_versions : ℕ → List Version → List Version
unfolding newest_is below
revert_versions number vs = if newest_is number vs then below number vs else vs

-- On a record whose base entry obeys the laws of `RecordImpl`, whose chain starts with no entry below its
-- base and whose main entries are in order, `internalGet` ends. It finds no result in an invalid
-- record, and else the newest version that the snapshot reads, through the links to main entries.
pub internal_get_lem :
    {R : Type 0} (impl : RecordImpl R) (r : R) (versions : List Version)
    → RecordLaws impl r versions
    → (newest : Newest) (snapshot : SnapshotDescriptor) → IsRecord (impl.base_version r) newest
    → internal_get impl r newest snapshot
      ≡ some (elim (view (impl.base_version r) versions newest) [
        | none ↦ (false, none)
        | some vs ↦ (true, some (read vs snapshot true))
      ])
unfolding internal_get view IsRecord main_record
internal_get_lem impl r versions laws (updates chain) snapshot ok =
    rw (get_chain_lem impl r versions laws chain snapshot ok) refl
internal_get_lem impl r versions laws (main elements newest) snapshot ok =
    internal_get_lem main_record elements (main_versions elements)
      (main_laws max_version elements ok.0) newest snapshot ok.1
internal_get_lem impl r versions laws invalid snapshot ok = refl

-- The outcome of a write with room in the log.
abbrev pub Written :
    SnapshotDescriptor
    → RecordType
    → RecordType
    → Payload
    → ℕ
    → List Version
    → Newest
    → Outcome
    → Type 0
Written snapshot expected type payload base versions newest (handled, ec, newest') =
    (handled ≡ elim (view base versions newest) [ none ↦ false | some vs ↦ true ])
    × (ec ≡ elim (view base versions newest) [
      | none ↦ 0
      | some vs ↦ write_check vs snapshot expected
    ])
    × (view base versions newest'
        ≡ option_map (write_versions snapshot expected type payload) (view base versions newest))
    × IsRecord base newest'

-- On a record whose base entry obeys the laws of `RecordImpl`, whose chain starts with no entry below its
-- base and whose main entries are in order, with room in the log and a snapshot that is not below the
-- base, `internalUpdate` fails if the record is invalid. Else it returns what the newest version says:
-- a conflict where the snapshot does not read it, a wrong write where it is not of the expected type,
-- and else the write becomes the newest version, before those that are older. The record stays such
-- a record.
pub internal_update_lem :
    {R : Type 0} (impl : RecordImpl R) (r : R) (versions : List Version)
    → RecordLaws impl r versions
    → (newest : Newest) (payload : Payload) (snapshot : SnapshotDescriptor)
      (expected type : RecordType)
    → IsRecord (impl.base_version r) newest
    → Fits (impl.base_version r) newest snapshot.version
    → is_revert expected ≡ false
    → is_revert type ≡ false
    → Written snapshot expected type payload
        (impl.base_version r)
        versions
        newest
        (internal_update impl r newest payload snapshot expected type true)
unfolding internal_update view IsRecord Fits write_versions main_record
internal_update_lem impl r versions laws (updates chain) payload snapshot expected type ok fits e
      t =
    let check = can_update_lem impl r versions laws chain snapshot expected ok e in
    elim (Bool-cases
      (write_check (contents (impl.base_version r) versions chain) snapshot expected == 0)) [
        | inl free ↦
            rw (check, free)
              (
                refl,
                ground (arith, free),
                ap some (
                    contents_write (impl.base_version r) versions
                      (record { version = snapshot.version; type = type; payload = payload }) chain
                      fits t),
                fits,
              )
        | inr taken ↦ rw (check, taken) (refl, refl, refl, ok)
      ]
internal_update_lem impl r versions laws (main elements newest) payload snapshot expected type ok
      fits e t =
    let inner =
      internal_update_lem main_record elements (main_versions elements)
        (main_laws max_version elements ok.0) newest payload snapshot expected type ok.1 fits e t in
    (inner.0, inner.1, inner.2, (ok.0, inner.3))
internal_update_lem impl r versions laws invalid payload snapshot expected type ok fits e t =
    (refl, refl, refl, tt)
