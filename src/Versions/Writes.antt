-- ===== src/Versions/Writes.antt =====
-- A write to a record, followed by a lookup or by its revert.
use tellstore.Prelude.{
  ℕ, ◌≡◌, refl, Bool, true, false, List, arith, Bool-cases, inl, inr, ap, ◌==◌, sym, ◌∙◌, Option,
  none, some, ==_refl, le→ltb,
}
use tellstore.Versions.{
  is_revert, RecordImpl, SnapshotDescriptor, Lookup, RecordType, data_type, delete_type,
  revert_type, Payload, found, failed, not_found,
}
use tellstore.Versions.MainRecord.{main_record, base_version}
use tellstore.Versions.Table.{
  Newest, updates, main, invalid, Outcome, can_update, internal_get, internal_update,
  internal_revert,
}
use tellstore.Versions.History.{Version, content_of, below, read, write_check, newest_is}
use tellstore.Versions.Contents.{RecordLaws}
use tellstore.Versions.Chains.{AllBelow, below-all}
use tellstore.Versions.Refinement.{
  view, IsRecord, Fits, write_versions, revert_versions, internal_get_lem, internal_update_lem,
}
use tellstore.Versions.Reverts.{internal_revert_lem}

revert_write :
    (snapshot : SnapshotDescriptor) (expected type : RecordType) (payload : Payload)
    (vs : List Version)
    → AllBelow snapshot.version vs
    → write_check vs snapshot expected ≡ 0
    → revert_versions snapshot.version (write_versions snapshot expected type payload vs) ≡ vs
unfolding revert_versions write_versions newest_is below
revert_write snapshot expected type payload vs all free =
    rw
      (
        free,
        ==_refl snapshot.version,
        le→ltb snapshot.version snapshot.version (omega arith),
        below-all snapshot.version vs all,
        below-all snapshot.version vs all,
      )
      refl

-- A write leaves the base of the chain.
Fits-update :
    {R : Type 0} (impl : RecordImpl R) (r : R) (base : ℕ)
    → (newest : Newest) (payload : Payload) (snapshot : SnapshotDescriptor)
      (expected type : RecordType)
    → Fits base newest snapshot.version
    → Fits base
        (internal_update impl r newest payload snapshot expected type true).2
        snapshot.version
unfolding internal_update Fits
Fits-update impl r base (updates chain) payload snapshot expected type fits =
    elim (Bool-cases (can_update impl r chain snapshot expected == 0)) [
      | inl free ↦ rw free fits
      | inr taken ↦ rw taken fits
    ]
Fits-update impl r base (main elements newest) payload snapshot expected type fits =
    Fits-update main_record elements (base_version elements) newest payload snapshot expected type
      fits
Fits-update impl r base invalid payload snapshot expected type fits = tt

-- The write succeeded, and its revert ends with a record that all snapshots read as before.
abbrev pub Undone : {R : Type 0} → RecordImpl R → R → Newest → SnapshotDescriptor → Outcome → Type 0
Undone impl r newest snapshot (done, ec, written) =
    (done ≡ true)
    × (ec ≡ 0)
    × ((handled : Bool) × (ec' : ℕ) × (reverted : Newest) × ((internal_revert impl r written
              snapshot true
            ≡ some (handled, ec', reverted))
          × ((reader : SnapshotDescriptor)
              → internal_get impl r reverted reader ≡ internal_get impl r newest reader)))

-- On a record whose base entry obeys the laws of `RecordImpl` and whose chain fits its base, a transaction that is younger than all its versions, whose snapshot is not below
-- the base, and that may write it succeeds with room in the log; and if it reverts its write, then
-- every lookup finds what it found before.
pub revert-update :
    {R : Type 0} (impl : RecordImpl R) (r : R) (versions : List Version)
    → RecordLaws impl r versions
    → (newest : Newest) (vs : List Version) (payload : Payload) (snapshot : SnapshotDescriptor)
    → (expected type : RecordType) → IsRecord (impl.base_version r) newest
    → Fits (impl.base_version r) newest snapshot.version
    → is_revert expected ≡ false
    → is_revert type ≡ false
    → view (impl.base_version r) versions newest ≡ some vs
    → AllBelow snapshot.version vs
    → write_check vs snapshot expected ≡ 0
    → Undone impl r newest snapshot
        (internal_update impl r newest payload snapshot expected type true)
revert-update impl r versions laws newest vs payload snapshot expected type ok fits e t at old
      free =
    let (handled, ec, view', ok') =
      internal_update_lem impl r versions laws newest payload snapshot expected type ok fits e t in
    let written = (internal_update impl r newest payload snapshot expected type true).2 in
    let (handled', ec', reverted, (run, view'', ok'')) =
      internal_revert_lem impl r versions laws written snapshot ok'
        (Fits-update impl r (impl.base_version r) newest payload snapshot expected type fits) in
    let same : view (impl.base_version r) versions reverted
        ≡ view (impl.base_version r) versions newest =
      rw (view'', view', at, revert_write snapshot expected type payload vs old free) refl in
    (
      handled ∙ ap (λ o. elim o [ none ↦ false | some ws ↦ true ]) at,
      ec ∙ (ap (λ o. elim o [ none ↦ 0 | some ws ↦ write_check ws snapshot expected ]) at ∙ free),
      (
        handled',
        ec',
        reverted,
        (
          run,
          λ reader.
              internal_get_lem impl r versions laws reverted reader ok''
              ∙ (ap
                    (λ (o : Option (List Version)). some (elim o [
                      | none ↦ (false, none)
                      | some ws ↦ (true, some (read ws reader true))
                    ]))
                    same
                  ∙ sym (internal_get_lem impl r versions laws newest reader ok)),
        ),
      ),
    )

-- The lookup of the writer.
abbrev pub own_write : RecordType → ℕ → Payload → Lookup
own_write delete_type number payload = failed not_found
own_write _ number payload = found number true payload

own_content :
    (type : RecordType) (payload : Payload) (number : ℕ)
    → elim (content_of type payload) [ none ↦ failed not_found | some p ↦ found number true p ]
      ≡ own_write type number payload
own_content data_type payload number = refl
own_content delete_type payload number = refl
own_content revert_type payload number = refl

-- On a record whose base entry obeys the laws of `RecordImpl` and whose chain fits its base, a transaction that may write it, and whose snapshot reads its own version, finds what
-- it wrote, or nothing after a deletion.
pub get-update :
    {R : Type 0} (impl : RecordImpl R) (r : R) (versions : List Version)
    → RecordLaws impl r versions
    → (newest : Newest) (vs : List Version) (payload : Payload) (snapshot : SnapshotDescriptor)
    → (expected type : RecordType) → IsRecord (impl.base_version r) newest
    → Fits (impl.base_version r) newest snapshot.version
    → is_revert expected ≡ false
    → is_revert type ≡ false
    → view (impl.base_version r) versions newest ≡ some vs
    → snapshot.in_read_set snapshot.version ≡ true
    → write_check vs snapshot expected ≡ 0
    → internal_get impl r
        (internal_update impl r newest payload snapshot expected type true).2
        snapshot
      ≡ some (true, some (own_write type snapshot.version payload))
unfolding read write_versions
get-update impl r versions laws newest vs payload snapshot expected type ok fits e t at own free =
    let (handled, ec, view', ok') =
      internal_update_lem impl r versions laws newest payload snapshot expected type ok fits e t in
    internal_get_lem impl r versions laws
      (internal_update impl r newest payload snapshot expected type true).2 snapshot ok'
    ∙ rw (view', at, free, own)
        (ap (λ x. some (true, some x)) (own_content type payload snapshot.version))
