-- ===== src/Versions/RevertResults.antt =====
-- The Boolean that `internalRevert` of deltamain/Table returns, which its callers read as whether the
-- record is valid.
use tellstore.Prelude.{
  ℕ, suc, ◌≤◌, ◌<◌, ◌≡◌, refl, Bool, true, false, not, ◌||◌, List, [], ◌∷◌, ◌++◌, arith, ltb, leb,
  Bool-cases, ◌⊎◌, inl, inr, length, ◌==◌, sym, Option, none, some,
}
use tellstore.Versions.{
  RecordHolder, UpdateLogEntry, UpdateRecordIterator, iterate, max_version, RecordImpl,
  SnapshotDescriptor, out_of_memory,
}
use tellstore.Versions.InsertRecord
use tellstore.Versions.InsertRecord.{insert_record}
use tellstore.Versions.MainRecord
use tellstore.Versions.MainRecord.{
  main_record, base_version, skip_overwritten, search_history, can_revert_from,
}
use tellstore.Versions.Table.{
  Newest, updates, main, invalid, Outcome, RevertCheck, write, return, check_revert_at,
  check_revert, internal_revert,
}
use tellstore.Versions.History.{Version, live, lowest, below}
use tellstore.Versions.Iteration.{IsChain, Shows, iterate-Shows}
use tellstore.Versions.Contents.{contents}
use tellstore.Versions.Laws.{inserted_version, main_versions, Descending, skip-below}
use tellstore.Versions.Refinement.{view, IsRecord}
use tellstore.Versions.Reverts.{search-ends}
use tellstore.Versions.Collection.{revert_entry}

-- One of the versions has the number.
unfoldable pub has_number : ℕ → List Version → Bool
has_number number [] = false
has_number number (v ∷ rest) = v.number == number || has_number number rest

abbrev has_any : List Version → Bool
has_any [] = false
has_any (v ∷ rest) = true

-- `canRevert` of a base entry asks for a revert or returns an error code exactly if one of the
-- versions that it sees has the number of the snapshot.
abbrev pub RevertLaw : {R : Type 0} → RecordImpl R → R → List Version → Type 0
RevertLaw impl r versions =
    (low : ℕ) (snapshot : SnapshotDescriptor)
    → ((impl.can_revert r low snapshot).1 || not ((impl.can_revert r low snapshot).0 == 0))
      ≡ has_number snapshot.version (below low versions)

pub insert-RevertLaw : (e : RecordHolder) → RevertLaw insert_record e (inserted_version e ∷ [])
unfolding insert_record InsertRecord.can_revert has_number below
insert-RevertLaw e low snapshot = ground arith

Descending-weaken :
    (a b : ℕ) (elements : List RecordHolder) → Descending a elements → a ≤ b → Descending b elements
Descending-weaken a b [] d h = tt
Descending-weaken a b (e ∷ rest) d h = (omega (arith, d.0), d.1)

Descending-skip :
    (bound low : ℕ) (elements : List RecordHolder)
    → Descending bound elements
    → Descending bound (skip_overwritten low elements)
unfolding skip_overwritten
Descending-skip bound low [] d = tt
Descending-skip bound low (e ∷ rest) d = elim (Bool-cases (leb low e.version)) [
  | inl skip ↦ rw skip (
      Descending-weaken e.version bound (skip_overwritten low rest)
        (Descending-skip e.version low rest d.1) (omega (arith, d.0)))
  | inr keep ↦ rw keep d
]

has_number-Descending :
    (bound number : ℕ) (elements : List RecordHolder)
    → Descending bound elements
    → bound ≤ number
    → has_number number (main_versions elements) ≡ false
unfolding has_number main_versions
has_number-Descending bound number [] d h = refl
has_number-Descending bound number (e ∷ rest) d h =
    ground (arith, has_number-Descending e.version number rest d.1)

search_history-has_number :
    (bound number : ℕ) (elements : List RecordHolder)
    → Descending bound elements
    → not (search_history number elements == 0) ≡ has_number number (main_versions elements)
unfolding search_history has_number main_versions
search_history-has_number bound number [] d = refl
search_history-has_number bound number (e ∷ rest) d = ground (
  arith,
  search_history-has_number e.version number rest d.1,
  has_number-Descending e.version number rest d.1,
)

can_revert_from-has_number :
    (bound : ℕ) (elements : List RecordHolder) (snapshot : SnapshotDescriptor)
    → Descending bound elements
    → ((can_revert_from elements snapshot).1 || not ((can_revert_from elements snapshot).0 == 0))
      ≡ has_number snapshot.version (main_versions elements)
unfolding can_revert_from has_number main_versions
can_revert_from-has_number bound [] snapshot d = refl
can_revert_from-has_number bound (e ∷ rest) snapshot d = ground (
  arith,
  search_history-has_number bound snapshot.version (e ∷ rest) d,
  has_number-Descending e.version snapshot.version rest d.1,
)

main-RevertLaw :
    (bound : ℕ) (elements : List RecordHolder)
    → Descending bound elements
    → RevertLaw main_record elements (main_versions elements)
unfolding main_record MainRecord.can_revert
main-RevertLaw bound elements d low snapshot = rw (skip-below bound low elements d) (
    can_revert_from-has_number bound (skip_overwritten low elements) snapshot
      (Descending-skip bound low elements d))

module _ {R : Type 0} (impl : RecordImpl R) (r : R) (versions : List Version)
    (law : RevertLaw impl r versions) where
  abbrev bottom : ℕ
  bottom = impl.base_version r

  -- The check asks for the write or returns true where the answer is to be yes, else false and 0.
  abbrev Answers : Option RevertCheck → Bool → Type 0
  Answers check yes_ =
      ((yes_ ≡ true) × ((check ≡ some write) ⊎ ((ec : ℕ) × (check ≡ some (return true ec)))))
      ⊎ ((yes_ ≡ false) × (check ≡ some (return false 0)))

  check_revert-Answers :
      (n : ℕ) (it : UpdateRecordIterator) (vs : List Version) (low : ℕ)
      → Shows bottom it vs low n
      → (fuel : ℕ) (snapshot : SnapshotDescriptor) → n < fuel
      → Answers
          (check_revert_at impl r it fuel snapshot)
          (has_any vs || has_number snapshot.version (vs ++ below low versions))
  unfolding check_revert_at
  check_revert-Answers n it vs low (inl (done, empty)) fuel snapshot h =
      rw (done, empty, sym (law low snapshot))
        (elim (Bool-cases (impl.can_revert r low snapshot).1) [
          | inl needed ↦ rw needed (inl (refl, inl refl))
          | inr unneeded ↦ elim (Bool-cases ((impl.can_revert r low snapshot).0 == 0)) [
            | inl fine ↦ rw (unneeded, fine) (inr (refl, ground arith))
            | inr failed ↦
                rw (unneeded, failed) (inl (refl, inr ((impl.can_revert r low snapshot).0, refl)))
          ]
        ])
  check_revert-Answers n it vs low (inr (e, previous, (on, kept, in_, all, bound, fewer))) fuel
        snapshot h =
      let (ec, search) =
        search-ends impl r fuel n (record { current = e ∷ previous; lowest_version = e.version }) vs
          low (inr (e, previous, (refl, kept, in_, all, bound, fewer))) h snapshot.version in
      elim (Bool-cases (ltb e.version snapshot.version)) [
        | inl older ↦ rw (on, all, older) (inl (refl, inr (0, refl)))
        | inr not_older ↦ elim (Bool-cases (ltb snapshot.version e.version)) [
          | inl newer ↦ rw (on, all, not_older, newer, search) (inl (refl, inr (ec, refl)))
          | inr same ↦ rw (on, all, not_older, same) (inl (refl, inl refl))
        ]
      ]

  check_revert_answer :
      (chain : List UpdateLogEntry) (snapshot : SnapshotDescriptor)
      → IsChain bottom chain
      → Answers (check_revert impl r chain snapshot) (
          has_any (live bottom max_version chain)
          || has_number snapshot.version (contents bottom versions chain))
  unfolding check_revert contents
  check_revert_answer chain snapshot ok =
      check_revert-Answers (length chain) (iterate bottom chain) (live bottom max_version chain)
        (lowest bottom max_version chain) (iterate-Shows bottom chain ok) (suc (length chain))
        snapshot (omega arith)

-- A live update, one that is not reverted, is in the chain that the field `newest` leads to.
unfoldable pub has_updates : ℕ → Newest → Bool
has_updates base (updates chain) = has_any (live base max_version chain)
has_updates base (main elements newest) = has_updates (base_version elements) newest
has_updates base invalid = false

-- One of the versions of the record has the number.
unfoldable pub has_version : ℕ → ℕ → List Version → Newest → Bool
unfolding has_number view
has_version number base versions newest = elim (view base versions newest) [
  | none ↦ false
  | some vs ↦ has_number number vs
]

-- The operation ends: it returns true where the answer is to be yes, and else false and the code 0, and
-- changes nothing.
abbrev pub Returned : Bool → Newest → Option Outcome → Type 0
Returned answer newest result =
    ((answer ≡ true) × (ec : ℕ) × (newest' : Newest) × (result ≡ some (true, ec, newest')))
    ⊎ ((answer ≡ false) × (result ≡ some (false, 0, newest)))

-- On a record whose base entry obeys `RevertLaw`, whose chain starts with no entry below its base and
-- whose main entries are in order, with or without room in the log, `internalRevert` ends. It returns
-- true exactly if the chain has a live update or a version of the record has the number of the
-- snapshot. Else it returns false and the error code 0 and changes nothing, as for an invalid record,
-- also if the record is valid.
pub internal_revert_answer :
    {R : Type 0} (impl : RecordImpl R) (r : R) (versions : List Version)
    → RevertLaw impl r versions
    → (newest : Newest) (snapshot : SnapshotDescriptor) (room : Bool)
    → IsRecord (impl.base_version r) newest
    → Returned
        (has_updates (impl.base_version r) newest
          || has_version snapshot.version (impl.base_version r) versions newest)
        newest
        (internal_revert impl r newest snapshot room)
unfolding internal_revert IsRecord has_updates has_version view main_record
internal_revert_answer impl r versions law (updates chain) snapshot room ok =
    elim (check_revert_answer impl r versions law chain snapshot ok) [
      | inl (answer, inl check) ↦ elim (Bool-cases room) [
        | inl free ↦
            rw (check, free)
              (inl (answer, 0, updates (revert_entry snapshot.version ∷ chain), refl))
        | inr full ↦ rw (check, full) (inl (answer, out_of_memory, updates chain, refl))
      ]
      | inl (answer, inr (ec, check)) ↦ rw check (inl (answer, ec, updates chain, refl))
      | inr (answer, check) ↦ rw check (inr (answer, refl))
    ]
internal_revert_answer impl r versions law (main elements newest) snapshot room ok =
    elim (internal_revert_answer main_record elements (main_versions elements)
      (main-RevertLaw max_version elements ok.0) newest snapshot room ok.1) [
        | inl (answer, ec, newest', run) ↦ rw run (inl (answer, ec, main elements newest', refl))
        | inr (answer, run) ↦ rw run (inr (answer, refl))
      ]
internal_revert_answer impl r versions law invalid snapshot room ok = inr (refl, refl)
