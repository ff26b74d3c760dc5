-- ===== src/Versions/Trimming.antt =====
-- The versions that a garbage collection keeps, and what a snapshot reads of them.
use tellstore.Prelude.{
  ℕ, ◌≤◌, ◌≡◌, refl, Bool, true, false, List, [], ◌∷◌, ◌++◌, arith, ltb, if◌then◌else◌, Bool-cases,
  ◌⊎◌, inl, inr, ap, ◌∙◌, none, ◌≢◌,
}
use tellstore.Versions.{SnapshotDescriptor, RecordHolder, Payload}
use tellstore.Versions.Table.{drop_delete}
use tellstore.Versions.History.{Version, read}
use tellstore.Versions.Laws.{main_versions}

-- Up to the newest version that is not above the bound.
unfoldable pub trim : ℕ → List Version → List Version
trim bound [] = []
trim bound (v ∷ rest) =
    let older = trim bound rest in if ltb bound v.number then v ∷ older else v ∷ []

-- Whether some version is not above the bound.
unfoldable pub has_old : ℕ → List Version → Bool
has_old bound [] = false
has_old bound (v ∷ rest) = if ltb bound v.number then has_old bound rest else true

pub trim-append :
    (bound : ℕ) (vs ws : List Version)
    → trim bound (vs ++ ws)
      ≡ (if has_old bound vs then trim bound vs else trim bound vs ++ trim bound ws)
unfolding trim has_old
trim-append bound [] ws = refl
trim-append bound (v ∷ vs) ws = elim (Bool-cases (ltb bound v.number)) [
  | inl newer ↦ elim (Bool-cases (has_old bound vs)) [
    | inl old ↦ rw (newer, old) (ap (λ x. v ∷ x) (trim-append bound vs ws ∙ rw old refl))
    | inr none_ ↦ rw (newer, none_) (ap (λ x. v ∷ x) (trim-append bound vs ws ∙ rw none_ refl))
  ]
  | inr old ↦ rw old refl
]

-- The snapshot reads every version that is not above the bound.
abbrev pub ReadsOld : ℕ → SnapshotDescriptor → Type 0
ReadsOld bound snapshot = (n : ℕ) → n ≤ bound → snapshot.in_read_set n ≡ true

pub read-trim :
    (bound : ℕ) (vs : List Version) (snapshot : SnapshotDescriptor) (is_newest : Bool)
    → ReadsOld bound snapshot
    → read (trim bound vs) snapshot is_newest ≡ read vs snapshot is_newest
unfolding read trim
read-trim bound [] snapshot is_newest reads = refl
read-trim bound (v ∷ rest) snapshot is_newest reads = elim (Bool-cases (ltb bound v.number)) [
  | inl newer ↦ elim (Bool-cases (snapshot.in_read_set v.number)) [
    | inl visible ↦ rw (newer, visible) refl
    | inr invisible ↦ rw (newer, invisible) (read-trim bound rest snapshot false reads)
  ]
  | inr old ↦ rw (old, reads v.number (ground arith)) refl
]

-- The oldest version, if there is one, is no deletion.
unfoldable pub OldestIsData : List Version → Type 0
OldestIsData [] = Unit
OldestIsData (v ∷ []) = v.content ≢ none
OldestIsData (v ∷ w ∷ rest) = OldestIsData (w ∷ rest)

-- The last version is none that a lookup of the snapshot may skip: it is read, or it is no deletion.
unfoldable pub LastCounts : SnapshotDescriptor → List Version → Type 0
LastCounts snapshot [] = Unit
LastCounts snapshot (v ∷ []) = (v.content ≢ none) ⊎ (snapshot.in_read_set v.number ≡ true)
LastCounts snapshot (v ∷ w ∷ rest) = LastCounts snapshot (w ∷ rest)

pub trim-LastCounts :
    (bound : ℕ) (vs : List Version) (snapshot : SnapshotDescriptor)
    → ReadsOld bound snapshot
    → OldestIsData vs
    → LastCounts snapshot (trim bound vs)
unfolding trim OldestIsData LastCounts
trim-LastCounts bound [] snapshot reads oldest = tt
trim-LastCounts bound (v ∷ []) snapshot reads oldest = elim (Bool-cases (ltb bound v.number)) [
  | inl newer ↦ rw newer (inl oldest)
  | inr old ↦ rw old (inr (reads v.number (ground arith)))
]
trim-LastCounts bound (v ∷ w ∷ rest) snapshot reads oldest =
    let rec = trim-LastCounts bound (w ∷ rest) snapshot reads oldest in
    elim (Bool-cases (ltb bound v.number)) [
      | inl newer ↦ elim (Bool-cases (ltb bound w.number)) [
        | inl newer' ↦ rw (newer, newer') (rw newer' at rec)
        | inr old' ↦ rw (newer, old') (inr (reads w.number (ground arith)))
      ]
      | inr old ↦ rw old (inr (reads v.number (ground arith)))
    ]

drop_one :
    (version : ℕ) (payload : Payload) (snapshot : SnapshotDescriptor) (is_newest : Bool)
    → LastCounts snapshot (main_versions ((record { version = version; payload = payload }) ∷ []))
    → read
        (main_versions (drop_delete ((record { version = version; payload = payload }) ∷ [])))
        snapshot
        is_newest
      ≡ read
          (main_versions ((record { version = version; payload = payload }) ∷ []))
          snapshot
          is_newest
unfolding read drop_delete main_versions LastCounts
drop_one version [] snapshot is_newest (inl data_) = absurd (data_ refl)
drop_one version [] snapshot is_newest (inr visible) = rw visible refl
drop_one version (x ∷ payload) snapshot is_newest last = refl

-- A deletion at the end may go.
pub read-drop_delete :
    (elements : List RecordHolder) (snapshot : SnapshotDescriptor) (is_newest : Bool)
    → LastCounts snapshot (main_versions elements)
    → read (main_versions (drop_delete elements)) snapshot is_newest
      ≡ read (main_versions elements) snapshot is_newest
unfolding read drop_delete main_versions LastCounts
read-drop_delete [] snapshot is_newest last = refl
read-drop_delete (e ∷ []) snapshot is_newest last =
    drop_one e.version e.payload snapshot is_newest last
read-drop_delete (e ∷ e' ∷ rest) snapshot is_newest last =
    elim (Bool-cases (snapshot.in_read_set e.version)) [
      | inl visible ↦ rw visible refl
      | inr invisible ↦ rw invisible (read-drop_delete (e' ∷ rest) snapshot false last)
    ]
