-- ===== src/Versions/CollectLaws.antt =====
-- A main entry respects the laws of `collect`; an insert entry does not look at its own version there.
use tellstore.Prelude.{ℕ, ◌≡◌, refl, List, [], ◌∷◌, ltb, Bool-cases, inl, inr, ap, le→leb}
use tellstore.Versions.{RecordHolder}
use tellstore.Versions.MainRecord
use tellstore.Versions.MainRecord.{is_empty, collect_from, main_record, skip_overwritten}
use tellstore.Versions.Iteration.{lt→leb}
use tellstore.Versions.Laws.{main_version, main_versions, Descending, skip-below}
use tellstore.Versions.Trimming.{trim}
use tellstore.Versions.Collected.{CollectLaws}

collect_from-trim :
    (min_version : ℕ) (elements : List RecordHolder)
    → main_versions (collect_from min_version elements) ≡ trim min_version (main_versions elements)
unfolding collect_from trim main_versions
collect_from-trim min_version [] = refl
collect_from-trim min_version (e ∷ rest) = elim (Bool-cases (ltb min_version e.version)) [
  | inl newer ↦ rw newer (ap (λ l. main_version e ∷ l) (collect_from-trim min_version rest))
  | inr old ↦ rw old refl
]

pub main-CollectLaws :
    (bound : ℕ) (elements : List RecordHolder)
    → Descending bound elements
    → CollectLaws main_record elements (main_versions elements)
unfolding main_record MainRecord.collect
main-CollectLaws bound elements d = record {
  nothing = λ min_version highest h. rw (le→leb highest min_version h) refl;
  trimmed = λ min_version highest h.
      rw (lt→leb highest min_version h, skip-below bound highest elements d)
        (collect_from-trim min_version (skip_overwritten highest elements));
}
