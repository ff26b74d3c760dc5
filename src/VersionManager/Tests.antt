-- ===== src/VersionManager/Tests.antt =====
-- Two threads that add the snapshots of versions 4 and 7.
use tellstore.Prelude.{ℕ, ◌≤◌, ◌≡◌, ◌==◌, if◌then◌else◌}
use tellstore.VersionManager.{
  VersionManager, new_manager, run_thread, none_more, then_thread, added,
  lowest_active_version-Steps,
}

abbrev versions : ℕ → ℕ
versions i = if i == 0 then 4 else 7

abbrev loaded : VersionManager
unfolding run_thread
loaded = run_thread versions (run_thread versions new_manager 0) 1

abbrev raised : VersionManager
unfolding run_thread
raised = run_thread versions (run_thread versions (run_thread versions loaded 0) 1) 1

lowest_active_version-Steps_example :
    (loaded.lowest_active_version ≤ raised.lowest_active_version)
    × ((i : ℕ) → raised.threads i ≡ added → versions i ≤ raised.lowest_active_version)
unfolding loaded raised
lowest_active_version-Steps_example =
    lowest_active_version-Steps versions loaded raised
      (then_thread 1 (then_thread 0 (none_more new_manager)))
      (then_thread 1 (then_thread 1 (then_thread 0 (none_more loaded))))
