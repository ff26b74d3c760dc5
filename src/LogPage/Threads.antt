-- ===== src/LogPage/Threads.antt =====
-- Any number of threads that append to one page, and what the others may do to it meanwhile.
pub mod Safety
pub mod Access
pub mod Race
mod Tests
use tellstore.Prelude.{
  ℕ, zero, suc, ◌+◌, ◌-◌, ◌*◌, ◌/◌, ◌%◌, ◌^◌, ◌≤◌, ◌<◌, ◌≡◌, ◌≢◌, refl, Bool, true, false, Option,
  none, some, ◌==◌, if◌then◌else◌, update, arith,
}
use tellstore.Align.{Aligner}
use tellstore.LogPage.{
  LogEntry, LogPage, new_page, seal_entry, seal_page, seal_at, Pc, start, Request, append_step,
}

pub record State : Type 0 where
  pub page : LogPage
  pub threads : ℕ → Pc

abbrev pub initial : State
initial = record { page = new_page; threads = λ i. start }

module _ (aligner : Aligner) (page_size : ℕ) (requests : ℕ → Request) where
  -- Thread `i` makes its next access.
  unfoldable pub run_thread : State → ℕ → State
  run_thread s i =
      let (page, pc) = append_step aligner page_size (requests i) s.page (s.threads i) in
      record { page = page; threads = update s.threads i pc }

  pub data Step : State → State → Type 0 where
    access : (s : State) (i : ℕ) → Step s (run_thread s i)
    seal : (s : State) → Step s (record s { page = seal_page s.page })
    seal_at_offset : (s : State) (o : ℕ) → Step s (record s { page = (seal_at s.page o).1 })
    seal_one :
        (s : State) (p : ℕ)
        → Step s (record s {
          page = record (s.page) {
            entries = update s.page.entries p (seal_entry (s.page.entries p));
          };
        })

  pub data Reach : State → Type 0 where
    here : Reach initial
    then_step : {s t : State} → Reach s → Step s t → Reach t
