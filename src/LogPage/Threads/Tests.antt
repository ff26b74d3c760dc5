-- ===== src/LogPage/Threads/Tests.antt =====
-- Two threads that append to one page, interleaved.
use native.Mathlib.Omega.{arith}
use tellstore.Prelude.{ℕ, zero, suc, ◌+◌, ◌≤◌, ◌≡◌, ◌⊎◌, refl, some, List, [], ◌∷◌}
use tellstore.Align.Rounding.{rounding, round}
use tellstore.LogPage.{
  returned, Request, append_step, entry_size_from_size, entry_size, size, try_acquire, offset,
}
use tellstore.LogPage.Walk.{IsVisited}
use tellstore.LogPage.Threads.{State, initial, run_thread, Reach, here, then_step, access}
use tellstore.LogPage.Threads.Safety.{max_size, IsRequest}
use tellstore.LogPage.Threads.Race.{returned_entry, returned_disjoint}

abbrev page_size : ℕ
page_size = 0x20_0000

-- Thread 0 appends 4 bytes, thread 1 appends 20.
abbrev requests : ℕ → Request
requests zero = record { size = 4; type = 1 }
requests (suc i) = record { size = 20; type = 2 }

requests-IsRequest : (i : ℕ) → IsRequest (requests i)
requests-IsRequest zero = omega arith
requests-IsRequest (suc i) = omega arith

-- The threads whose turn it is.
run : List ℕ → State → State
run [] s = s
run (i ∷ schedule) s = run schedule (run_thread rounding page_size requests s i)

run-Reach :
    (schedule : List ℕ) (s : State)
    → Reach rounding page_size requests s
    → Reach rounding page_size requests (run schedule s)
unfolding run
run-Reach [] s r = r
run-Reach (i ∷ schedule) s r =
    run-Reach schedule (run_thread rounding page_size requests s i) (then_step r (access s i))

-- Both load the offset; thread 1 acquires the first entry, thread 0 is sent on, and publishes first.
abbrev schedule : List ℕ
schedule = 0 ∷ 1 ∷ 1 ∷ 0 ∷ 0 ∷ 0 ∷ 1 ∷ 1 ∷ []

abbrev final : State
final = run schedule initial

computes : Unit {0}
unfolding run run_thread append_step try_acquire entry_size entry_size_from_size round
computes = tt

thread_0 : final.threads 0 ≡ returned (some 32)
unfolding computes
thread_0 = refl

thread_1 : final.threads 1 ≡ returned (some 0)
unfolding computes
thread_1 = refl

returned_entry_example :
    IsVisited rounding page_size final.page 32
    × (size (final.page.entries 32) ≡ 4)
    × (32 + entry_size_from_size rounding page_size 4 ≤ offset final.page)
    × (offset final.page ≤ max_size rounding page_size)
returned_entry_example =
    returned_entry rounding page_size (omega arith) requests requests-IsRequest 0 32
      (run-Reach schedule initial here) thread_0

returned_disjoint_example :
    (32 + entry_size_from_size rounding page_size 4 ≤ 0)
    ⊎ (0 + entry_size_from_size rounding page_size 20 ≤ 32)
returned_disjoint_example =
    returned_disjoint rounding page_size (omega arith) requests requests-IsRequest 0 1 32 0
      (run-Reach schedule initial here) (omega arith) thread_0 thread_1
