-- ===== src/LogPage/Threads/Race.antt =====
-- What holds of a page and its threads in every reachable state.
use tellstore.Prelude.{
  ℕ, ◌+◌, ◌^◌, ◌≤◌, ◌≡◌, ◌≢◌, refl, none, some, update, arith, ◌⊎◌, inl, inr, update-cases, sym,
}
use tellstore.Align.{Aligner}
use tellstore.LogPage.{
  LogPage, seal_entry, seal_page, seal_at, Pc, start, trying, publishing, returned, Request,
  append_step, entry_size, entry_size_from_size, size, offset,
}
use tellstore.LogPage.Walk.{
  IsVisited, Extends, IsVisited-Extends, IsVisited-zero, visited_apart, advance-acquired,
}
use tellstore.LogPage.Threads.{
  State, initial, run_thread, Step, access, seal, seal_at_offset, seal_one, Reach, here, then_step,
}
use tellstore.LogPage.Threads.Safety.{
  IsRequest, es, max_size, IsPageSafe, IsOwned, IsPcSafe, IsPcSafe-Extends, held, Progress,
}
use tellstore.LogPage.Threads.Access.{append_step-Progress}

module _ (aligner : Aligner) (page_size : ℕ) (bound : page_size ≤ 2 ^ 30) (requests : ℕ → Request)
    (ok : (i : ℕ) → IsRequest (requests i)) where
  pub record IsSafe (s : State) : Type 0 where
    pub page_safe : IsPageSafe aligner page_size s.page
    pub pc_safe : (i : ℕ) → IsPcSafe aligner page_size s.page (requests i) (s.threads i)
    pub apart :
        (i j p q : ℕ)
        → i ≢ j
        → held aligner page_size (s.threads i) ≡ some p
        → held aligner page_size (s.threads j) ≡ some q
        → p ≢ q

  initial-IsSafe : IsSafe initial
  initial-IsSafe = record {
    page_safe = record {
      fits = λ p acq. absurd (acq refl);
      visited = IsVisited-zero aligner page_size initial.page;
      small = omega arith;
      word = λ p. omega arith;
      filled = λ p acq. absurd (acq refl);
    };
    pc_safe = λ i. tt;
    apart = λ i j p q ne hi hj e. cc;
  }

  -- The position that a safe thread holds is acquired.
  held-acquired :
      (page : LogPage) (r : Request) (pc : Pc) (p : ℕ)
      → IsPcSafe aligner page_size page r pc
      → held aligner page_size pc ≡ some p
      → (page.entries p).size_word ≢ 0
  held-acquired page r start p h e = cc
  held-acquired page r (trying q seen) p h e = cc
  held-acquired page r (publishing q end seen) p h e = ground (arith, h.0.acquired)
  held-acquired page r (returned none) p h e = cc
  held-acquired page r (returned (some q)) p h e = ground (arith, h.0.acquired)

  returned_safe :
      (page : LogPage) (r : Request) (pc : Pc) (p : ℕ)
      → IsPcSafe aligner page_size page r pc
      → pc ≡ returned (some p)
      → IsOwned aligner page_size page r p × (p + es aligner page_size r.size ≤ offset page)
  returned_safe page r pc p h e = rw e at h

  module _ (s : State) (i : ℕ) (safe : IsSafe s) where
    abbrev result : LogPage × Pc
    result = append_step aligner page_size (requests i) s.page (s.threads i)

    progress : Progress aligner page_size s.page (requests i) (s.threads i) result.0 result.1
    progress =
        append_step-Progress aligner page_size bound s.page (requests i) safe.page_safe
          (s.threads i) (ok i) (safe.pc_safe i)

    -- What the thread holds now, no other thread holds.
    apart_new :
        (j p q : ℕ)
        → j ≢ i
        → held aligner page_size result.1 ≡ some p
        → held aligner page_size (s.threads j) ≡ some q
        → p ≢ q
    apart_new j p q ne hi hj e = elim (progress.fresh p hi) [
      | inl old ↦ safe.apart i j p q (λ x. ne (ground arith)) old hj e
      | inr free ↦
          held-acquired s.page (requests j) (s.threads j) q (safe.pc_safe j) hj (ground arith)
    ]

    others_safe :
        (j : ℕ) → IsPcSafe aligner page_size result.0 (requests j) (update s.threads i result.1 j)
    others_safe j = elim (update-cases s.threads i result.1 j) [
      | inl (e, now) ↦ rw (now, e) progress.pc_safe
      | inr (ne, same) ↦ rw same (
          IsPcSafe-Extends aligner page_size s.page result.0 (requests j) (s.threads j)
            progress.extends progress.grows (safe.pc_safe j))
    ]

    apart_after :
        (j k p q : ℕ)
        → j ≢ k
        → held aligner page_size (update s.threads i result.1 j) ≡ some p
        → held aligner page_size (update s.threads i result.1 k) ≡ some q
        → p ≢ q
    apart_after j k p q ne hj hk e = elim (update-cases s.threads i result.1 j) [
      | inl (ej, now) ↦ elim (update-cases s.threads i result.1 k) [
        | inl (ek, _) ↦ ne (ground arith)
        | inr (nk, same) ↦ apart_new k p q nk (rw now at hj) (rw same at hk) e
      ]
      | inr (nj, same) ↦ elim (update-cases s.threads i result.1 k) [
        | inl (ek, now) ↦ apart_new j q p nj (rw now at hk) (rw same at hj) (sym e)
        | inr (nk, same') ↦ safe.apart j k p q ne (rw same at hj) (rw same' at hk) e
      ]
    ]

    access-IsSafe : IsSafe (run_thread aligner page_size requests s i)
    unfolding run_thread
    access-IsSafe = record {
      page_safe = progress.page_safe;
      pc_safe = others_safe;
      apart = apart_after;
    }

  -- A page on which every entry keeps its size and the offset stays.
  same_sizes :
      (s : State) (page : LogPage)
      → IsSafe s
      → offset page ≡ offset s.page
      → ((p : ℕ)
          → ((page.entries p).size_word ≤ (s.page.entries p).size_word)
            × (size (page.entries p) ≡ size (s.page.entries p)))
      → ((p : ℕ) → (s.page.entries p).size_word ≢ 0 → (page.entries p).size_word ≢ 0)
      → IsSafe (record s { page = page })
  unfolding entry_size
  same_sizes s page safe same sizes kept =
      let ext : Extends aligner page_size s.page page = λ p acq. (kept p acq, (sizes p).1) in
      record {
        page_safe = record {
          fits = λ p acq. ground (arith, sizes p, safe.page_safe.fits p);
          visited = rw same (
              IsVisited-Extends aligner page_size s.page page (offset s.page) ext
                safe.page_safe.visited);
          small = rw same safe.page_safe.small;
          word = λ p. omega (arith, sizes p, safe.page_safe.word p);
          filled = λ p acq. ground (arith, sizes p, safe.page_safe.filled p);
        };
        pc_safe = λ i.
            IsPcSafe-Extends aligner page_size s.page page (requests i) (s.threads i) ext
              (omega arith) (safe.pc_safe i);
        apart = safe.apart;
      }

  seal-IsSafe : (s : State) → IsSafe s → IsSafe (record s { page = seal_page s.page })
  unfolding seal_page
  seal-IsSafe s safe =
      same_sizes s (seal_page s.page) safe (omega arith) (λ p. (omega arith, refl)) (λ p acq. acq)

  seal_at-IsSafe :
      (s : State) (o : ℕ) → IsSafe s → IsSafe (record s { page = (seal_at s.page o).1 })
  unfolding seal_at
  seal_at-IsSafe s o safe =
      same_sizes s (seal_at s.page o).1 safe (ground arith) (λ p. ground arith)
        (λ p acq. ground arith)

  seal_one-IsSafe :
      (s : State) (p : ℕ)
      → IsSafe s
      → IsSafe (record s {
        page = record (s.page) {
          entries = update s.page.entries p (seal_entry (s.page.entries p));
        };
      })
  unfolding seal_entry
  seal_one-IsSafe s p safe =
      same_sizes s
        (record (s.page) { entries = update s.page.entries p (seal_entry (s.page.entries p)) }) safe
        refl (λ q. ground arith) (λ q acq. ground (arith, safe.page_safe.filled q))

  Step-IsSafe : {s t : State} → IsSafe s → Step aligner page_size requests s t → IsSafe t
  Step-IsSafe safe (access s i) = access-IsSafe s i safe
  Step-IsSafe safe (seal s) = seal-IsSafe s safe
  Step-IsSafe safe (seal_at_offset s o) = seal_at-IsSafe s o safe
  Step-IsSafe safe (seal_one s p) = seal_one-IsSafe s p safe

  pub Reach-IsSafe : {s : State} → Reach aligner page_size requests s → IsSafe s
  Reach-IsSafe here = initial-IsSafe
  Reach-IsSafe (then_step r st) = Step-IsSafe (Reach-IsSafe r) st

  -- On a page of at most 2^30 bytes, with requests of at least one and fewer than 2^31 bytes, in every
  -- reachable state what an append has returned is acquired with the size asked for, lies on the page
  -- and before its offset, and is visited by an iteration from the page's start.
  pub returned_entry :
      {s : State} (i p : ℕ)
      → Reach aligner page_size requests s
      → s.threads i ≡ returned (some p)
      → IsVisited aligner page_size s.page p
        × (size (s.page.entries p) ≡ (requests i).size)
        × (p + entry_size_from_size aligner page_size (requests i).size ≤ offset s.page)
        × (offset s.page ≤ max_size aligner page_size)
  returned_entry {s} i p r e =
      let safe = Reach-IsSafe r in
      let (owned, before) = returned_safe s.page (requests i) (s.threads i) p (safe.pc_safe i) e in
      (owned.visited, owned.sized, before, safe.page_safe.small)

  -- On a page of at most 2^30 bytes, with requests of at least one and fewer than 2^31 bytes, in every
  -- reachable state the entries that two threads got from their appends do not overlap.
  pub returned_disjoint :
      {s : State} (i j p q : ℕ)
      → Reach aligner page_size requests s
      → i ≢ j
      → s.threads i ≡ returned (some p)
      → s.threads j ≡ returned (some q)
      → (p + entry_size_from_size aligner page_size (requests i).size ≤ q)
        ⊎ (q + entry_size_from_size aligner page_size (requests j).size ≤ p)
  unfolding entry_size
  returned_disjoint {s} i j p q r ne ei ej =
      let safe = Reach-IsSafe r in
      let (a, _) = returned_safe s.page (requests i) (s.threads i) p (safe.pc_safe i) ei in
      let (b, _) = returned_safe s.page (requests j) (s.threads j) q (safe.pc_safe j) ej in
      ground (
        arith,
        safe.apart i j p q ne,
        a.sized,
        b.sized,
        advance-acquired aligner page_size s.page p a.acquired,
        advance-acquired aligner page_size s.page q b.acquired,
        visited_apart aligner page_size s.page p q a.visited b.visited,
      )
