-- ===== src/LogPage/Threads/Access.antt =====
-- Each access of an appending thread keeps the invariant.
use mathlib.Core.Path.{subst}
use tellstore.Prelude.{
  sym, ◌∙◌, ℕ, ◌+◌, ◌*◌, ◌/◌, ◌%◌, ◌^◌, ◌≤◌, ◌<◌, ◌≡◌, ◌≢◌, refl, none, some, ◌==◌, update, arith,
  Bool-cases, inl, inr, ltb, leb, ==_ne, not_ltb,
}
use tellstore.Align.{Aligner}
use tellstore.LogPage.{
  LogPage, Pc, start, trying, publishing, returned, Request, append_step, is_sealed, entry_size,
  size, offset, try_acquire, load_offset, try_position, publish, end_position,
}
use tellstore.LogPage.Walk.{
  IsVisited, Extends, IsVisited-Extends, IsVisited-advance, advance, advance-acquired,
  entry_size_bounds,
}
use tellstore.LogPage.Threads.Safety.{IsRequest, es, max_size, IsPageSafe, IsPcSafe, Progress, stay}

module _ (aligner : Aligner) (page_size : ℕ) (bound : page_size ≤ 2 ^ 30) (page : LogPage)
    (r : Request) (safe : IsPageSafe aligner page_size page) where
  load_offset-Progress :
      let (page', pc') = load_offset aligner page_size r page in
      Progress aligner page_size page r start page' pc'
  unfolding load_offset
  load_offset-Progress =
      elim (Bool-cases (ltb (max_size aligner page_size) (es aligner page_size r.size))) [
        | inl big ↦ rw big (stay aligner page_size page r start (returned none) safe tt (λ p e. e))
        | inr fits ↦ elim (Bool-cases (is_sealed page)) [
          | inl sealed ↦
              rw (fits, sealed)
                (stay aligner page_size page r start (returned none) safe tt (λ p e. e))
          | inr open_page ↦
              rw (fits, open_page)
                (stay aligner page_size page r start (trying (offset page) page.offset_word) safe
                  (safe.visited, safe.small, ground arith, (ground arith, omega arith)) (λ p e. e))
        ]
      ]

  -- The page after `tryAcquire` took the entry at a free position.
  abbrev acquired_page : ℕ → LogPage
  acquired_page p = record page {
    entries =
        update page.entries p (record { size_word = (r.size * 2 + 1) % 2 ^ 32; type = r.type });
  }

  acquire-Extends :
      (p : ℕ) → (page.entries p).size_word ≡ 0 → Extends aligner page_size page (acquired_page p)
  acquire-Extends p free q acq = ground arith

  module _ (ok : IsRequest r) (p seen : ℕ)
      (h : IsPcSafe aligner page_size page r (trying p seen)) where
    no_wrap : end_position aligner page_size r p ≡ p + es aligner page_size r.size
    no_wrap = omega (arith, h.1, h.2)

    acquire-Progress :
        (page.entries p).size_word ≡ 0
        → p + es aligner page_size r.size ≤ max_size aligner page_size
        → Progress aligner page_size page r
            (trying p seen)
            (acquired_page p)
            (publishing p (end_position aligner page_size r p) seen)
    unfolding entry_size
    acquire-Progress free room =
        let ext = acquire-Extends p free in
        record {
          page_safe = record {
            fits = λ q acq. ground (arith, safe.fits q);
            visited =
                IsVisited-Extends aligner page_size page (acquired_page p) (offset page) ext
                  safe.visited;
            small = safe.small;
            word = λ q. ground (arith, safe.word q);
            filled = λ q acq. ground (arith, safe.filled q);
          };
          pc_safe = (
            record {
              visited = IsVisited-Extends aligner page_size page (acquired_page p) p ext h.0;
              acquired = ground arith;
              sized = ground arith;
            },
            no_wrap,
            rw no_wrap room,
            h.3,
          );
          extends = ext;
          grows = omega arith;
          fresh = λ q e. inr (ground arith);
        }

    skip-Progress :
        (page.entries p).size_word ≢ 0
        → Progress aligner page_size page r
            (trying p seen)
            page
            (trying ((p + entry_size aligner page_size (page.entries p)) % 2 ^ 32) seen)
    skip-Progress acq =
        let q = p + entry_size aligner page_size (page.entries p) in
        let e : q % 2 ^ 32 ≡ q = omega (arith, safe.fits p acq) in
        rw e (
          stay aligner page_size page r (trying p seen) (trying q seen) safe
            (
              rw (← advance-acquired aligner page_size page p acq)
                  (IsVisited-advance aligner page_size page p h.0),
              safe.fits p acq,
              h.2,
              h.3,
            )
            (λ x e. e))

    entry_size-ne-zero : entry_size aligner page_size (page.entries p) ≢ 0
    unfolding entry_size
    entry_size-ne-zero =
        let n = size (page.entries p) in
        omega (
          arith,
          safe.word p,
          (entry_size_bounds aligner page_size n (omega (arith, safe.word p))).0,
        )

    try_position-Progress :
        let (page', pc') = try_position aligner page_size r page p seen in
        Progress aligner page_size page r (trying p seen) page' pc'
    unfolding try_position try_acquire
    try_position-Progress =
        elim (Bool-cases (ltb (max_size aligner page_size) (end_position aligner page_size r p))) [
          | inl full ↦
              rw full
                (stay aligner page_size page r (trying p seen) (returned none) safe tt (λ q e. cc))
          | inr room ↦ elim (Bool-cases ((page.entries p).size_word == 0)) [
            | inl free ↦
                rw (room, free)
                  (acquire-Progress (ground arith) (omega (arith, not_ltb room, no_wrap)))
            | inr acq ↦ rw (room, acq, ==_ne _ 0 entry_size-ne-zero) (skip-Progress (ground arith))
          ]
        ]

  module _ (p end seen : ℕ) (h : IsPcSafe aligner page_size page r (publishing p end seen)) where
    abbrev published : LogPage
    published = record page { offset_word = end * 2 + 1 }

    publish_word : (end * 2 + 1) % 2 ^ 32 ≡ end * 2 + 1
    publish_word = omega (arith, h.2)

    published-Progress :
        seen < end * 2 + 1
        → page.offset_word ≡ seen
        → Progress aligner page_size page r (publishing p end seen) published (returned (some p))
    unfolding entry_size
    published-Progress lt same =
        let owned = h.0 in
        let there : advance aligner page_size page p ≡ end =
          ground (arith, advance-acquired aligner page_size page p owned.acquired, owned.sized) in
        let ext : Extends aligner page_size page published = λ q acq. (acq, refl) in
        let at_end : offset published ≡ end = omega arith in
        record {
          page_safe = record {
            fits = safe.fits;
            visited = subst (IsVisited aligner page_size published) (there ∙ sym at_end) (
                IsVisited-Extends aligner page_size page published
                  (advance aligner page_size page p) ext
                  (IsVisited-advance aligner page_size page p owned.visited));
            small = omega (arith, h.2);
            word = safe.word;
            filled = safe.filled;
          };
          pc_safe = (
            record {
              visited = IsVisited-Extends aligner page_size page published p ext owned.visited;
              acquired = owned.acquired;
              sized = owned.sized;
            },
            omega (arith, h.1),
          );
          extends = ext;
          grows = omega arith;
          fresh = λ q e. inl e;
        }

    returned-Progress :
        end ≤ offset page
        → Progress aligner page_size page r (publishing p end seen) page (returned (some p))
    returned-Progress le =
        stay aligner page_size page r (publishing p end seen) (returned (some p)) safe
          (h.0, omega (arith, h.1)) (λ q e. e)

    publish-Progress :
        let (page', pc') = publish aligner page_size r page p end seen in
        Progress aligner page_size page r (publishing p end seen) page' pc'
    unfolding publish
    publish-Progress = elim (Bool-cases (ltb seen (end * 2 + 1))) [
      | inr ahead ↦ rw (publish_word, ahead) (returned-Progress (omega (arith, h.3, not_ltb ahead)))
      | inl behind ↦ elim (Bool-cases (page.offset_word == seen)) [
        | inl same ↦
            rw (publish_word, behind, same) (published-Progress (ground arith) (ground arith))
        | inr moved ↦ elim (Bool-cases (page.offset_word % 2 == 0)) [
          | inr open_page ↦
              rw (publish_word, behind, moved, open_page)
                (stay aligner page_size page r (publishing p end seen)
                  (publishing p end page.offset_word) safe
                  (h.0, h.1, h.2, (ground arith, omega arith)) (λ q e. e))
          | inl sealed ↦ elim (Bool-cases (leb end (page.offset_word / 2))) [
            | inl in_time ↦
                rw (publish_word, behind, moved, sealed, in_time) (returned-Progress (ground arith))
            | inr late ↦
                rw (publish_word, behind, moved, sealed, late)
                  (stay aligner page_size page r (publishing p end seen) (returned none) safe tt
                    (λ q e. cc))
          ]
        ]
      ]
    ]

  -- One access of a thread keeps the page and the thread safe.
  pub append_step-Progress :
      (pc : Pc)
      → IsRequest r
      → IsPcSafe aligner page_size page r pc
      → let (page', pc') = append_step aligner page_size r page pc in
        Progress aligner page_size page r pc page' pc'
  unfolding append_step
  append_step-Progress start ok h = load_offset-Progress
  append_step-Progress (trying p seen) ok h = try_position-Progress ok p seen h
  append_step-Progress (publishing p end seen) ok h = publish-Progress p end seen h
  append_step-Progress (returned o) ok h =
      stay aligner page_size page r (returned o) (returned o) safe h (λ q e. e)
