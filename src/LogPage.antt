-- ===== src/LogPage.antt =====
-- util/Log: `LogEntry` and `LogPage`, the lock-free append to one page. A thread's append is a
-- sequence of atomic accesses; `append_step` is the code from one access to the next.
pub mod Threads
pub mod Walk
use tellstore.Prelude.{
  ℕ, ◌+◌, ◌-◌, ◌*◌, ◌/◌, ◌%◌, ◌^◌, Bool, true, false, Option, none, some, ◌==◌, ltb, leb,
  if◌then◌else◌, update,
}
use tellstore.Align.{Aligner}

-- `mSize` holds the payload size in its bits 1 to 31, and 1 in its bit 0 until the entry is sealed.
pub record LogEntry : Type 0 where
  pub size_word : ℕ
  pub type : ℕ

abbrev pub size : LogEntry → ℕ
size e = e.size_word / 2

abbrev pub entry_is_sealed : LogEntry → Bool
entry_is_sealed e = e.size_word % 2 == 0

-- `fetch_and(0xFFFFFFFF << 1)` on a 32-bit word.
abbrev pub clear_bit_0 : ℕ → ℕ
clear_bit_0 w = w - w % 2

-- `LogEntry::seal`
unfoldable pub seal_entry : LogEntry → LogEntry
seal_entry e = record e { size_word = clear_bit_0 e.size_word }

-- A page: its offset word, which is built as the size word is, and the entry header that stands at
-- each position of its data. The payloads belong to the callers.
pub record LogPage : Type 0 where
  pub offset_word : ℕ
  pub entries : ℕ → LogEntry

-- `LogPage()` on a zeroed page.
abbrev pub new_page : LogPage
new_page = record { offset_word = 1; entries = λ p. record { size_word = 0; type = 0 } }

abbrev pub offset : LogPage → ℕ
offset page = page.offset_word / 2

abbrev pub is_sealed : LogPage → Bool
is_sealed page = page.offset_word % 2 == 0

-- `seal()`
unfoldable pub seal_page : LogPage → LogPage
seal_page page = record page { offset_word = clear_bit_0 page.offset_word }

-- `seal(offset)`
unfoldable pub seal_at : LogPage → ℕ → Bool × LogPage
seal_at page o =
    let expected = o * 2 + 1 in
    if page.offset_word == expected
    then (true, record page { offset_word = o * 2 })
    else (false, page)

abbrev pub log_entry_size : ℕ
log_entry_size = 8

abbrev pub log_header_size : ℕ
log_header_size = 24

module _ (aligner : Aligner) (page_size : ℕ) where
  abbrev pub max_entry_size : ℕ
  max_entry_size = page_size - log_header_size

  -- `entrySizeFromSize`, with a result of 32 bits.
  unfoldable pub entry_size_from_size : ℕ → ℕ
  entry_size_from_size n = aligner.align (n + log_entry_size) 16 % 2 ^ 32

  unfoldable pub entry_size : LogEntry → ℕ
  entry_size e = entry_size_from_size (size e)

  -- `tryAcquire`: 0, or the size of the entry that is there. The store of the type directly follows
  -- the compare-exchange.
  unfoldable pub try_acquire : LogPage → ℕ → ℕ → ℕ → ℕ × LogPage
  try_acquire page position n type =
      let e = page.entries position in
      if e.size_word == 0
      then (
        0,
        record page {
          entries =
              update page.entries position
                (record { size_word = (n * 2 + 1) % 2 ^ 32; type = type });
        },
      )
      else (entry_size e, page)

-- Where a thread stands in `append` and `appendEntry`: before the load of the offset, before the
-- compare-exchange at a position, before that of the offset, or after its return. It carries
-- `offset` as it was last seen.
pub data Pc : Type 0 where
  start : Pc
  trying : ℕ → ℕ → Pc
  publishing : ℕ → ℕ → ℕ → Pc
  returned : Option ℕ → Pc

-- The payload size and the type that a thread appends.
pub record Request : Type 0 where
  pub size : ℕ
  pub type : ℕ

module _ (aligner : Aligner) (page_size : ℕ) (request : Request) where
  abbrev pub end_position : ℕ → ℕ
  end_position position = (position + entry_size_from_size aligner page_size request.size) % 2 ^ 32

  load_offset : LogPage → LogPage × Pc
  load_offset page =
      if ltb (max_entry_size aligner page_size)
        (entry_size_from_size aligner page_size request.size)
      then (page, returned none)
      else if is_sealed page
      then (page, returned none)
      else (page, trying (offset page) page.offset_word)

  try_position : LogPage → ℕ → ℕ → LogPage × Pc
  try_position page position seen =
      let (res, page') = try_acquire aligner page_size page position request.size request.type in
      if ltb (max_entry_size aligner page_size) (end_position position)
      then (page, returned none)
      else if res == 0
      then (page', publishing position (end_position position) seen)
      else (page, trying ((position + res) % 2 ^ 32) seen)

  publish : LogPage → ℕ → ℕ → ℕ → LogPage × Pc
  publish page position end seen =
      let new_word = (end * 2 + 1) % 2 ^ 32 in
      let now = page.offset_word in
      if ltb seen new_word
      then (if now == seen
          then (record page { offset_word = new_word }, returned (some position))
          else if now % 2 == 0
          then (if leb end (now / 2)
              then (page, returned (some position))
              else (page, returned none))
          else (page, publishing position end now))
      else (page, returned (some position))

  unfoldable pub append_step : LogPage → Pc → LogPage × Pc
  unfolding load_offset try_position publish
  append_step page start = load_offset page
  append_step page (trying position seen) = try_position page position seen
  append_step page (publishing position end seen) = publish page position end seen
  append_step page (returned r) = (page, returned r)
