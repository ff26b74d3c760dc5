-- ===== src/OpenAddressing/Overflow.antt =====
-- Keys of util/OpenAddressingHash whose hash lies within the capacity of 2^64, which `calculateHash`
-- does not reduce.
use tellstore.Prelude.{ℕ, ap, ◌+◌, ◌^◌, ◌≤◌, ◌<◌, ◌≡◌, false, none, arith, true}
use tellstore.OpenAddressing.{
  OpenAddressingTable, rounds, calculate_hash, get, insert, erase, exec_on_element, insert_loop,
  erase_pointer,
}

hash-lt : (t : OpenAddressingTable) (table key : ℕ) → calculate_hash t table key < 2 ^ 64
unfolding calculate_hash
hash-lt t table key = omega arith

rounds-wrap :
    (t : OpenAddressingTable) (h : ℕ)
    → t.capacity < 2 ^ 64
    → h < 2 ^ 64
    → 2 ^ 64 ≤ h + t.capacity
    → rounds t h ≡ 0
rounds-wrap t h small fits wraps = omega arith

-- A key whose hash plus the capacity wraps at 64 bits is never found, an erase of it reports success
-- and an insert of it reports a full table, whatever the table holds; neither changes the table.
pub wrapped_key :
    (t : OpenAddressingTable) (table key v : ℕ)
    → t.capacity < 2 ^ 64
    → 2 ^ 64 ≤ calculate_hash t table key + t.capacity
    → (get t table key ≡ 0)
      × (insert t table key v ≡ (false, none, t))
      × (erase t table key v ≡ (true, none, t))
unfolding get insert erase exec_on_element insert_loop
wrapped_key t table key v small wraps =
    let e = rounds-wrap t (calculate_hash t table key) small (hash-lt t table key) wraps in
    let h = calculate_hash t table key in
    (
      ap (λ (n : ℕ). exec_on_element n t h table key 0 (λ i ptr. ptr)) e,
      ap (λ (n : ℕ). insert_loop n t h h table key v) e,
      ap (λ (n : ℕ). exec_on_element n t h table key (true, none, t) (erase_pointer t table key v))
          e,
    )
