-- ===== src/Paging/Init.antt =====
-- `init_page_table` of student-distrib/paging.c: which pages are there from the start.
use ece391os.Prelude.{
  ℕ, zero, suc, ◌+◌, ◌*◌, ◌≤◌, ◌<◌, ◌≡◌, refl, arith, Bool, ◌&&◌, if◌then◌else◌, ltb, leb, ◌==◌,
  ==_iff, bit_or, update,
}
use ece391os.Prelude.Bits.{every, every_lem}
use ece391os.Paging.{
  Paging, page_size, table_entries, rw_not_present, rw_present, fill_table, init_page_table,
}

entry_lem : (i : ℕ) → i < table_entries → bit_or (i * page_size) rw_not_present ≡ i * page_size + 2
unfolding every
entry_lem i h = (==_iff _ _).0 (
    every_lem table_entries (λ j. bit_or (j * page_size) rw_not_present == j * page_size + 2) i refl
      h)

present_lem :
    (i : ℕ) → i < table_entries → bit_or (i * page_size + 2) rw_present ≡ i * page_size + 3
unfolding every
present_lem i h = (==_iff _ _).0 (
    every_lem table_entries (λ j. bit_or (j * page_size + 2) rw_present == j * page_size + 3) i refl
      h)

fill_table_lem :
    (n i : ℕ) (f : ℕ → ℕ) (j : ℕ)
    → i + n ≤ table_entries
    → fill_table n i f j ≡ (if leb i j && ltb j (i + n) then j * page_size + 2 else f j)
unfolding fill_table
fill_table_lem zero i f j h = ground arith
fill_table_lem (suc n) i f j h = ground (
  arith,
  fill_table_lem n (i + 1) (update f i (bit_or (i * page_size) rw_not_present)) j,
  entry_lem i,
)

-- The page of video memory and the three pages behind it, where the terminals are saved.
abbrev pub is_screen : ℕ → Bool
is_screen i = leb 184 i && leb i 187

-- After `init_page_table` every page of the first table is mapped to the frame of the same number,
-- and is present exactly if it is video memory or one of the three saved screens; no page of the
-- second table is present.
pub init_page_table_lem :
    (p : Paging) (i : ℕ)
    → i < table_entries
    → ((init_page_table p).first_page_table i ≡ i * page_size + (if is_screen i then 3 else 2))
      × ((init_page_table p).second_page_table i ≡ i * page_size + 2)
unfolding init_page_table
init_page_table_lem p i h = (
  ground (
    arith,
    table i,
    table 184,
    table 185,
    table 186,
    table 187,
    present_lem 184,
    present_lem 185,
    present_lem 186,
    present_lem 187,
  ),
  ground (arith, fill_table_lem table_entries 0 p.second_page_table i),
)
  where
    table :
        (j : ℕ)
        → fill_table table_entries 0 p.first_page_table j
          ≡ (if ltb j table_entries then j * page_size + 2 else p.first_page_table j)
    table j = ground (arith, fill_table_lem table_entries 0 p.first_page_table j)
