-- ===== src/ChainFs/Table.antt =====
-- The file table: `chainfs_find_free_file_entry`, `chainfs_find_in_directory`, the loop of
-- `chainfs_list_dir`, and the writes of an entry. A name is the list of its bytes without the NUL.
pub mod Find
pub mod Entry
pub mod Lookup
pub mod Search
pub mod Packed
pub mod Array
use pizda.Prelude.{
  ℕ, zero, suc, ◌+◌, ◌-◌, ◌*◌, ◌/◌, Option, none, some, Bool, true, false, ◌&&◌, not, ◌==◌, ltb,
  if◌then◌else◌, add32, length, List, [], ◌∷◌, ◌++◌,
}
use pizda.Pata.{Sector}
use pizda.Mlibc.{Str, from, chars, strcmp, is_zero}
use pizda.ChainFs.{
  ChainFs, FileEntry, chainfs_magic, entries_per_block, get32, put8, put32, read_sector,
  write_sector,
}

-- `entries[i]` of the sector: the packed struct has 60 bytes, 30 of them for the name.
unfoldable pub entry_at : Sector → ℕ → FileEntry
entry_at s i = record {
  status = s (60 * i);
  type_ = s (60 * i + 1);
  name = from (60 * i + 2) s;
  size = get32 s (60 * i + 32);
  start_block = get32 s (60 * i + 36);
  parent_block = get32 s (60 * i + 40);
}

-- An entry with `*entry_block` and `*entry_offset`.
pub record Found : Type 0 where
  pub entry : FileEntry
  pub block : ℕ
  pub offset : ℕ

abbrev pub Test : Type 0
Test = FileEntry → Bool

-- The inner loop: `rounds` values of `i` are left.
unfoldable pub find_slot : ℕ → ℕ → Test → Sector → Option ℕ
find_slot zero i test s = none
find_slot (suc rounds) i test s =
    let rest = find_slot rounds (suc i) test s in if test (entry_at s i) then some i else rest

-- What a sector of the table gives: the result, or the search of the sectors after it.
abbrev pub found_in : ℕ → ChainFs → ChainFs × Option Found → Option ℕ → ChainFs × Option Found
found_in block loaded rest none = rest
found_in block loaded rest (some i) =
    (loaded, some (record { entry = entry_at loaded.sector_buffer i; block = block; offset = i }))

-- The loop over the table's sectors.
unfoldable pub find_entry : ℕ → ℕ → Test → ChainFs → ChainFs × Option Found
find_entry zero block test fs = (fs, none)
find_entry (suc rounds) block test fs =
    let loaded = read_sector block fs in
    found_in block loaded (find_entry rounds (suc block) test loaded)
      (find_slot entries_per_block 0 test loaded.sector_buffer)

-- The rounds of `for (block = 1; block < 1 + file_table_block_count; block++)`.
unfoldable pub table_rounds : ChainFs → ℕ
table_rounds fs = add32 1 fs.superblock.file_table_block_count - 1

abbrev pub is_unused : Test
is_unused e = e.status == 0

abbrev pub is_in : ℕ → Test
is_in dir e = e.status == 1 && e.parent_block == dir

abbrev pub is_named : ℕ → List ℕ → Test
is_named dir name e = is_in dir e && is_zero (strcmp (suc (length name)) e.name (chars name))

abbrev pub is_formatted : ChainFs → Bool
is_formatted fs = fs.superblock.magic == chainfs_magic

-- `none` for -1, and for the -2 of a disk that is not formatted.
unfoldable pub chainfs_find_free_file_entry : ChainFs → ChainFs × Option Found
chainfs_find_free_file_entry fs =
    let found = find_entry (table_rounds fs) 1 is_unused fs in
    if is_formatted fs then found else (fs, none)

unfoldable pub chainfs_find_in_directory : ℕ → List ℕ → ChainFs → ChainFs × Option Found
chainfs_find_in_directory dir name fs = find_entry (table_rounds fs) 1 (is_named dir name) fs

-- The inner loop of `chainfs_list_dir`, with `wanted` free places in `files`.
unfoldable pub list_slots : ℕ → ℕ → ℕ → ℕ → Sector → List FileEntry
list_slots zero i wanted dir s = []
list_slots (suc rounds) i zero dir s = []
list_slots (suc rounds) i (suc wanted) dir s =
    let listed = list_slots rounds (suc i) wanted dir s in
    let skipped = list_slots rounds (suc i) (suc wanted) dir s in
    if is_in dir (entry_at s i) then entry_at s i ∷ listed else skipped

unfoldable pub list_blocks : ℕ → ℕ → ℕ → ℕ → ChainFs → ChainFs × List FileEntry
list_blocks zero block wanted dir fs = (fs, [])
list_blocks (suc rounds) block zero dir fs = (fs, [])
list_blocks (suc rounds) block (suc wanted) dir fs =
    let loaded = read_sector block fs in
    let here = list_slots entries_per_block 0 (suc wanted) dir loaded.sector_buffer in
    let (fs', rest) = list_blocks rounds (suc block) (suc wanted - length here) dir loaded in
    (fs', here ++ rest)

unfoldable pub put_bytes : ℕ → List ℕ → Sector → Sector
put_bytes o [] s = s
put_bytes o (x ∷ xs) s = put_bytes (suc o) xs (put8 s o x)

-- An entry is read, edited and written back.
unfoldable pub edit_entry : ℕ → (Sector → Sector) → ChainFs → ChainFs
edit_entry block edit fs =
    let loaded = read_sector block fs in
    write_sector block (record loaded { sector_buffer = edit loaded.sector_buffer })

-- `entries[offset].status = 0`
unfoldable pub clear_status : ℕ → Sector → Sector
clear_status offset s = put8 s (60 * offset) 0

-- The fields of a new entry; `named` has its name in place.
unfoldable pub put_entry : ℕ → ℕ → ℕ → ℕ → ℕ → (Sector → Sector) → Sector → Sector
put_entry offset type_ size start_block parent_block named s =
    let o = 60 * offset in
    put32
      (put32 (put32 (named (put8 (put8 s o 1) (o + 1) type_)) (o + 32) size) (o + 36) start_block)
      (o + 40) parent_block
