-- ===== src/ChainFs/Paths/Located.antt =====
-- The path of a directory that was made in the root.
use pizda.Prelude.{
  ℕ, suc, ◌+◌, ◌-◌, ◌*◌, ◌/◌, ◌%◌, sym, ◌≢◌, ◌≤◌, ◌<◌, ◌≡◌, ap, ◌∙◌, arith, two32, some, true,
  false, List, ◌∷◌, length, All,
}
use pizda.Pata.{Sector}
use pizda.ChainFs.{ChainFs, chainfs_magic, entries_per_block}
use pizda.ChainFs.Map.{IsMounted, buffered, sector}
use pizda.ChainFs.Table.{entry_at, is_unused}
use pizda.ChainFs.Table.Lookup.{InTable, IsNew}
use pizda.ChainFs.Table.Search.{entry_number}
use pizda.ChainFs.Paths.{slash, chainfs_mkdir, chainfs_chdir}
use pizda.ChainFs.Paths.Mkdir.{make_and_enter}
use pizda.ChainFs.Paths.Current.{chainfs_get_current_path, get_current_path-name}
use pizda.ChainFs.Paths.Name.{IsNameByte, no_nul}

-- The path of a directory that `chainfs_mkdir` makes in the root and `chainfs_chdir` enters, as
-- `chainfs_get_current_path` gives it, is a slash and its name. The conditions: the disk is mounted
-- and has the magic number; the current directory is the root, whose entry is in use and in the
-- table; the name has 1 to 29 bytes, no NUL and no
-- slash, and no entry of the table has it in the root; an entry of the table whose number is below `total_files`
-- is unused; the buffer has room for the path and a NUL, and there are two rounds at least.
pub get_current_path-chainfs_mkdir :
    (block offset fuel buffer_size : ℕ) (name : List ℕ) (fs : ChainFs)
    → IsMounted fs
    → fs.superblock.magic ≡ chainfs_magic
    → fs.current_dir_block ≡ fs.superblock.root_dir_block
    → All IsNameByte name
    → 0 < length name
    → length name ≤ 29
    → IsNew fs.current_dir_block name fs
    → InTable fs block
    → offset < entries_per_block
    → is_unused (entry_at (sector fs block) offset) ≡ true
    → is_unused (
        entry_at
          (sector fs (1 + fs.superblock.root_dir_block / entries_per_block))
          (fs.superblock.root_dir_block % entries_per_block))
      ≡ false
    → fs.superblock.root_dir_block < entries_per_block * fs.superblock.file_table_block_count
    → entry_number block offset < fs.superblock.total_files
    → length name + 1 < buffer_size
    → 2 ≤ fuel
    → (fs' fs'' : ChainFs) × (s : Sector) × (chainfs_mkdir name fs ≡ some (fs', true))
      × (chainfs_chdir name fs' ≡ (fs'', true))
      × (chainfs_get_current_path fuel buffer_size fs''
          ≡ some (buffered fs'' s, some (slash ∷ name)))
get_current_path-chainfs_mkdir block offset fuel buffer_size name fs v magic root simple pos short
      new t lt unused used in_table listed room rounds =
    let word : fs.current_dir_block < two32 = omega (arith, v.areas, v.fits, v.addressable) in
    let (fs', fs'', b, j, made, entered, index, tb, ltj, hit, sb, held, parent, first) =
      make_and_enter block offset name fs v magic word simple pos short new t lt unused in
    let idx = fs''.current_dir_block in
    let same_root : fs''.superblock.root_dir_block ≡ fs.superblock.root_dir_block =
      ap (λ (x : _). x.root_dir_block) sb in
    let same_files : fs''.superblock.total_files ≡ fs.superblock.total_files =
      ap (λ (x : _). x.total_files) sb in
    let row : 1 + idx / entries_per_block ≡ b = omega (arith, index, tb.0, ltj) in
    let slot : idx % entries_per_block ≡ j = omega (arith, index, tb.0, ltj) in
    let far : idx ≢ fs''.superblock.root_dir_block = λ e.
      let rb : b ≡ 1 + fs.superblock.root_dir_block / entries_per_block =
        omega (arith, e, same_root, row) in
      let rj : j ≡ fs.superblock.root_dir_block % entries_per_block =
        omega (arith, e, same_root, slot) in
      let not_hit = (λ i. is_unused (entry_at (sector fs (rb i)) (rj i))) ∙ used in absurd (cc) in
    let bound : idx < entries_per_block * fs.superblock.file_table_block_count =
      omega (arith, index, tb.0, tb.1, ltj) in
    let e = entry_at (sector fs'' b) j in
    let here : entry_at (sector fs'' (1 + idx / entries_per_block)) (idx % entries_per_block) ≡ e =
      λ i. entry_at (sector fs'' (row i)) (slot i) in
    let more : suc (suc (fuel - 2)) ≡ fuel = omega arith in
    let (s, path) =
      get_current_path-name (fuel - 2) buffer_size name fs'' e (no_nul name simple) short room far
        (omega (arith, bound, v.areas, v.fits, v.addressable))
        (omega (arith, index, first, listed, same_files)) here held
        (parent ∙ root ∙ sym same_root) in
    (
      fs',
      fs'',
      s,
      made,
      entered,
      ap (λ (k : ℕ). chainfs_get_current_path k buffer_size fs'') (sym more) ∙ path,
    )
