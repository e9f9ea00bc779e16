-- ===== src/ChainFs/Paths/Root.antt =====
-- What becomes of the path "/".
use pizda.Prelude.{ℕ, ◌+◌, ◌/◌, ◌%◌, ◌^◌, ◌≤◌, ◌≡◌, ◌≢◌, ap, ◌∙◌, arith, inl, false, ==_ne, [], ◌∷◌}
use pizda.Pata.{Sector}
use pizda.ChainFs.{ChainFs, Superblock, type_dir, put8, put32, read_sector}
use pizda.ChainFs.Fields.{put32_ne}
use pizda.ChainFs.Map.{sector}
use pizda.ChainFs.Table.{entry_at}
use pizda.ChainFs.Volume.{put_superblock, formatted, cleared, chainfs_format}
use pizda.ChainFs.Volume.Mount.{chainfs_format-run}
use pizda.ChainFs.Paths.{slash, split_loop, split_path, chainfs_resolve_path, chainfs_chdir}

put32_second : (s : Sector) (v : ℕ) → put32 s 0 v 1 ≡ v / 2 ^ 8 % 256
unfolding put32 put8
put32_second s v = ground arith

put_superblock-second :
    (sb : Superblock) (s : Sector) → put_superblock sb s 1 ≡ sb.magic / 2 ^ 8 % 256
unfolding put_superblock
put_superblock-second sb s =
    put32_ne _ 20 sb.root_dir_block 1 (inl (omega arith))
    ∙ put32_ne _ 16 sb.total_files 1 (inl (omega arith))
    ∙ put32_ne _ 12 sb.block_map_block_count 1 (inl (omega arith))
    ∙ put32_ne _ 8 sb.file_table_block_count 1 (inl (omega arith))
    ∙ put32_ne _ 4 sb.block_count 1 (inl (omega arith))
    ∙ put32_second s sb.magic

-- The path "/" is looked up in the sector `root_dir_block`.
chdir_slash :
    (fs : ChainFs)
    → sector fs fs.superblock.root_dir_block 1 ≢ type_dir
    → (chainfs_chdir (slash ∷ []) fs).1 ≡ false
unfolding chainfs_chdir chainfs_resolve_path split_path split_loop read_sector entry_at
chdir_slash fs ne = rw (==_ne (sector fs fs.superblock.root_dir_block 1) type_dir ne)

-- After a format with at most 2^28 blocks and files whose areas fit in the blocks, the change to
-- the directory "/" fails: the superblock's sector is read as that of the root's entry.
pub chainfs_chdir-chainfs_format :
    (total_blocks max_files : ℕ) (fs : ChainFs)
    → total_blocks ≤ 2 ^ 28
    → max_files ≤ 2 ^ 28
    → 1
        + (formatted total_blocks max_files).file_table_block_count
        + (formatted total_blocks max_files).block_map_block_count
      ≤ total_blocks
    → (chainfs_chdir (slash ∷ []) (chainfs_format total_blocks max_files fs).0).1 ≡ false
unfolding formatted
chainfs_chdir-chainfs_format total_blocks max_files fs small few fit =
    let (all, first, _, _, run) = chainfs_format-run total_blocks max_files small few fit fs in
    let byte : sector all 0 1 ≡ 0xBA =
      ap (λ (c : Sector). c 1) first
      ∙ put_superblock-second (formatted total_blocks max_files) (cleared fs.sector_buffer) in
    let ne : sector all 0 1 ≢ type_dir = λ e. absurd (omega (arith, byte, e)) in
    rw run (chdir_slash _ ne)
