-- ===== src/ChainFs/Examples.antt =====
-- The theorems on ChainFS at concrete disks, and runs of its functions.
use pizda.Prelude.{
  ℕ, ◌-◌, ◌≤◌, ◌≡◌, ◌≢◌, ◌↔◌, refl, arith, Option, some, none, true, false, ◌==◌, if◌then◌else◌,
  List, [], ◌∷◌, length, add32, sub32,
}
use pizda.Pata.{Sector, pata_read_sector, addressed, register, transfer}
use pizda.ChainFs.{
  ChainFs, eof_marker, get32, map_sector, map_offset, chainfs_find_free_blocks,
  chainfs_free_block_chain,
}
use pizda.ChainFs.Map.{IsMounted, next_of, buffered}
use pizda.ChainFs.Map.Search.{Ascending, AllFree, free_count, chainfs_find_free_blocks_sound}
use pizda.ChainFs.Map.Release.{
  Released, chainfs_free_block_chain-Released, chainfs_free_block_chain_diverges,
}
use pizda.ChainFs.Data.{write_loop}
use pizda.ChainFs.Data.Store.{Stored, Kept, write_loop-Stored}
use pizda.ChainFs.Paths.Root.{chainfs_chdir-chainfs_format}
use pizda.ChainFs.Volume.{formatted, blocks_for, chainfs_format}
use pizda.ChainFs.Volume.Mount.{chainfs_format-IsMounted}
use pizda.ChainFs.Paths.{slash, chainfs_chdir, split_path}
use pizda.ChainFs.Paths.Split.{join, split_path-join}

-- 16 sectors: the superblock, one sector of files, one of the map, and 13 of data. Every byte of
-- the map has the value `b`.
abbrev volume : ℕ → ChainFs
volume b = record {
  superblock = record {
    magic = 0xCAFEBABE;
    block_count = 16;
    file_table_block_count = 1;
    block_map_block_count = 1;
    total_files = 8;
    root_dir_block = 0;
  };
  data_area_start = 3;
  current_dir_block = 0;
  sector_buffer = λ j. 0;
  disk = λ k j. if k == 2 then b else 0;
}

volume-IsMounted : (b : ℕ) → IsMounted (volume b)
volume-IsMounted b = record {
  addressable = omega arith;
  areas = refl;
  fits = omega arith;
  covered = omega arith;
}

abbrev empty : ChainFs
empty = volume 0

-- The bytes of a file: `j` at the position `j`.
abbrev counting : ℕ → ℕ
counting j = j

ascending : Ascending 0 (2 ∷ 5 ∷ [])
unfolding Ascending
ascending = (omega arith, (omega arith, tt))

write_loop-Stored_example :
    Kept empty 0 (write_loop counting (2 ∷ 5 ∷ []) 600 0 empty)
    × Stored (write_loop counting (2 ∷ 5 ∷ []) 600 0 empty) counting 0 600 (2 ∷ 5 ∷ [])
write_loop-Stored_example =
    write_loop-Stored (2 ∷ 5 ∷ []) counting 0 600 0 empty (volume-IsMounted 0) ascending
      (omega arith, (omega arith, tt)) (omega arith)

chainfs_find_free_blocks_sound_example :
    (b : Sector) × (found : Option (List ℕ)) × (chainfs_find_free_blocks 4 empty
      ≡ (buffered empty b, found))
    × ((xs : List ℕ)
        → found ≡ some xs
        → (length xs ≡ 4) × Ascending 0 xs × AllFree (16 - 3) (next_of empty) xs)
    × (found ≢ none ↔ 4 ≤ free_count (16 - 3) 0 (next_of empty))
chainfs_find_free_blocks_sound_example = chainfs_find_free_blocks_sound empty (volume-IsMounted 0) 4

-- Every entry of the map is the end of a chain.
last_entry : next_of (volume 255) 4 ≡ eof_marker
unfolding next_of get32 map_sector map_offset pata_read_sector addressed register transfer add32
last_entry = refl

lone_block : Ascending 0 (4 ∷ [])
unfolding Ascending
lone_block = (omega arith, tt)

chainfs_free_block_chain-Released_example :
    (fs' : ChainFs) × (chainfs_free_block_chain 2 4 (volume 255) ≡ some fs')
    × Released (volume 255) (4 ∷ []) fs'
chainfs_free_block_chain-Released_example =
    chainfs_free_block_chain-Released (4 ∷ []) 2 4 0 (volume 255) (volume-IsMounted 255)
      (refl, omega arith, last_entry) lone_block (omega arith, tt) (omega arith)

first_free : next_of empty 0 ≡ 0
unfolding next_of get32 map_sector map_offset pata_read_sector addressed register transfer add32
first_free = refl

chainfs_free_block_chain_diverges_example : chainfs_free_block_chain 1000 0 empty ≡ none
chainfs_free_block_chain_diverges_example =
    chainfs_free_block_chain_diverges 1000 empty (volume-IsMounted 0) (omega arith) first_free

small_files : formatted 64 20 ≡ record {
  magic = 0xCAFEBABE;
  block_count = 64;
  file_table_block_count = 3;
  block_map_block_count = 1;
  total_files = 20;
  root_dir_block = 0;
}
unfolding formatted blocks_for sub32 add32
small_files = refl

chainfs_format-IsMounted_example :
    ((chainfs_format 64 20 empty).1 ≡ true)
    × ((chainfs_format 64 20 empty).0.superblock ≡ formatted 64 20)
    × ((chainfs_format 64 20 empty).0.current_dir_block ≡ 0)
    × IsMounted (chainfs_format 64 20 empty).0
chainfs_format-IsMounted_example =
    chainfs_format-IsMounted 64 20 (omega arith) (omega arith) (rw small_files (omega arith)) empty

split_path-join_example :
    split_path (join ((97 ∷ []) ∷ (98 ∷ 99 ∷ []) ∷ [])) 16 ≡ (97 ∷ []) ∷ (98 ∷ 99 ∷ []) ∷ []
split_path-join_example =
    split_path-join ((97 ∷ []) ∷ (98 ∷ 99 ∷ []) ∷ []) 16
      (
        ((omega arith, tt), omega arith, omega arith),
        (((omega arith, (omega arith, tt)), omega arith, omega arith), tt),
      )
      (omega arith)

chainfs_chdir-chainfs_format_example :
    (chainfs_chdir (slash ∷ []) (chainfs_format 64 20 empty).0).1 ≡ false
chainfs_chdir-chainfs_format_example =
    chainfs_chdir-chainfs_format 64 20 empty (omega arith) (omega arith)
      (rw small_files (omega arith))
