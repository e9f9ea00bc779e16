-- ===== src/ChainFs/Files/Examples.antt =====
-- The theorems on files and directories at a concrete disk and heap.
use pizda.Prelude.{
  ℕ, ◌<◌, ◌≡◌, ◌≢◌, ◌≤◌, ◌↔◌, List, [], ◌∷◌, length, refl, arith, true, some, add32, sub32, add64,
}
use pizda.Pata.{Sector}
use pizda.Heap.{Heap, init_heap, align16}
use pizda.Heap.Blocks.{alloc_ptr, fits}
use pizda.Heap.State.{IsHeap, whole}
use pizda.ChainFs.{ChainFs, block_size, entries_per_block}
use pizda.ChainFs.Map.{IsMounted, InMap, next_of, buffered}
use pizda.ChainFs.Data.Load.{Prefix}
use pizda.ChainFs.Volume.{blocks_for}
use pizda.ChainFs.Table.{entry_at, put_entry, clear_status}
use pizda.ChainFs.Table.Packed.{Packed, ArePacked, array, sector_of, nth, Reads}
use pizda.ChainFs.Table.Array.{IsWritten, put_entry-array}
use pizda.ChainFs.Table.Lookup.{IsNew}
use pizda.ChainFs.Files.{
  Status, zeros, put_name, blocks_needed, chainfs_read_file, chainfs_write_file,
  chainfs_delete_file,
}
use pizda.ChainFs.Files.Samples.{
  empty, empty-IsMounted, name, empty-IsNew, first_unused, kernel_end, booted, booted-IsHeap,
  all_free,
}
use pizda.ChainFs.Files.RoundTrip.{
  chainfs_read_file-chainfs_write_file, chainfs_delete_file-chainfs_write_file,
}

-- The bytes of a file of 600 bytes: `j` at the position `j`.
abbrev counting : ℕ → ℕ
counting j = j

two_blocks : blocks_needed 600 ≡ 2
unfolding blocks_for sub32 add32
two_blocks = refl

room : alloc_ptr (align16 8) booted.heap_start whole ≢ 0
unfolding alloc_ptr fits init_heap align16 add64
room = omega arith

chainfs_read_file-chainfs_write_file_example :
    (heap' : Heap) × (fs' : ChainFs) × (b : Sector) × (out' : ℕ → ℕ) × (chainfs_write_file
        kernel_end 3 name counting 600 booted empty
      ≡ some (heap', fs', Status.ok))
    × IsHeap heap' whole
    × (chainfs_read_file 3 name 1024 (λ j. 0) fs' ≡ some (buffered fs' b, some (600, out')))
    × Prefix counting 600 out'
chainfs_read_file-chainfs_write_file_example =
    chainfs_read_file-chainfs_write_file kernel_end 3 600 1 0 name counting booted whole empty
      empty-IsMounted refl (omega arith) ((omega arith, omega arith), tt) (omega arith) empty-IsNew
      (omega arith, omega arith) (omega arith) first_unused
      (rw two_blocks (omega (arith, all_free))) booted-IsHeap (rw two_blocks room) (omega arith)
      1024 (λ j. 0) (omega arith) (omega arith) (rw two_blocks (omega arith))

chainfs_delete_file-chainfs_write_file_example :
    (heap' : Heap) × (fs' fs'' : ChainFs) × (chainfs_write_file kernel_end 3 name counting 600
        booted empty
      ≡ some (heap', fs', Status.ok))
    × (chainfs_delete_file 3 name fs' ≡ some (fs'', true))
    × IsMounted fs''
    × IsNew fs''.current_dir_block name fs''
    × ((j : ℕ) → InMap empty j → next_of fs'' j ≡ next_of empty j)
chainfs_delete_file-chainfs_write_file_example =
    chainfs_delete_file-chainfs_write_file kernel_end 3 600 1 0 name counting booted whole empty
      empty-IsMounted refl (omega arith) ((omega arith, omega arith), tt) (omega arith) empty-IsNew
      (omega arith, omega arith) (omega arith) first_unused
      (rw two_blocks (omega (arith, all_free))) booted-IsHeap (rw two_blocks room) (omega arith)
      (rw two_blocks (omega arith))

-- A sector with the root, a file and a free entry; the free one is written.
abbrev struct : ℕ → ℕ → List ℕ → ℕ → ℕ → ℕ → Packed
struct status type_ name size start_block parent_block = record {
  status = status;
  type_ = type_;
  name = name;
  size = size;
  start_block = start_block;
  parent_block = parent_block;
  reserved = zeros 16;
}

abbrev structs : List Packed
structs =
    struct 1 1 (47 ∷ zeros 29) 0 0 0xFFFFFFFF
    ∷ struct 1 0 (97 ∷ zeros 29) 600 174 0
    ∷ struct 0 0 (zeros 30) 0 0 0
    ∷ []

structs-ArePacked : ArePacked structs
structs-ArePacked = (
  record {
    name_length = refl;
    reserved_length = refl;
    size_fits = omega arith;
    start_fits = omega arith;
    parent_fits = omega arith;
  },
  (
    record {
      name_length = refl;
      reserved_length = refl;
      size_fits = omega arith;
      start_fits = omega arith;
      parent_fits = omega arith;
    },
    (
      record {
        name_length = refl;
        reserved_length = refl;
        size_fits = omega arith;
        start_fits = omega arith;
        parent_fits = omega arith;
      },
      tt,
    ),
  ),
)

put_entry-array_example :
    ((length (array structs) ≤ block_size) ↔ (length structs ≤ entries_per_block))
    × ((i : ℕ) → i < 3 → Reads (sector_of (array structs)) i (nth structs i))
    × IsWritten 2 0 5 176 0
        (98 ∷ [])
        (nth structs 2)
        (put_entry 2 0 5 176 0 (put_name 2 (98 ∷ [])) (sector_of (array structs)))
    × ((i : ℕ)
        → i < 3
        → i ≢ 2
        → Reads
            (put_entry 2 0 5 176 0 (put_name 2 (98 ∷ [])) (sector_of (array structs)))
            i
            (nth structs i))
    × ((entry_at (clear_status 2 (sector_of (array structs))) 2).status ≡ 0)
    × ((i : ℕ)
        → i < 3
        → i ≢ 2
        → Reads (clear_status 2 (sector_of (array structs))) i (nth structs i))
put_entry-array_example =
    put_entry-array structs 2 0 5 176 0 (98 ∷ []) structs-ArePacked (omega arith) (omega arith)
