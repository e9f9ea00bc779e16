-- ===== src/ChainFs/Files/Samples.antt =====
-- A disk with no files, a name and a heap, for the examples.
use pizda.Prelude.{
  ◌&&◌, true, false, ◌==◌, if◌then◌else◌, Bool-cases, inl, inr, ℕ, ◌≡◌, refl, arith, List, [], ◌∷◌,
  add32,
}
use pizda.Pata.{transfer, register, addressed, pata_read_sector}
use pizda.Heap.{Heap, init_heap}
use pizda.Heap.State.{IsHeap, whole, init_heap-IsHeap}
use pizda.ChainFs.{ChainFs, get32, map_sector, map_offset}
use pizda.ChainFs.Map.{IsMounted, next_of, sector}
use pizda.ChainFs.Map.Search.{free_count}
use pizda.ChainFs.Table.{entry_at, is_unused, is_named}
use pizda.ChainFs.Table.Find.{is_named_iff}
use pizda.ChainFs.Table.Lookup.{IsNew}

-- 16 sectors: the superblock, one sector of files, one of the map, and 13 of data. No block is used.
abbrev pub empty : ChainFs
empty = record {
  superblock = record {
    magic = 0xCAFEBABE;
    block_count = 16;
    file_table_block_count = 1;
    block_map_block_count = 1;
    total_files = 8;
    root_dir_block = 0;
  };
  data_area_start = 3;
  current_dir_block = 0;
  sector_buffer = λ j. 0;
  disk = λ k j. 0;
}

pub empty-IsMounted : IsMounted empty
empty-IsMounted = record {
  addressable = omega arith;
  areas = refl;
  fits = omega arith;
  covered = omega arith;
}

abbrev pub name : List ℕ
name = 97 ∷ []

pub empty-IsNew : IsNew 0 name empty
unfolding entry_at pata_read_sector
empty-IsNew b j t lt = refl

abbrev pub zeroed : Heap
zeroed = record {
  heap_start = 0;
  heap_end = 0;
  heap_head = 0;
  cells = λ a. record { magic = 0; is_free = 0; size = 0; next = 0; prev = 0 };
  bytes = λ a. 0;
}

pub first_unused : is_unused (entry_at (sector empty 1) 0) ≡ true
unfolding entry_at pata_read_sector
first_unused = refl

abbrev pub kernel_end : ℕ
kernel_end = 0x100008

abbrev pub booted : Heap
booted = init_heap kernel_end zeroed

pub booted-IsHeap : IsHeap booted whole
booted-IsHeap = init_heap-IsHeap kernel_end zeroed (omega arith) (omega arith)

pub all_free : free_count 13 0 (next_of empty) ≡ 13
unfolding free_count next_of get32 map_sector map_offset pata_read_sector add32
all_free = refl

-- The disk with the root's entry in use.
abbrev pub rooted : ChainFs
rooted = record empty { disk = λ k j. if k == 1 && j == 0 then 1 else 0 }

pub rooted-IsMounted : IsMounted rooted
rooted-IsMounted = record {
  addressable = omega arith;
  areas = refl;
  fits = omega arith;
  covered = omega arith;
}

rooted_names : (b j : ℕ) → is_named 0 name (entry_at (sector rooted b) j) ≡ false
unfolding entry_at pata_read_sector
rooted_names b j = elim (Bool-cases (is_named 0 name (entry_at (sector rooted b) j))) [
  | inr miss ↦ miss
  | inl hit ↦
      let (_, _, held) =
        (is_named_iff 0 name (entry_at (sector rooted b) j) (omega arith, tt)).0 hit in
      let first = held.0 in absurd (ground arith)
]

pub rooted-IsNew : IsNew 0 name rooted
rooted-IsNew b j t lt = rooted_names b j

-- The disk of the kernel's `chainfs_format(20480, 100)`, whose 13 sectors of the table have room for
-- 104 entries.
abbrev pub large : ChainFs
large = record rooted {
  superblock = record {
    magic = 0xCAFEBABE;
    block_count = 20480;
    file_table_block_count = 13;
    block_map_block_count = 160;
    total_files = 100;
    root_dir_block = 0;
  };
  data_area_start = 174;
}

pub large-IsMounted : IsMounted large
large-IsMounted = record {
  addressable = omega arith;
  areas = refl;
  fits = omega arith;
  covered = omega arith;
}

pub large-IsNew : IsNew 0 name large
large-IsNew b j t lt = rooted_names b j

pub root_used : is_unused (entry_at (sector rooted 1) 0) ≡ false
unfolding entry_at pata_read_sector addressed register transfer
root_used = refl

pub second_unused : is_unused (entry_at (sector rooted 1) 1) ≡ true
unfolding entry_at pata_read_sector addressed register transfer
second_unused = refl
