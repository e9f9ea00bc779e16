-- ===== src/ChainFs/Map.antt =====
-- The block map of ChainFS: what a read of an entry gives and what a write changes.
pub mod Search
pub mod Release
use pizda.Prelude.{
  ℕ, ◌+◌, ◌-◌, ◌*◌, ◌/◌, ◌%◌, ◌^◌, ◌≤◌, ◌<◌, ◌≡◌, ◌≢◌, refl, ap, sym, ◌∙◌, arith, words, two32, ◌⊎◌,
  inl, inr, Option, some, none, Bool, true, false, ◌==◌, ==_ne, ==_eq, ℕ-cases, if◌then◌else◌, leb,
  add32,
}
use pizda.Pata.{Sector, Disk, pata_read_sector, pata_write_sector}
use pizda.Pata.Registers.{read-write}
use pizda.ChainFs.{
  ChainFs, Superblock, get32, put32, read_sector, write_sector, map_sector, map_offset, out_of_map,
  map_entries_per_block, chainfs_read_block_map_entry, chainfs_write_block_map_entry,
}
use pizda.ChainFs.Fields.{get32-put32_self, get32-put32_ne}

-- The layout of a mounted disk: the superblock, the file table, the map and the data area follow
-- one another, the map has an entry for each data block, and 28 bits address every sector.
pub record IsMounted (fs : ChainFs) : Type 0 where
  pub addressable : fs.superblock.block_count ≤ 2 ^ 28
  pub areas :
      fs.data_area_start
      ≡ 1 + fs.superblock.file_table_block_count + fs.superblock.block_map_block_count
  pub fits : fs.data_area_start ≤ fs.superblock.block_count
  pub covered :
      fs.superblock.block_count
      ≤ fs.data_area_start + fs.superblock.block_map_block_count * map_entries_per_block

-- A block number that has an entry in the map.
abbrev pub InMap : ChainFs → ℕ → Type 0
InMap fs i = i < fs.superblock.block_map_block_count * map_entries_per_block

-- The sector `k` of the disk.
abbrev pub sector : ChainFs → ℕ → Sector
sector fs k = pata_read_sector k fs.disk

-- The value of the map for the block `i`.
unfoldable pub next_of : ChainFs → ℕ → ℕ
next_of fs i = get32 (sector fs (map_sector i fs)) (map_offset i)

-- The same state with another buffer: what a read leaves.
abbrev pub buffered : ChainFs → Sector → ChainFs
buffered fs b = record fs { sector_buffer = b }

-- The state after a write of the map's entry `i`.
abbrev pub edited : ChainFs → ℕ → ℕ → ChainFs
edited fs i next =
    write_sector (map_sector i fs)
      (record fs { sector_buffer = put32 (sector fs (map_sector i fs)) (map_offset i) next })

map_offset_apart :
    (i j : ℕ)
    → j ≢ i
    → j / map_entries_per_block ≡ i / map_entries_per_block
    → (map_offset j + 4 ≤ map_offset i) ⊎ (map_offset i + 4 ≤ map_offset j)
unfolding map_offset
map_offset_apart i j ne e = omega arith

map_sector-near :
    (fs : ChainFs) (j i : ℕ)
    → j / map_entries_per_block ≡ i / map_entries_per_block
    → map_sector j fs ≡ map_sector i fs
unfolding map_sector
map_sector-near fs j i e = rw e

module _ (fs : ChainFs) (v : IsMounted fs) (i : ℕ) (h : InMap fs i) where
  pub in_map : out_of_map i fs ≡ false
  unfolding out_of_map
  in_map = ground arith

  pub map_sector-exact :
      map_sector i fs ≡ 1 + fs.superblock.file_table_block_count + i / map_entries_per_block
  unfolding map_sector
  map_sector-exact =
      let bound = v.addressable in let areas = v.areas in let fits = v.fits in omega words

  pub map_sector-lt : map_sector i fs < fs.data_area_start
  map_sector-lt = omega (arith, map_sector-exact, v.areas)

module _ (fs : ChainFs) (v : IsMounted fs) (i : ℕ) (h : InMap fs i) where
  -- A read of an entry in the map succeeds with its value.
  pub read_map :
      chainfs_read_block_map_entry i fs ≡ (read_sector (map_sector i fs) fs, some (next_of fs i))
  unfolding chainfs_read_block_map_entry next_of read_sector
  read_map = rw (in_map fs v i h)

  pub write_map : (next : ℕ) → chainfs_write_block_map_entry i next fs ≡ (edited fs i next, true)
  unfolding chainfs_write_block_map_entry read_sector
  write_map next = rw (in_map fs v i h)

  map_sector-edited : (next j : ℕ) → map_sector j (edited fs i next) ≡ map_sector j fs
  unfolding map_sector write_sector
  map_sector-edited next j = refl

  -- A write of an entry changes the one sector that holds it.
  pub sector-write_map :
      (next k : ℕ) → k < 2 ^ 28 → k ≢ map_sector i fs → sector (edited fs i next) k ≡ sector fs k
  unfolding write_sector
  sector-write_map next k lt ne =
      let below : map_sector i fs < 2 ^ 28 =
        omega (arith, map_sector-lt fs v i h, v.fits, v.addressable) in
      rw (
        read-write (map_sector i fs) k,
        ==_ne (k % 2 ^ 28) (map_sector i fs % 2 ^ 28) (omega arith),
      )

  pub sector-write_map_self :
      (next : ℕ)
      → sector (edited fs i next) (map_sector i fs)
        ≡ put32 (sector fs (map_sector i fs)) (map_offset i) next
  unfolding write_sector
  sector-write_map_self next = rw (
    read-write (map_sector i fs) (map_sector i fs),
    ==_eq (map_sector i fs % 2 ^ 28) (map_sector i fs % 2 ^ 28) refl,
  )

  -- The map after a write: the entry has the new value, and the others keep theirs.
  pub next_of-write_map :
      (next j : ℕ)
      → InMap fs j
      → next_of (edited fs i next) j ≡ (if j == i then next % two32 else next_of fs j)
  unfolding next_of
  next_of-write_map next j hj = elim (ℕ-cases j i) [
    | inl same ↦
        rw (map_sector-edited next j, ==_eq j i same, same, sector-write_map_self next)
          (get32-put32_self _ (map_offset i) next)
    | inr other ↦
        rw (map_sector-edited next j, ==_ne j i other)
          (elim (ℕ-cases (j / map_entries_per_block) (i / map_entries_per_block)) [
            | inl near ↦
                rw (map_sector-near fs j i near, sector-write_map_self next)
                  (get32-put32_ne _ (map_offset i) (map_offset j) next
                    (map_offset_apart i j other near))
            | inr far ↦
                let below = v.addressable in
                let fits = v.fits in
                rw (
                  sector-write_map next (map_sector j fs) (omega (arith, map_sector-lt fs v j hj))
                    (omega (arith, map_sector-exact fs v i h, map_sector-exact fs v j hj)))
          ])
  ]

  in_map_buffered : (b : Sector) → out_of_map i (buffered fs b) ≡ false
  unfolding out_of_map
  in_map_buffered b = in_map fs v i h

  -- The same read, whatever the buffer held.
  pub read_buffered :
      (b : Sector)
      → chainfs_read_block_map_entry i (buffered fs b)
        ≡ (buffered fs (sector fs (map_sector i fs)), some (next_of fs i))
  unfolding chainfs_read_block_map_entry next_of read_sector map_sector
  read_buffered b = rw (in_map_buffered b)

  -- The same write, whatever the buffer held.
  pub write_buffered :
      (b : Sector) (next : ℕ)
      → chainfs_write_block_map_entry i next (buffered fs b) ≡ (edited fs i next, true)
  unfolding chainfs_write_block_map_entry read_sector map_sector
  write_buffered b next = rw (in_map_buffered b)

-- A write of the map keeps the layout.
pub edited-IsMounted : (fs : ChainFs) (i next : ℕ) → IsMounted fs → IsMounted (edited fs i next)
unfolding write_sector
edited-IsMounted fs i next v = record {
  addressable = v.addressable;
  areas = v.areas;
  fits = v.fits;
  covered = v.covered;
}

pub edited-superblock :
    (fs : ChainFs) (i next : ℕ)
    → ((edited fs i next).superblock ≡ fs.superblock)
      × ((edited fs i next).data_area_start ≡ fs.data_area_start)
      × ((edited fs i next).current_dir_block ≡ fs.current_dir_block)
unfolding write_sector
edited-superblock fs i next = (refl, refl, refl)

-- On a mounted disk, for entries that the map has: a read of the map after a write of an entry gives
-- the value written, modulo 2^32, for that entry, and for every other entry what a read before the
-- write gives.
pub read_entry-write_entry :
    (fs : ChainFs) (i j next : ℕ)
    → IsMounted fs
    → InMap fs i
    → InMap fs j
    → (chainfs_read_block_map_entry j (chainfs_write_block_map_entry i next fs).0).1
      ≡ (if j == i then some (next % two32) else (chainfs_read_block_map_entry j fs).1)
read_entry-write_entry fs i j next v hi hj =
    rw
      (
        write_map fs v i hi next,
        read_map (edited fs i next) (edited-IsMounted fs i next v) j (unfold write_sector in hj),
        read_map fs v j hj,
        next_of-write_map fs v i hi next j hj,
      )
      (elim (ℕ-cases j i) [ inl e ↦ rw (==_eq j i e) | inr ne ↦ rw (==_ne j i ne) ])
