-- ===== src/ChainFs/Data.antt =====
-- The data loops of `chainfs_write_file` and `chainfs_read_file`. Memory that the caller passes is a
-- function from positions to bytes.
pub mod Step
pub mod Store
pub mod Load
pub mod RoundTrip
pub mod Delete
use pizda.Prelude.{
  ℕ, zero, suc, ◌+◌, ◌-◌, ◌/◌, Option, none, some, Bool, true, false, ◌&&◌, not, ◌==◌, leb, ltb,
  if◌then◌else◌, add32, List, [], ◌∷◌,
}
use pizda.Pata.{Sector}
use pizda.ChainFs.{
  ChainFs, block_size, eof_marker, read_sector, write_sector, chainfs_read_block_map_entry,
  chainfs_write_block_map_entry,
}

-- `to_copy`: what is left, a block at most.
abbrev pub chunk : ℕ → ℕ
chunk remaining = if ltb block_size remaining then block_size else remaining

-- The buffer cleared, and then `n` bytes of the data copied into it.
unfoldable pub fill : (ℕ → ℕ) → ℕ → ℕ → Sector → Sector
fill bytes offset n buffer j =
    if ltb j n then bytes (offset + j) else if ltb j block_size then 0 else buffer j

-- `(i + 1 < blocks_needed) ? allocated_blocks[i + 1] : CHAINFS_EOF_MARKER`
abbrev pub next_or_eof : List ℕ → ℕ
next_or_eof [] = eof_marker
next_or_eof (x ∷ xs) = x

-- One round: the sector of the block and the entry of the map.
unfoldable pub write_block : ℕ → ℕ → Sector → ChainFs → ChainFs
write_block x next content fs =
    let filled = record fs { sector_buffer = content } in
    let written = write_sector (add32 fs.data_area_start x) filled in
    (chainfs_write_block_map_entry x next written).0

-- The loop of `chainfs_write_file` over the allocated blocks.
unfoldable pub write_loop : (ℕ → ℕ) → List ℕ → ℕ → ℕ → ChainFs → ChainFs
write_loop bytes [] remaining offset fs = fs
write_loop bytes (x ∷ xs) remaining offset fs =
    let n = chunk remaining in
    write_loop bytes xs (remaining - n) (add32 offset n)
      (write_block x (next_or_eof xs) (fill bytes offset n fs.sector_buffer) fs)

-- `to_copy` of the read loop: cut where the caller's buffer ends.
abbrev pub read_chunk : ℕ → ℕ → ℕ → ℕ
read_chunk remaining copied capacity =
    if ltb capacity (add32 copied (chunk remaining)) then capacity - copied else chunk remaining

abbrev pub copy_out : Sector → ℕ → ℕ → (ℕ → ℕ) → ℕ → ℕ
copy_out s copied n out j = if leb copied j && ltb j (copied + n) then s (j - copied) else out j

-- `current` follows the map; a read that fails ends the loop.
abbrev pub follow_entry :
    ℕ
    → (ℕ → ℕ)
    → (ℕ → ChainFs → Option (ChainFs × ℕ × (ℕ → ℕ)))
    → ChainFs × Option ℕ
    → Option (ChainFs × ℕ × (ℕ → ℕ))
follow_entry copied out next (fs, none) = some (fs, copied, out)
follow_entry copied out next (fs, some current) = next current fs

-- The loop of `chainfs_read_file`: the bytes copied and the caller's buffer. The fuel bounds the
-- rounds, and `none` says that it ran out.
unfoldable pub read_loop : ℕ → ℕ → ℕ → ℕ → ℕ → (ℕ → ℕ) → ChainFs → Option (ChainFs × ℕ × (ℕ → ℕ))
read_loop zero capacity remaining copied current out fs = none
read_loop (suc fuel) capacity remaining copied current out fs =
    let loaded = read_sector (add32 fs.data_area_start current) fs in
    let n = read_chunk remaining copied capacity in
    let out' = copy_out loaded.sector_buffer copied n out in
    let copied' = add32 copied n in
    let next = λ (x : ℕ) (g : ChainFs). read_loop fuel capacity (remaining - n) copied' x out' g in
    let follow = follow_entry copied' out' next (chainfs_read_block_map_entry current loaded) in
    let last = read_loop fuel capacity (remaining - n) copied' current out' loaded in
    if ltb 0 remaining && not (current == eof_marker) && ltb copied capacity
    then (if ltb 0 (remaining - n) then follow else last)
    else some (fs, copied, out)
