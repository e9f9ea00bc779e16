-- ===== src/ChainFs/Files.antt =====
-- Files: `chainfs_read_file`, `chainfs_write_file` and `chainfs_delete_file`. The fuel is that of
-- the chains followed. `none` says that it ran out, or that a path overruns a buffer.
pub mod Name
pub mod Kept
pub mod Write
pub mod Created
pub mod RoundTrip
pub mod Returns
pub mod Delete
pub mod Samples
mod Examples
use pizda.Prelude.{
  ℕ, zero, suc, ◌+◌, ◌*◌, Option, none, some, Bool, true, false, ◌==◌, if◌then◌else◌, List, [], ◌∷◌,
  take,
}
use pizda.Pata.{Sector}
use pizda.Heap.{Heap, kmalloc, kfree}
use pizda.ChainFs.{
  ChainFs, block_size, type_file, chainfs_find_free_blocks, chainfs_free_block_chain,
}
use pizda.ChainFs.Data.{write_loop, read_loop}
use pizda.ChainFs.Volume.{blocks_for}
use pizda.ChainFs.Table.{
  Found, is_formatted, chainfs_find_free_file_entry, put_bytes, edit_entry, clear_status, put_entry,
}
use pizda.ChainFs.Paths.{cut_last, name_of, parts_fit, resolve_dir, chainfs_find_file}

-- The results 0, -1 and -2.
pub data Status : Type 0 where
  ok : Status
  failed : Status
  not_formatted : Status

abbrev pub read_result : Option (ChainFs × ℕ × (ℕ → ℕ)) → Option (ChainFs × Option (ℕ × (ℕ → ℕ)))
read_result none = none
read_result (some (fs, copied, out)) = some (fs, some (copied, out))

-- What the search found is read.
abbrev pub read_found :
    ℕ → ℕ → (ℕ → ℕ) → ChainFs × Option Found → Option (ChainFs × Option (ℕ × (ℕ → ℕ)))
read_found fuel buffer_size buffer (fs, none) = some (fs, none)
read_found fuel buffer_size buffer (fs, some f) =
    read_result (read_loop fuel buffer_size f.entry.size 0 f.entry.start_block buffer fs)

-- `bytes_read` and the caller's buffer with the result 0.
unfoldable pub chainfs_read_file :
    ℕ → List ℕ → ℕ → (ℕ → ℕ) → ChainFs → Option (ChainFs × Option (ℕ × (ℕ → ℕ)))
chainfs_read_file fuel filename buffer_size buffer fs =
    read_found fuel buffer_size buffer (chainfs_find_file filename fs)

-- The block that `parent_block` gets: -1 is `none`.
abbrev pub write_parent_in : ChainFs → Option (List ℕ × List ℕ) → ChainFs × Option ℕ
write_parent_in fs none = (fs, some fs.current_dir_block)
write_parent_in fs (some ([], after)) = (fs, some fs.superblock.root_dir_block)
write_parent_in fs (some (c ∷ before, after)) = resolve_dir (c ∷ before) fs

unfoldable pub write_parent : List ℕ → ChainFs → ChainFs × Option ℕ
write_parent filename fs = write_parent_in fs (cut_last filename)

abbrev pub place_of : Found → Option ChainFs → Option (ChainFs × Option Found)
place_of f none = none
place_of f (some fs) = some (fs, some f)

-- The place of the entry: that of the file, whose blocks are freed, or a free one.
unfoldable pub write_place : ℕ → Option Found → ChainFs → Option (ChainFs × Option Found)
write_place fuel (some f) fs = place_of f (chainfs_free_block_chain fuel f.entry.start_block fs)
write_place fuel none fs = some (chainfs_find_free_file_entry fs)

abbrev pub blocks_needed : ℕ → ℕ
blocks_needed size = if blocks_for size block_size == 0 then 1 else blocks_for size block_size

abbrev pub zeros : ℕ → List ℕ
zeros zero = []
zeros (suc n) = 0 ∷ zeros n

-- 30 zeros, and then 29 bytes of the name at most.
unfoldable pub put_name : ℕ → List ℕ → Sector → Sector
put_name offset name s =
    put_bytes (60 * offset + 2) (take 29 name) (put_bytes (60 * offset + 2) (zeros 30) s)

abbrev pub first_block : List ℕ → ℕ
first_block [] = 0
first_block (x ∷ xs) = x

-- From the search of the free blocks on.
abbrev pub store_blocks :
    List ℕ → (ℕ → ℕ) → ℕ → ℕ → Found → ChainFs × Option (List ℕ) → ChainFs × Status
store_blocks name bytes size parent f (fs, none) = (fs, Status.failed)
store_blocks name bytes size parent f (fs, some xs) =
    let edit = put_entry f.offset type_file size (first_block xs) parent (put_name f.offset name) in
    (edit_entry f.block edit (write_loop bytes xs size 0 fs), Status.ok)

-- After the call of `kmalloc`, which gives 0 where it fails.
abbrev pub store_allocated :
    List ℕ
    → (ℕ → ℕ)
    → ℕ
    → ℕ
    → Found
    → ChainFs
    → Option (Heap × ℕ)
    → Option (Heap × ChainFs × Status)
store_allocated name bytes size parent f fs none = none
store_allocated name bytes size parent f fs (some (heap, p)) =
    let stored =
      store_blocks name bytes size parent f (chainfs_find_free_blocks (blocks_needed size) fs) in
    if p == 0 then some (heap, fs, Status.failed) else some (kfree p heap, stored.0, stored.1)

-- From the allocation of `allocated_blocks` on.
unfoldable pub store_file :
    ℕ → List ℕ → (ℕ → ℕ) → ℕ → ℕ → Found → Heap → ChainFs → Option (Heap × ChainFs × Status)
store_file kernel_end name bytes size parent f heap fs =
    store_allocated name bytes size parent f fs (kmalloc kernel_end (4 * blocks_needed size) heap)

-- With the place of the entry.
abbrev pub write_at :
    ℕ
    → List ℕ
    → (ℕ → ℕ)
    → ℕ
    → ℕ
    → Heap
    → Option (ChainFs × Option Found)
    → Option (Heap × ChainFs × Status)
write_at kernel_end name bytes size parent heap none = none
write_at kernel_end name bytes size parent heap (some (fs, none)) =
    some (heap, fs, if is_formatted fs then Status.failed else Status.not_formatted)
write_at kernel_end name bytes size parent heap (some (fs, some f)) =
    store_file kernel_end name bytes size parent f heap fs

-- With the parent's block, or `none` where the path has no such directory.
abbrev pub write_under :
    ℕ
    → ℕ
    → List ℕ
    → (ℕ → ℕ)
    → ℕ
    → Heap
    → Option Found
    → ChainFs × Option ℕ
    → Option (Heap × ChainFs × Status)
write_under kernel_end fuel name bytes size heap found (fs, none) = some (heap, fs, Status.failed)
write_under kernel_end fuel name bytes size heap found (fs, some parent) =
    write_at kernel_end name bytes size parent heap (write_place fuel found fs)

unfoldable pub chainfs_write_file :
    ℕ → ℕ → List ℕ → (ℕ → ℕ) → ℕ → Heap → ChainFs → Option (Heap × ChainFs × Status)
chainfs_write_file kernel_end fuel filename bytes size heap fs =
    let (fs1, found) = chainfs_find_file filename fs in
    if parts_fit filename
    then write_under kernel_end fuel (name_of filename) bytes size heap found
        (write_parent filename fs1)
    else none

-- With the chain of the entry freed.
abbrev pub delete_entry : Found → Option ChainFs → Option (ChainFs × Bool)
delete_entry f none = none
delete_entry f (some fs) = some (edit_entry f.block (clear_status f.offset) fs, true)

abbrev pub delete_found : ℕ → ChainFs × Option Found → Option (ChainFs × Bool)
delete_found fuel (fs, none) = some (fs, false)
delete_found fuel (fs, some f) =
    delete_entry f (chainfs_free_block_chain fuel f.entry.start_block fs)

unfoldable pub chainfs_delete_file : ℕ → List ℕ → ChainFs → Option (ChainFs × Bool)
chainfs_delete_file fuel filename fs = delete_found fuel (chainfs_find_file filename fs)
