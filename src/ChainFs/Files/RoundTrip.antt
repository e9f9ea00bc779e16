-- ===== src/ChainFs/Files/RoundTrip.antt =====
-- A file that `chainfs_write_file` creates is what `chainfs_read_file` reads and
-- `chainfs_delete_file` deletes.
use pizda.Prelude.{
  ℕ, ◌+◌, ◌*◌, ◌≤◌, ◌<◌, ◌≡◌, ◌≢◌, refl, ap, ◌∙◌, arith, two32, some, true, List, ◌∷◌, length, All,
}
use pizda.Pata.{Sector}
use pizda.Heap.{Heap, align16, kfree}
use pizda.Heap.Blocks.{Block, alloc_ptr}
use pizda.Heap.State.{IsHeap}
use pizda.Heap.Kmalloc.{kmalloc-alloc}
use pizda.Heap.Kfree.{kfree-kmalloc}
use pizda.ChainFs.{ChainFs, chainfs_magic, block_size, entries_per_block, map_sector}
use pizda.ChainFs.Map.{IsMounted, InMap, next_of, buffered, sector}
use pizda.ChainFs.Map.Search.{free_count, data_blocks, AllFree}
use pizda.ChainFs.Data.{read_loop}
use pizda.ChainFs.Data.Load.{Prefix, Reads-size, read_loop-Stored}
use pizda.ChainFs.Table.{Found, entry_at, is_unused}
use pizda.ChainFs.Table.Lookup.{InTable, IsNew}
use pizda.ChainFs.Table.Search.{buffered-IsMounted, name_not_found, entry_found}
use pizda.ChainFs.Paths.Name.{IsNameByte, find_file-name}
use pizda.ChainFs.Files.{
  Status, blocks_needed, read_result, read_found, chainfs_read_file, chainfs_write_file,
  chainfs_delete_file,
}
use pizda.ChainFs.Files.Created.{Created, stored-Created}
use pizda.ChainFs.Files.Write.{blocks_needed-le, blocks_found, stored_in, write_file-stored_in}
use pizda.ChainFs.Files.Delete.{freed_before, Created-delete}

next_of-buffered : (fs : ChainFs) (b : Sector) (j : ℕ) → next_of (buffered fs b) j ≡ next_of fs j
unfolding next_of map_sector
next_of-buffered fs b j = refl

-- A read of the new file gives the data.
Created-read :
    (fs fs' : ChainFs) (name : List ℕ) (bytes : ℕ → ℕ) (size : ℕ) (f : Found) (x : ℕ) (xs : List ℕ)
    (fuel capacity : ℕ) (out : ℕ → ℕ)
    → Created fs name bytes size f x xs fs'
    → All IsNameByte name
    → size ≤ block_size * length (x ∷ xs)
    → length (x ∷ xs) < fuel
    → size ≤ capacity
    → capacity < two32
    → (b : Sector) × (out' : ℕ → ℕ) × (chainfs_read_file fuel name capacity out fs'
        ≡ some (buffered fs' b, some (size, out')))
      × Prefix bytes size out'
unfolding chainfs_read_file
Created-read fs fs' name bytes size f x xs fuel capacity out c simple enough more room cap_small =
    let (s, g, run, _, _, sized, started) = c.find in
    let (b, out', loop, pre) = Reads-size fs' bytes (0 + size) size (omega arith) (
      read_loop-Stored xs fs' bytes x fuel capacity size 0 out s c.mounted c.contents enough
        (omega arith) cap_small more (λ j ltj. absurd (omega arith))) in
    (
      b,
      out',
      ap (read_found fuel capacity out) (find_file-name name simple fs' ∙ run)
          ∙ ap
              (λ (k : ℕ).
                read_result (read_loop fuel capacity k 0 g.entry.start_block out (buffered fs' s)))
              sized
          ∙ ap (λ (k : ℕ). read_result (read_loop fuel capacity size 0 k out (buffered fs' s)))
              started
          ∙ ap read_result loop,
      pre,
    )

module _ (kernel_end fuel size block offset : ℕ) (name : List ℕ) (bytes : ℕ → ℕ) (heap : Heap)
    (bs : List Block) (fs : ChainFs) (v : IsMounted fs)
    (magic : fs.superblock.magic ≡ chainfs_magic) (word : fs.current_dir_block < two32)
    (simple : All IsNameByte name) (short : length name ≤ 29)
    (new : IsNew fs.current_dir_block name fs) (t : InTable fs block)
    (lt : offset < entries_per_block)
    (unused : is_unused (entry_at (sector fs block) offset) ≡ true)
    (free : blocks_needed size ≤ free_count (data_blocks fs v) 0 (next_of fs))
    (valid : IsHeap heap bs)
    (fits : alloc_ptr (align16 (4 * blocks_needed size)) heap.heap_start bs ≢ 0)
    (small : size + block_size < two32) where
  -- The call succeeds, leaves the heap's blocks alone, and creates the file.
  create :
      (heap' : Heap) × (fs' : ChainFs) × (b : Sector) × (f : Found) × (x : ℕ) × (xs : List ℕ)
      × (chainfs_write_file kernel_end fuel name bytes size heap fs ≡ some (heap', fs', Status.ok))
      × IsHeap heap' bs
      × Created (buffered fs b) name bytes size f x xs fs'
      × (length (x ∷ xs) ≡ blocks_needed size)
      × AllFree (data_blocks fs v) (next_of (buffered fs b)) (x ∷ xs)
  create =
      let dir = fs.current_dir_block in
      let (pos, enough) = blocks_needed-le size small in
      let some_bytes : 0 < 4 * blocks_needed size = omega (arith, pos) in
      let allocated = kmalloc-alloc kernel_end valid (4 * blocks_needed size) some_bytes in
      let p = alloc_ptr (align16 (4 * blocks_needed size)) heap.heap_start bs in
      let (s1, absent) = name_not_found fs v name new in
      let (s2, f, place, tf, ltf, _, _) =
        entry_found (buffered fs s1) (buffered-IsMounted fs s1 v) block offset magic t lt unused in
      let (s3, x, xs, blocks, len, asc, inside, were_free) =
        blocks_found (buffered fs s2) (buffered-IsMounted fs s2 v) (blocks_needed size) pos
          (unfold next_of map_sector in free) in
      let fs3 = buffered fs s3 in
      (
        kfree p allocated.heap,
        stored_in name bytes size dir f x xs fs3,
        s3,
        f,
        x,
        xs,
        write_file-stored_in kernel_end name bytes size heap allocated.heap p allocated.result fits
            fuel fs s1 s2 s3 f x xs simple short absent place blocks,
        kfree-kmalloc kernel_end (4 * blocks_needed size) valid some_bytes allocated.result fits,
        stored-Created fs3 (buffered-IsMounted fs s3 v) f tf ltf word name simple short new x xs asc
            inside bytes size (omega arith) (rw len enough),
        len,
        (unfold next_of map_sector in were_free),
      )

  -- `chainfs_write_file` creates a file in the current directory and succeeds, and
  -- `chainfs_read_file` then gives the data back; the heap has the same blocks as before. The
  -- conditions: the disk is mounted and has the magic number; the name has 29 bytes at most, no NUL
  -- and no slash, and no entry of the table has it in the directory; an entry of the table is unused,
  -- and the data area has the free blocks that the data need; the heap has room for the list of the
  -- blocks; the data, with a block, and the caller's buffer are below 2^32 bytes, the data fit in
  -- the buffer, and the fuel is more than the number of the blocks.
  pub chainfs_read_file-chainfs_write_file :
      (capacity : ℕ) (out : ℕ → ℕ)
      → size ≤ capacity
      → capacity < two32
      → blocks_needed size < fuel
      → (heap' : Heap) × (fs' : ChainFs) × (b : Sector) × (out' : ℕ → ℕ) × (chainfs_write_file
            kernel_end fuel name bytes size heap fs
          ≡ some (heap', fs', Status.ok))
        × IsHeap heap' bs
        × (chainfs_read_file fuel name capacity out fs' ≡ some (buffered fs' b, some (size, out')))
        × Prefix bytes size out'
  chainfs_read_file-chainfs_write_file capacity out room cap_small more =
      let (heap', fs', s, f, x, xs, run, heap_same, c, len, _) = create in
      let (pos, enough) = blocks_needed-le size small in
      let (b, out', read, pre) =
        Created-read (buffered fs s) fs' name bytes size f x xs fuel capacity out c simple
          (rw len enough) (rw len more) room cap_small in
      (heap', fs', b, out', run, heap_same, read, pre)

  -- `chainfs_delete_file` of a file that `chainfs_write_file` created in the current directory
  -- succeeds and undoes it: the disk is mounted, the block map has the entries that it had before,
  -- and again no entry of the table has the name in the directory. The conditions: the disk is
  -- mounted and has the magic number; the name has 29 bytes at most, no NUL and no slash, and no
  -- entry of the table has it in the directory; an entry of the table is unused, and the data area
  -- has the free blocks that the data need; the heap has room for the list of the blocks; the data,
  -- with a block, are below 2^32 bytes, and the fuel is more than the number of the blocks.
  pub chainfs_delete_file-chainfs_write_file :
      blocks_needed size < fuel
      → (heap' : Heap) × (fs' fs'' : ChainFs) × (chainfs_write_file kernel_end fuel name bytes size
            heap fs
          ≡ some (heap', fs', Status.ok))
        × (chainfs_delete_file fuel name fs' ≡ some (fs'', true))
        × IsMounted fs''
        × IsNew fs''.current_dir_block name fs''
        × ((j : ℕ) → InMap fs j → next_of fs'' j ≡ next_of fs j)
  chainfs_delete_file-chainfs_write_file more =
      let (heap', fs', s, f, x, xs, run, heap_same, c, len, were_free) = create in
      let (fs'', deleted, d) =
        Created-delete (buffered fs s) fs' name bytes size f x xs fuel c simple short
          (rw len more) in
      (
        heap',
        fs',
        fs'',
        run,
        deleted,
        d.mounted,
        d.absent,
        λ j m.
            d.entries j m
            ∙ freed_before (data_blocks fs v) (next_of (buffered fs s)) j (x ∷ xs) were_free
            ∙ next_of-buffered fs s j,
      )
