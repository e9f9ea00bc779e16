-- ===== src/ChainFs/Layout/Contents.antt =====
-- The operations on files keep the superblock in memory and the start of the data area, and a write
-- gives back the memory that it takes from the heap.
use pizda.Prelude.{
  ℕ, zero, suc, ◌-◌, ◌*◌, ◌<◌, ◌≡◌, refl, ◌∙◌, arith, Option, some, none, Bool-cases, ℕ-cases, inl,
  inr, ◌==◌, ==_eq, ==_ne, ltb, ◌&&◌, not, List, [], ◌∷◌, IfSome, IfSome-map, add32,
}
use pizda.Pata.{Sector}
use pizda.Heap.{Heap, kmalloc}
use pizda.Heap.Blocks.{Block}
use pizda.Heap.State.{IsHeap}
use pizda.Heap.Kmalloc.{kmalloc_null}
use pizda.Heap.Kfree.{kfree-kmalloc}
use pizda.ChainFs.{
  ChainFs, eof_marker, read_sector, write_sector, chainfs_read_block_map_entry,
  chainfs_find_free_blocks, chainfs_free_block_chain,
}
use pizda.ChainFs.Data.{
  chunk, fill, next_or_eof, write_block, write_loop, read_chunk, copy_out, follow_entry, read_loop,
}
use pizda.ChainFs.Table.{Found}
use pizda.ChainFs.Paths.{cut_last, name_of, parts_fit, chainfs_find_file}
use pizda.ChainFs.Files.{
  Status, read_result, read_found, chainfs_read_file, write_parent_in, write_parent, place_of,
  write_place, blocks_needed, store_blocks, store_allocated, store_file, write_at, write_under,
  chainfs_write_file,
}
use pizda.ChainFs.Layout.{
  layout, Unchanged, read_block_map_entry-layout, write_block_map_entry-layout,
  find_free_blocks-layout, free_block_chain-layout, find_free_file_entry-layout, edit_entry-layout,
}
use pizda.ChainFs.Layout.Names.{Same-trans, find_file-layout, resolve_dir-layout}

abbrev SameRead : ChainFs → Option (ChainFs × ℕ × (ℕ → ℕ)) → Type 0
SameRead fs o = IfSome (λ (r : ChainFs × ℕ × (ℕ → ℕ)). layout r.0 ≡ layout fs) o

SameRead-trans :
    (fs fs' : ChainFs) (o : Option (ChainFs × ℕ × (ℕ → ℕ)))
    → layout fs' ≡ layout fs
    → SameRead fs' o
    → SameRead fs o
SameRead-trans fs fs' o h k =
    IfSome-map (λ (r : ChainFs × ℕ × (ℕ → ℕ)). layout r.0 ≡ layout fs) o (λ r e. e ∙ h) k

write_block-layout :
    (x next : ℕ) (content : Sector) (fs : ChainFs)
    → layout (write_block x next content fs) ≡ layout fs
unfolding write_block write_sector
write_block-layout x next content fs = write_block_map_entry-layout x next _

write_loop-layout :
    (bytes : ℕ → ℕ) (xs : List ℕ) (remaining offset : ℕ) (fs : ChainFs)
    → layout (write_loop bytes xs remaining offset fs) ≡ layout fs
unfolding write_loop
write_loop-layout bytes [] remaining offset fs = refl
write_loop-layout bytes (x ∷ xs) remaining offset fs =
    let n = chunk remaining in
    write_loop-layout bytes xs (remaining - n) (add32 offset n) _
    ∙ write_block-layout x (next_or_eof xs) (fill bytes offset n fs.sector_buffer) fs

follow_entry-layout :
    (copied : ℕ) (out : ℕ → ℕ) (next : ℕ → ChainFs → Option (ChainFs × ℕ × (ℕ → ℕ)))
    (r : ChainFs × Option ℕ)
    → ((current : ℕ) (fs : ChainFs) → SameRead fs (next current fs))
    → SameRead r.0 (follow_entry copied out next r)
follow_entry-layout copied out next (fs, none) ih = refl
follow_entry-layout copied out next (fs, some current) ih = ih current fs

read_loop-layout :
    (fuel capacity remaining copied current : ℕ) (out : ℕ → ℕ) (fs : ChainFs)
    → SameRead fs (read_loop fuel capacity remaining copied current out fs)
unfolding read_loop read_sector
read_loop-layout zero capacity remaining copied current out fs = tt
read_loop-layout (suc fuel) capacity remaining copied current out fs =
    let loaded = read_sector (add32 fs.data_area_start current) fs in
    let n = read_chunk remaining copied capacity in
    let out' = copy_out loaded.sector_buffer copied n out in
    let next =
      λ (x : ℕ) (g : ChainFs). read_loop fuel capacity (remaining - n) (add32 copied n) x out' g in
    let r = chainfs_read_block_map_entry current loaded in
    elim (Bool-cases (ltb 0 remaining && not (current == eof_marker) && ltb copied capacity)) [
      | inr e ↦ rw e refl
      | inl e ↦ rw e (elim (Bool-cases (ltb 0 (remaining - n))) [
        | inr last ↦
            rw last
              (read_loop-layout fuel capacity (remaining - n) (add32 copied n) current out' loaded)
        | inl more ↦ rw more (
            SameRead-trans fs r.0 (follow_entry (add32 copied n) out' next r)
              (read_block_map_entry-layout current loaded)
              (follow_entry-layout (add32 copied n) out' next r
                (λ x g. read_loop-layout fuel capacity (remaining - n) (add32 copied n) x out' g)))
      ])
    ]

read_result-layout :
    (fs : ChainFs) (o : Option (ChainFs × ℕ × (ℕ → ℕ)))
    → SameRead fs o
    → IfSome (Unchanged fs) (read_result o)
read_result-layout fs none h = tt
read_result-layout fs (some (fs', copied, out)) h = h

read_found-layout :
    (fuel size : ℕ) (buffer : ℕ → ℕ) (r : ChainFs × Option Found)
    → IfSome (Unchanged r.0) (read_found fuel size buffer r)
read_found-layout fuel size buffer (fs, none) = refl
read_found-layout fuel size buffer (fs, some f) =
    read_result-layout fs (read_loop fuel size f.entry.size 0 f.entry.start_block buffer fs)
      (read_loop-layout fuel size f.entry.size 0 f.entry.start_block buffer fs)

pub read_file-layout :
    (fuel : ℕ) (name : List ℕ) (size : ℕ) (buffer : ℕ → ℕ) (fs : ChainFs)
    → IfSome (Unchanged fs) (chainfs_read_file fuel name size buffer fs)
unfolding chainfs_read_file
read_file-layout fuel name size buffer fs =
    let r = chainfs_find_file name fs in
    Same-trans fs r.0 (read_found fuel size buffer r) (find_file-layout name fs)
      (read_found-layout fuel size buffer r)

write_parent_in-layout :
    (fs : ChainFs) (cut : Option (List ℕ × List ℕ)) → Unchanged fs (write_parent_in fs cut)
write_parent_in-layout fs none = refl
write_parent_in-layout fs (some ([], after)) = refl
write_parent_in-layout fs (some (c ∷ before, after)) = resolve_dir-layout (c ∷ before) fs

place_of-layout :
    (fs : ChainFs) (f : Found) (o : Option ChainFs)
    → IfSome (λ g. layout g ≡ layout fs) o
    → IfSome (Unchanged fs) (place_of f o)
place_of-layout fs f none h = tt
place_of-layout fs f (some g) h = h

write_place-layout :
    (fuel : ℕ) (found : Option Found) (fs : ChainFs)
    → IfSome (Unchanged fs) (write_place fuel found fs)
unfolding write_place
write_place-layout fuel (some f) fs =
    place_of-layout fs f (chainfs_free_block_chain fuel f.entry.start_block fs)
      (free_block_chain-layout fuel f.entry.start_block fs)
write_place-layout fuel none fs = find_free_file_entry-layout fs

store_blocks-layout :
    (name : List ℕ) (bytes : ℕ → ℕ) (size parent : ℕ) (f : Found) (r : ChainFs × Option (List ℕ))
    → Unchanged r.0 (store_blocks name bytes size parent f r)
store_blocks-layout name bytes size parent f (fs, none) = refl
store_blocks-layout name bytes size parent f (fs, some xs) =
    edit_entry-layout f.block _ (write_loop bytes xs size 0 fs)
    ∙ write_loop-layout bytes xs size 0 fs

-- The heap represents the blocks `bs`, and the layout is that of `fs`.
abbrev pub Restored : List Block → ChainFs → Heap × ChainFs × Status → Type 0
Restored bs fs r = IsHeap r.0 bs × (layout r.1 ≡ layout fs)

store_allocated-Restored :
    (kernel_end : ℕ) (name : List ℕ) (bytes : ℕ → ℕ) (size parent : ℕ) (f : Found) (fs : ChainFs)
    (heap : Heap) (bs : List Block) (r : Option (Heap × ℕ))
    → IsHeap heap bs
    → kmalloc kernel_end (4 * blocks_needed size) heap ≡ r
    → IfSome (Restored bs fs) (store_allocated name bytes size parent f fs r)
store_allocated-Restored kernel_end name bytes size parent f fs heap bs none v e = tt
store_allocated-Restored kernel_end name bytes size parent f fs heap bs (some (heap', p)) v e =
    let pos : 0 < 4 * blocks_needed size = ground arith in
    elim (ℕ-cases p 0) [
      | inl null ↦
          let kept = kmalloc_null kernel_end (4 * blocks_needed size) v pos e null in
          rw (==_eq p 0 null) (kept, refl)
      | inr ne ↦
          let found = chainfs_find_free_blocks (blocks_needed size) fs in
          rw (==_ne p 0 ne) (
            kfree-kmalloc kernel_end (4 * blocks_needed size) v pos e ne,
            store_blocks-layout name bytes size parent f found
                ∙ find_free_blocks-layout (blocks_needed size) fs,
          )
    ]

write_at-Restored :
    (kernel_end : ℕ) (name : List ℕ) (bytes : ℕ → ℕ) (size parent : ℕ) (heap : Heap)
    (bs : List Block) (fs : ChainFs) (o : Option (ChainFs × Option Found))
    → IsHeap heap bs
    → IfSome (Unchanged fs) o
    → IfSome (Restored bs fs) (write_at kernel_end name bytes size parent heap o)
unfolding store_file
write_at-Restored kernel_end name bytes size parent heap bs fs none v h = tt
write_at-Restored kernel_end name bytes size parent heap bs fs (some (g, none)) v h = (v, h)
write_at-Restored kernel_end name bytes size parent heap bs fs (some (g, some f)) v h =
    IfSome-map (Restored bs fs)
      (store_allocated name bytes size parent f g
        (kmalloc kernel_end (4 * blocks_needed size) heap))
      (λ r (k, e). (k, e ∙ h))
      (store_allocated-Restored kernel_end name bytes size parent f g heap bs
        (kmalloc kernel_end (4 * blocks_needed size) heap) v refl)

write_under-Restored :
    (kernel_end fuel : ℕ) (name : List ℕ) (bytes : ℕ → ℕ) (size : ℕ) (heap : Heap) (bs : List Block)
    (fs : ChainFs) (found : Option Found) (r : ChainFs × Option ℕ)
    → IsHeap heap bs
    → Unchanged fs r
    → IfSome (Restored bs fs) (write_under kernel_end fuel name bytes size heap found r)
write_under-Restored kernel_end fuel name bytes size heap bs fs found (g, none) v h = (v, h)
write_under-Restored kernel_end fuel name bytes size heap bs fs found (g, some parent) v h =
    write_at-Restored kernel_end name bytes size parent heap bs fs (write_place fuel found g) v
      (Same-trans fs g (write_place fuel found g) h (write_place-layout fuel found g))

-- A write of a file leaves the heap with the blocks that it had before, whatever it returns.
pub write_file-Restored :
    (kernel_end fuel : ℕ) (name : List ℕ) (bytes : ℕ → ℕ) (size : ℕ) (heap : Heap) (bs : List Block)
    (fs : ChainFs)
    → IsHeap heap bs
    → IfSome (Restored bs fs) (chainfs_write_file kernel_end fuel name bytes size heap fs)
unfolding chainfs_write_file write_parent
write_file-Restored kernel_end fuel name bytes size heap bs fs v =
    let r = chainfs_find_file name fs in
    elim (Bool-cases (parts_fit name)) [
      | inr e ↦ rw e tt
      | inl e ↦ rw e (
          write_under-Restored kernel_end fuel (name_of name) bytes size heap bs fs r.1
            (write_parent name r.0) v
            (write_parent_in-layout r.0 (cut_last name) ∙ find_file-layout name fs))
    ]
