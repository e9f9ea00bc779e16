-- ===== src/ChainFs/Files/Write.antt =====
-- How `chainfs_write_file` runs for a new file in the current directory.
use pizda.Prelude.{
  ℕ, ◌+◌, ◌*◌, ◌/◌, ◌≤◌, ◌<◌, ◌≡◌, ◌≢◌, refl, ap, ◌∙◌, arith, words, two32, Option, some, none,
  ==_ne, add32, sub32, List, [], ◌∷◌, length, All,
}
use pizda.Pata.{Sector}
use pizda.Heap.{Heap, kmalloc, kfree}
use pizda.ChainFs.{ChainFs, block_size, type_file, chainfs_find_free_blocks}
use pizda.ChainFs.Map.{IsMounted, next_of, buffered}
use pizda.ChainFs.Map.Search.{
  Ascending, AllFree, free_count, data_blocks, chainfs_find_free_blocks_sound,
}
use pizda.ChainFs.Data.{write_loop}
use pizda.ChainFs.Data.Step.{InData}
use pizda.ChainFs.Volume.{blocks_for}
use pizda.ChainFs.Table.{
  Found, edit_entry, put_entry, chainfs_find_free_file_entry, chainfs_find_in_directory,
}
use pizda.ChainFs.Files.{
  Status, write_parent_in, write_parent, write_place, blocks_needed, put_name, store_allocated,
  store_file, write_at, write_under, chainfs_write_file,
}
use pizda.ChainFs.Paths.Split.{cut_last-none}
use pizda.ChainFs.Paths.Name.{IsNameByte, no_slash, find_file-name, name_of-name, parts_fit-name}

write_parent-name :
    (name : List ℕ) (fs : ChainFs)
    → All IsNameByte name
    → write_parent name fs ≡ (fs, some fs.current_dir_block)
unfolding write_parent
write_parent-name name fs simple =
    ap (write_parent_in fs) (cut_last-none name (no_slash name simple))

pub blocks_needed-le :
    (size : ℕ)
    → size + block_size < two32
    → (1 ≤ blocks_needed size) × (size ≤ block_size * blocks_needed size)
unfolding blocks_for
blocks_needed-le size h =
    let exact : sub32 (add32 size 512) 1 / 512 ≡ (size + 511) / 512 = omega words in
    rw exact (ground arith, ground arith)

AllFree-InData :
    (fs : ChainFs) (v : IsMounted fs) (xs : List ℕ)
    → AllFree (data_blocks fs v) (next_of fs) xs
    → All (InData fs) xs
AllFree-InData fs v [] h = tt
AllFree-InData fs v (x ∷ xs) ((lt, _), h) = (lt, AllFree-InData fs v xs h)

-- Enough free blocks are found, and there is one at least.
pub blocks_found :
    (fs : ChainFs) (v : IsMounted fs) (count : ℕ)
    → 1 ≤ count
    → count ≤ free_count (data_blocks fs v) 0 (next_of fs)
    → (b : Sector) × (x : ℕ) × (xs : List ℕ) × (chainfs_find_free_blocks count fs
        ≡ (buffered fs b, some (x ∷ xs)))
      × (length (x ∷ xs) ≡ count)
      × Ascending 0 (x ∷ xs)
      × All (InData fs) (x ∷ xs)
      × AllFree (data_blocks fs v) (next_of fs) (x ∷ xs)
blocks_found fs v count pos le =
    let (b, found, run, what, succeeds) = chainfs_find_free_blocks_sound fs v count in
    found_blocks b found run what (succeeds.1 le)
  where
    found_blocks :
        (b : Sector) (found : Option (List ℕ))
        → chainfs_find_free_blocks count fs ≡ (buffered fs b, found)
        → ((xs : List ℕ)
            → found ≡ some xs
            → (length xs ≡ count) × Ascending 0 xs × AllFree (data_blocks fs v) (next_of fs) xs)
        → found ≢ none
        → (b : Sector) × (x : ℕ) × (xs : List ℕ) × (chainfs_find_free_blocks count fs
            ≡ (buffered fs b, some (x ∷ xs)))
          × (length (x ∷ xs) ≡ count)
          × Ascending 0 (x ∷ xs)
          × All (InData fs) (x ∷ xs)
          × AllFree (data_blocks fs v) (next_of fs) (x ∷ xs)
    found_blocks b none run what ne = absurd (ne refl)
    found_blocks b (some []) run what ne =
        let (len, _, _) = what [] refl in absurd (omega (arith, len))
    found_blocks b (some (x ∷ xs)) run what ne =
        let (len, asc, free) = what (x ∷ xs) refl in
        (b, x, xs, run, len, asc, AllFree-InData fs v (x ∷ xs) free, free)

-- The state that `store_file` leaves once it has a place and the blocks.
abbrev pub stored_in : List ℕ → (ℕ → ℕ) → ℕ → ℕ → Found → ℕ → List ℕ → ChainFs → ChainFs
stored_in name bytes size parent f x xs fs =
    edit_entry f.block (put_entry f.offset type_file size x parent (put_name f.offset name))
      (write_loop bytes (x ∷ xs) size 0 fs)

module _ (kernel_end : ℕ) (name : List ℕ) (bytes : ℕ → ℕ) (size : ℕ) (heap heap' : Heap) (p : ℕ)
    (allocated : kmalloc kernel_end (4 * blocks_needed size) heap ≡ some (heap', p))
    (some_p : p ≢ 0) where
  store_file-stored_in :
      (parent : ℕ) (f : Found) (fs fs1 : ChainFs) (x : ℕ) (xs : List ℕ)
      → chainfs_find_free_blocks (blocks_needed size) fs ≡ (fs1, some (x ∷ xs))
      → store_file kernel_end name bytes size parent f heap fs
        ≡ some (kfree p heap', stored_in name bytes size parent f x xs fs1, Status.ok)
  unfolding store_file
  store_file-stored_in parent f fs fs1 x xs found =
      ap (store_allocated name bytes size parent f fs) allocated ∙ rw (==_ne p 0 some_p, found)

  pub write_file-stored_in :
      (fuel : ℕ) (fs : ChainFs) (s1 s2 s3 : Sector) (f : Found) (x : ℕ) (xs : List ℕ)
      → All IsNameByte name
      → length name ≤ 29
      → chainfs_find_in_directory fs.current_dir_block name fs ≡ (buffered fs s1, none)
      → chainfs_find_free_file_entry (buffered fs s1) ≡ (buffered fs s2, some f)
      → chainfs_find_free_blocks (blocks_needed size) (buffered fs s2)
        ≡ (buffered fs s3, some (x ∷ xs))
      → chainfs_write_file kernel_end fuel name bytes size heap fs
        ≡ some (
          kfree p heap',
          stored_in name bytes size fs.current_dir_block f x xs (buffered fs s3),
          Status.ok,
        )
  unfolding chainfs_write_file write_place
  write_file-stored_in fuel fs s1 s2 s3 f x xs simple short absent place blocks =
      let dir = fs.current_dir_block in
      let search = find_file-name name simple fs ∙ absent in
      rw (parts_fit-name name simple short, name_of-name name simple, search)
        (ap (write_under kernel_end fuel name bytes size heap none)
            (write_parent-name name (buffered fs s1) simple)
          ∙ ap
              (λ (r : ChainFs × Option Found).
                write_at kernel_end name bytes size dir heap (some r))
              place
          ∙ store_file-stored_in dir f (buffered fs s2) (buffered fs s3) x xs blocks)
