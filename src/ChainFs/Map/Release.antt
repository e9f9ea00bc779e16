-- ===== src/ChainFs/Map/Release.antt =====
-- `chainfs_free_block_chain` on the chain of a file, and where it does not end.
use pizda.Prelude.{
  ℕ, zero, suc, ◌^◌, ◌≤◌, ◌<◌, ◌≡◌, ◌≢◌, ◌⊎◌, ◌+◌, refl, ap, ◌∙◌, arith, some, none, Bool, false,
  ◌==◌, ==_ne, ==_eq, if◌then◌else◌, List, [], ◌∷◌, length, All, ◌||◌,
}
use pizda.ChainFs.{
  ChainFs, chainfs_free_block_chain, eof_marker, free_block, map_sector, write_sector,
}
use pizda.ChainFs.Map.{
  IsMounted, InMap, next_of, sector, edited, read_buffered, write_buffered, next_of-write_map,
  sector-write_map, map_sector-lt, map_sector-exact, edited-IsMounted, edited-superblock,
}
use pizda.ChainFs.Map.Search.{Ascending}

-- From `start` the map leads through the blocks `xs` to the end-of-file mark.
abbrev pub MapChain : (ℕ → ℕ) → ℕ → List ℕ → Type 0
MapChain next start [] = start ≡ eof_marker
MapChain next start (x ∷ xs) = (start ≡ x) × (x ≢ eof_marker) × MapChain next (next x) xs

abbrev pub has : ℕ → List ℕ → Bool
has j [] = false
has j (x ∷ xs) = j == x || has j xs

-- One round.
free_step :
    (fuel : ℕ) (fs : ChainFs) (v : IsMounted fs) (x : ℕ)
    → InMap fs x
    → x ≢ eof_marker
    → chainfs_free_block_chain (suc fuel) x fs
      ≡ chainfs_free_block_chain fuel (next_of fs x) (edited fs x free_block)
unfolding chainfs_free_block_chain
free_step fuel fs v x h ne =
    let read = read_buffered fs v x h fs.sector_buffer in
    rw (
      ==_ne x eof_marker ne,
      read,
      read,
      write_buffered fs v x h (sector fs (map_sector x fs)) free_block,
    )

-- What the release of the blocks `xs` does: their entries are free, the other entries, the superblock,
-- the file table and the data area are as before, and so is the layout.
pub record Released (fs : ChainFs) (xs : List ℕ) (fs' : ChainFs) : Type 0 where
  pub mounted : IsMounted fs'
  pub superblock : fs'.superblock ≡ fs.superblock
  pub data_area_start : fs'.data_area_start ≡ fs.data_area_start
  pub current_dir_block : fs'.current_dir_block ≡ fs.current_dir_block
  pub entries :
      (j : ℕ) → InMap fs j → next_of fs' j ≡ (if has j xs then free_block else next_of fs j)
  pub sectors :
      (k : ℕ)
      → (k < 1 + fs.superblock.file_table_block_count) ⊎ (fs.data_area_start ≤ k)
      → k < 2 ^ 28
      → sector fs' k ≡ sector fs k

Released-nil : (fs : ChainFs) → IsMounted fs → Released fs [] fs
Released-nil fs v = record {
  mounted = v;
  superblock = refl;
  data_area_start = refl;
  current_dir_block = refl;
  entries = λ j h. refl;
  sectors = λ k h lt. refl;
}

Released-cons :
    (fs : ChainFs) (x : ℕ) (xs : List ℕ) (fs' : ChainFs)
    → IsMounted fs
    → InMap fs x
    → Released (edited fs x free_block) xs fs'
    → Released fs (x ∷ xs) fs'
Released-cons fs x xs fs' v h r =
    let (s, d, c) = edited-superblock fs x free_block in
    record {
      mounted = r.mounted;
      superblock = r.superblock ∙ s;
      data_area_start = r.data_area_start ∙ d;
      current_dir_block = r.current_dir_block ∙ c;
      entries = λ j hj.
          r.entries j (unfold write_sector in hj)
          ∙ rw (next_of-write_map fs v x h free_block j hj) (ground arith);
      sectors = λ k le lt.
          r.sectors k (unfold write_sector in le) lt
          ∙ sector-write_map fs v x h free_block k lt
              (omega (arith, map_sector-exact fs v x h, map_sector-lt fs v x h));
    }

MapChain-frame :
    (fs : ChainFs) (next next' : ℕ → ℕ) (low start : ℕ) (xs : List ℕ)
    → Ascending low xs
    → All (InMap fs) xs
    → ((j : ℕ) → low ≤ j → InMap fs j → next' j ≡ next j)
    → MapChain next start xs
    → MapChain next' start xs
unfolding Ascending
MapChain-frame fs next next' low start [] a m same c = c
MapChain-frame fs next next' low start (x ∷ xs) (le, a) m same (e, ne, c) = (
  e,
  ne,
  rw (same x le m.0) (
      MapChain-frame fs next next' (suc x) (next x) xs a m.1 (λ j h hj. same j (omega arith) hj) c),
)

-- On a mounted disk, `chainfs_free_block_chain` ends on an ascending chain of the map, in as many
-- rounds as it has blocks and one more, and frees the blocks of the chain and nothing else.
pub chainfs_free_block_chain-Released :
    (xs : List ℕ) (fuel start low : ℕ) (fs : ChainFs)
    → IsMounted fs
    → MapChain (next_of fs) start xs
    → Ascending low xs
    → All (InMap fs) xs
    → length xs < fuel
    → (fs' : ChainFs) × (chainfs_free_block_chain fuel start fs ≡ some fs') × Released fs xs fs'
chainfs_free_block_chain-Released xs zero start low fs v c a m h = absurd (omega arith)
chainfs_free_block_chain-Released [] (suc fuel) start low fs v c a m h =
    (fs, unfold chainfs_free_block_chain in rw (==_eq start eof_marker c), Released-nil fs v)
chainfs_free_block_chain-Released (x ∷ xs) (suc fuel) start low fs v (e, ne, c) a m h =
    let a' : Ascending (suc x) xs = unfold Ascending in a.1 in
    let next : MapChain (next_of (edited fs x free_block)) (next_of fs x) xs =
      MapChain-frame fs (next_of fs) _ (suc x) (next_of fs x) xs a' m.1
        (λ j le hj. next_of-write_map fs v x m.0 free_block j hj ∙ rw (==_ne j x (omega arith)))
        c in
    let (fs', run, r) =
      chainfs_free_block_chain-Released xs fuel (next_of fs x) (suc x) (edited fs x free_block)
        (edited-IsMounted fs x free_block v) next a' (unfold write_sector in m.1) (omega arith) in
    (
      fs',
      ap (λ (k : ℕ). chainfs_free_block_chain (suc fuel) k fs) e
          ∙ free_step fuel fs v x m.0 ne
          ∙ run,
      Released-cons fs x xs fs' v m.0 r,
    )

-- On a mounted disk whose map has a free entry for block 0, the release of a chain that starts at
-- block 0 never ends: no number of rounds suffices.
pub chainfs_free_block_chain_diverges :
    (fuel : ℕ) (fs : ChainFs)
    → IsMounted fs
    → InMap fs 0
    → next_of fs 0 ≡ free_block
    → chainfs_free_block_chain fuel 0 fs ≡ none
chainfs_free_block_chain_diverges zero fs v h e = unfold chainfs_free_block_chain in refl
chainfs_free_block_chain_diverges (suc fuel) fs v h e =
    free_step fuel fs v 0 h (omega arith)
    ∙ rw e (
        chainfs_free_block_chain_diverges fuel (edited fs 0 free_block)
          (edited-IsMounted fs 0 free_block v) (unfold write_sector in h)
          (next_of-write_map fs v 0 h free_block 0 h))
