-- ===== src/ChainFs/Data/Store.antt =====
-- What the loop of `chainfs_write_file` leaves on the disk.
use pizda.Prelude.{
  ℕ, suc, ◌+◌, ◌-◌, ◌%◌, ◌≤◌, ◌<◌, ◌≡◌, refl, ap, sym, ◌∙◌, arith, two32, inl, inr, ==_ne, ==_eq,
  List, [], ◌∷◌, All, add32-exact,
}
use mathlib.Core.Path.{subst}
use pizda.Pata.{Sector}
use pizda.ChainFs.{ChainFs}
use pizda.ChainFs.Map.{IsMounted, InMap, next_of, sector}
use pizda.ChainFs.Map.Search.{Ascending}
use pizda.ChainFs.Data.{chunk, fill, next_or_eof, write_block, write_loop}
use pizda.ChainFs.Data.Step.{InData, Stepped, write_block-Stepped}

-- The blocks `xs` hold the `remaining` bytes of the data from `offset` on, 512 to a block, and the
-- map joins them in this order up to the end-of-file mark.
abbrev pub Stored : ChainFs → (ℕ → ℕ) → ℕ → ℕ → List ℕ → Type 0
Stored fs bytes offset remaining [] = Unit
Stored fs bytes offset remaining (x ∷ xs) =
    InData fs x
    × ((j : ℕ) → j < chunk remaining → sector fs (fs.data_area_start + x) j ≡ bytes (offset + j))
    × (next_of fs x ≡ next_or_eof xs)
    × Stored fs bytes (offset + chunk remaining) (remaining - chunk remaining) xs

-- What the loop over the blocks `xs`, none below `low`, leaves alone: the layout, the superblock
-- and the file table, the blocks that are not in `xs` and their entries of the map.
pub record Kept (fs : ChainFs) (low : ℕ) (fs' : ChainFs) : Type 0 where
  pub mounted : IsMounted fs'
  pub superblock : fs'.superblock ≡ fs.superblock
  pub data_area_start : fs'.data_area_start ≡ fs.data_area_start
  pub current_dir_block : fs'.current_dir_block ≡ fs.current_dir_block
  pub table : (k : ℕ) → k < 1 + fs.superblock.file_table_block_count → sector fs' k ≡ sector fs k
  pub lower :
      (j : ℕ)
      → j < low
      → InData fs j
      → sector fs' (fs.data_area_start + j) ≡ sector fs (fs.data_area_start + j)
  pub entries : (j : ℕ) → j < low → InMap fs j → next_of fs' j ≡ next_of fs j

Kept-refl : (fs : ChainFs) (low : ℕ) → IsMounted fs → Kept fs low fs
Kept-refl fs low v = record {
  mounted = v;
  superblock = refl;
  data_area_start = refl;
  current_dir_block = refl;
  table = λ k h. refl;
  lower = λ j h hj. refl;
  entries = λ j h hj. refl;
}

module _ (fs fs1 fs' : ChainFs) (x next : ℕ) (content : Sector) (v : IsMounted fs) (h : InData fs x)
    (s : Stepped fs x next content fs1) (k : Kept fs1 (suc x) fs') where
  InData-step : (j : ℕ) → InData fs j → InData fs1 j
  InData-step j hj = rw (s.superblock, s.data_area_start) hj

  InMap-step : (j : ℕ) → InMap fs j → InMap fs1 j
  InMap-step j hj = rw (s.superblock) hj

  Kept-step : (low : ℕ) → low ≤ x → Kept fs low fs'
  Kept-step low le = record {
    mounted = k.mounted;
    superblock = k.superblock ∙ s.superblock;
    data_area_start = k.data_area_start ∙ s.data_area_start;
    current_dir_block = k.current_dir_block ∙ s.current_dir_block;
    table = λ i hi.
        k.table i (rw (s.superblock) hi)
        ∙ s.sectors i (omega (arith, v.areas, v.fits, v.addressable)) (inl hi)
        ∙ rw (==_ne i (fs.data_area_start + x) (omega (arith, v.areas)));
    lower = λ j hj d.
        rw (s.data_area_start) at (k.lower j (omega arith) (InData-step j d))
        ∙ s.sectors (fs.data_area_start + j) (omega (arith, v.addressable, v.fits))
            (inr (omega arith))
        ∙ rw (==_ne (fs.data_area_start + j) (fs.data_area_start + x) (omega arith));
    entries = λ j hj m.
        k.entries j (omega arith) (InMap-step j m) ∙ s.entries j m ∙ rw (==_ne j x (omega arith));
  }

  InData-after : InData fs' x
  InData-after = rw (k.superblock, s.superblock, k.data_area_start, s.data_area_start) h

  content-after : sector fs' (fs'.data_area_start + x) ≡ content
  content-after =
      let d = InData-step x h in
      let here : sector fs1 (fs.data_area_start + x) ≡ content =
        s.sectors (fs.data_area_start + x) (omega (arith, v.addressable, v.fits))
          (inr (omega arith))
        ∙ rw (==_eq (fs.data_area_start + x) (fs.data_area_start + x) refl) in
      rw (k.data_area_start) (k.lower x (omega arith) d ∙ rw (s.data_area_start) here)

  next-after : next < two32 → next_of fs' x ≡ next
  next-after lt =
      let m : InMap fs x = omega (arith, v.covered) in
      let whole : next % two32 ≡ next = omega arith in
      k.entries x (omega arith) (InMap-step x m) ∙ s.entries x m ∙ rw (==_eq x x refl, whole)

next_or_eof-lt :
    (fs : ChainFs) (xs : List ℕ) → IsMounted fs → All (InData fs) xs → next_or_eof xs < two32
next_or_eof-lt fs [] v h = omega arith
next_or_eof-lt fs (x ∷ xs) v (h, _) = omega (arith, v.addressable)

fill-bytes :
    (bytes : ℕ → ℕ) (offset n : ℕ) (b : Sector) (j : ℕ)
    → j < n
    → fill bytes offset n b j ≡ bytes (offset + j)
unfolding fill
fill-bytes bytes offset n b j h = ground arith

pub All-InData-step :
    (fs fs1 : ChainFs) (xs : List ℕ)
    → fs1.superblock ≡ fs.superblock
    → fs1.data_area_start ≡ fs.data_area_start
    → All (InData fs) xs
    → All (InData fs1) xs
All-InData-step fs fs1 [] es ed h = tt
All-InData-step fs fs1 (x ∷ xs) es ed (h, hs) = (rw (es, ed) h, All-InData-step fs fs1 xs es ed hs)

pub write_loop-nil :
    (bytes : ℕ → ℕ) (remaining offset : ℕ) (fs : ChainFs)
    → write_loop bytes [] remaining offset fs ≡ fs
unfolding write_loop
write_loop-nil bytes remaining offset fs = refl

pub write_loop-cons :
    (bytes : ℕ → ℕ) (x : ℕ) (xs : List ℕ) (remaining offset : ℕ) (fs : ChainFs)
    → offset + chunk remaining < two32
    → write_loop bytes (x ∷ xs) remaining offset fs
      ≡ write_loop bytes xs
          (remaining - chunk remaining)
          (offset + chunk remaining)
          (write_block x (next_or_eof xs) (fill bytes offset (chunk remaining) fs.sector_buffer) fs)
unfolding write_loop
write_loop-cons bytes x xs remaining offset fs h =
    ap
      (λ (o : ℕ).
        write_loop bytes xs (remaining - chunk remaining) o (
          write_block x (next_or_eof xs) (fill bytes offset (chunk remaining) fs.sector_buffer) fs))
      (add32-exact offset (chunk remaining) h)

-- On a mounted disk, for ascending blocks of the data area and an end of the data below 2^32, the
-- loop of `chainfs_write_file` stores the data in the blocks, one after the other, links their
-- entries of the map, and leaves the disk mounted, the superblock, the file table and every block
-- and entry below them alone.
pub write_loop-Stored :
    (xs : List ℕ) (bytes : ℕ → ℕ) (low remaining offset : ℕ) (fs : ChainFs)
    → IsMounted fs
    → Ascending low xs
    → All (InData fs) xs
    → offset + remaining < two32
    → Kept fs low (write_loop bytes xs remaining offset fs)
      × Stored (write_loop bytes xs remaining offset fs) bytes offset remaining xs
write_loop-Stored [] bytes low remaining offset fs v a h fits =
    rw (write_loop-nil bytes remaining offset fs) (Kept-refl fs low v, tt)
write_loop-Stored (x ∷ xs) bytes low remaining offset fs v a (h, hs) fits =
    let n = chunk remaining in
    let next = next_or_eof xs in
    let content = fill bytes offset n fs.sector_buffer in
    let fs1 = write_block x next content fs in
    let s = write_block-Stepped fs x next content v h in
    let a' : Ascending (suc x) xs = unfold Ascending in a.1 in
    let le : low ≤ x = unfold Ascending in a.0 in
    let le_n : n ≤ remaining = ground arith in
    let (k, st) =
      write_loop-Stored xs bytes (suc x) (remaining - n) (offset + n) fs1 s.mounted a'
        (All-InData-step fs fs1 xs s.superblock s.data_area_start hs) (omega arith) in
    let fs' = write_loop bytes xs (remaining - n) (offset + n) fs1 in
    subst (λ g. Kept fs low g × Stored g bytes offset remaining (x ∷ xs))
      (sym (write_loop-cons bytes x xs remaining offset fs (omega arith)))
      (
        Kept-step fs fs1 fs' x next content v h s k low le,
        (
          InData-after fs fs1 fs' x next content v h s k,
          λ j hj.
              ap (λ (c : Sector). c j) (content-after fs fs1 fs' x next content v h s k)
              ∙ fill-bytes bytes offset n fs.sector_buffer j hj,
          next-after fs fs1 fs' x next content v h s k (next_or_eof-lt fs xs v hs),
          st,
        ),
      )
