-- ===== src/ChainFs/Map/Search.antt =====
-- `chainfs_find_free_blocks` against the free blocks of the map.
use pizda.Prelude.{
  ℕ, zero, suc, ◌+◌, ◌-◌, ◌*◌, ◌≤◌, ◌<◌, ◌≡◌, ◌≢◌, refl, arith, words, Option, some, none, sub32,
  ◌==◌, if◌then◌else◌, Bool-cases, inl, inr, List, [], ◌∷◌, length, All, ◌↔◌, ==_iff,
}
use Prim.Native.Nat.{min}
use pizda.Pata.{Sector}
use pizda.ChainFs.{
  ChainFs, find_free_loop, free_block, reads_free, chainfs_find_free_blocks, map_entries_per_block,
  map_sector,
}
use pizda.ChainFs.Map.{IsMounted, next_of, buffered, read_buffered, sector}

-- The first `wanted` numbers at which a map is free, of the `rounds` from `i` on.
unfoldable pub free_from : ℕ → ℕ → ℕ → (ℕ → ℕ) → List ℕ
free_from zero i wanted next = []
free_from (suc rounds) i zero next = []
free_from (suc rounds) i (suc wanted) next =
    let taken = free_from rounds (i + 1) wanted next in
    let skipped = free_from rounds (i + 1) (suc wanted) next in
    if next i == free_block then i ∷ taken else skipped

-- How many there are, with no bound on how many are wanted.
unfoldable pub free_count : ℕ → ℕ → (ℕ → ℕ) → ℕ
free_count zero i next = 0
free_count (suc rounds) i next =
    (if next i == free_block then 1 else 0) + free_count rounds (i + 1) next

-- Numbers in strictly ascending order, none below `low`.
unfoldable pub Ascending : ℕ → List ℕ → Type 0
Ascending low [] = Unit
Ascending low (x ∷ xs) = (low ≤ x) × Ascending (suc x) xs

pub Ascending-le : (low low' : ℕ) (xs : List ℕ) → low ≤ low' → Ascending low' xs → Ascending low xs
unfolding Ascending
Ascending-le low low' [] h a = tt
Ascending-le low low' (x ∷ xs) h a = (omega arith, a.1)

-- Every element is free and below the end.
abbrev pub AllFree : ℕ → (ℕ → ℕ) → List ℕ → Type 0
AllFree end next = All (λ x. (x < end) × (next x ≡ free_block))

free_from_sound :
    (rounds i wanted : ℕ) (next : ℕ → ℕ) (end : ℕ)
    → i + rounds ≤ end
    → Ascending i (free_from rounds i wanted next)
      × AllFree end next (free_from rounds i wanted next)
unfolding free_from Ascending
free_from_sound zero i wanted next end h = (tt, tt)
free_from_sound (suc rounds) i zero next end h = (tt, tt)
free_from_sound (suc rounds) i (suc wanted) next end h =
    let (a, f) = free_from_sound rounds (i + 1) wanted next end (omega arith) in
    let (a', f') = free_from_sound rounds (i + 1) (suc wanted) next end (omega arith) in
    elim (Bool-cases (next i == free_block)) [
      | inl e ↦ rw e (
        (omega arith, Ascending-le (suc i) (i + 1) _ (omega arith) a),
        ((omega arith, ground arith), f),
      )
      | inr e ↦ rw e (Ascending-le i (i + 1) _ (omega arith) a', f')
    ]

length-free_from :
    (rounds i wanted : ℕ) (next : ℕ → ℕ)
    → length (free_from rounds i wanted next) ≡ min wanted (free_count rounds i next)
unfolding free_from free_count
length-free_from zero i wanted next = omega arith
length-free_from (suc rounds) i zero next = omega arith
length-free_from (suc rounds) i (suc wanted) next = elim (Bool-cases (next i == free_block)) [
  | inl e ↦ rw e (omega (arith, length-free_from rounds (i + 1) wanted next))
  | inr e ↦ rw e (omega (arith, length-free_from rounds (i + 1) (suc wanted) next))
]

-- The list with its length checked.
abbrev checked : ℕ → List ℕ → Option (List ℕ)
checked count xs = if length xs == count then some xs else none

checked-some :
    (count : ℕ) (xs ys : List ℕ) → checked count xs ≡ some ys → (length xs ≡ count) × (xs ≡ ys)
checked-some count xs ys = elim (Bool-cases (length xs == count)) [
  | inl e ↦ rw e (λ h. ((==_iff (length xs) count).0 e, cc))
  | inr e ↦ rw e (λ h. absurd (cc))
]

checked-none : (count : ℕ) (xs : List ℕ) → (checked count xs ≢ none) ↔ (length xs ≡ count)
checked-none count xs = elim (Bool-cases (length xs == count)) [
  | inl e ↦ rw e (λ h. (==_iff (length xs) count).0 e, λ h k. cc)
  | inr e ↦ rw e (λ h. absurd (h refl), λ h k. cc (e, (==_iff (length xs) count).1 h))
]

module _ (fs : ChainFs) (v : IsMounted fs) where
  -- The loop finds them, and changes nothing but the buffer.
  find_free_loop-free_from :
      (rounds i wanted : ℕ) (b : Sector)
      → i + rounds ≤ fs.superblock.block_map_block_count * map_entries_per_block
      → (b' : Sector) × (find_free_loop rounds i wanted (buffered fs b)
          ≡ (buffered fs b', free_from rounds i wanted (next_of fs)))
  unfolding find_free_loop free_from reads_free
  find_free_loop-free_from zero i wanted b h = (b, refl)
  find_free_loop-free_from (suc rounds) i zero b h = (b, refl)
  find_free_loop-free_from (suc rounds) i (suc wanted) b h =
      let b1 = sector fs (map_sector i fs) in
      let (bt, taken) = find_free_loop-free_from rounds (i + 1) wanted b1 (omega arith) in
      let (bs, skipped) = find_free_loop-free_from rounds (i + 1) (suc wanted) b1 (omega arith) in
      elim (Bool-cases (next_of fs i == free_block)) [
        | inl e ↦ (bt, rw (read_buffered fs v i (omega arith) b, e, taken))
        | inr e ↦ (bs, rw (read_buffered fs v i (omega arith) b, e, skipped))
      ]

  -- The number of blocks of the data area.
  abbrev pub data_blocks : ℕ
  data_blocks = fs.superblock.block_count - fs.data_area_start

  rounds-exact : sub32 fs.superblock.block_count fs.data_area_start ≡ data_blocks
  rounds-exact = omega (words, v.fits, v.addressable)

  -- On a mounted disk, `chainfs_find_free_blocks` looks at the whole data area and succeeds exactly when it holds
  -- `count` free blocks at least. The blocks are then `count` free ones, in ascending order.
  pub chainfs_find_free_blocks_sound :
      (count : ℕ)
      → (b : Sector) × (found : Option (List ℕ)) × (chainfs_find_free_blocks count fs
          ≡ (buffered fs b, found))
        × ((xs : List ℕ)
            → found ≡ some xs
            → (length xs ≡ count) × Ascending 0 xs × AllFree data_blocks (next_of fs) xs)
        × (found ≢ none ↔ count ≤ free_count data_blocks 0 (next_of fs))
  unfolding chainfs_find_free_blocks
  chainfs_find_free_blocks_sound count =
      let xs = free_from data_blocks 0 count (next_of fs) in
      let covered = v.covered in
      let (b, e) = find_free_loop-free_from data_blocks 0 count fs.sector_buffer (omega arith) in
      let size = length-free_from data_blocks 0 count (next_of fs) in
      let (asc, free) =
        free_from_sound data_blocks 0 count (next_of fs) data_blocks (omega arith) in
      (
        b,
        checked count xs,
        rw (rounds-exact, e),
        λ ys h. let (len, same) = checked-some count xs ys h in rw (← same) (len, asc, free),
        (
          λ ne. omega (arith, (checked-none count xs).0 ne),
          λ le. (checked-none count xs).1 (omega arith),
        ),
      )
