-- ===== src/ChainFs/Data/Step.antt =====
-- One round of the loop of `chainfs_write_file`, and all of them.
use pizda.Prelude.{
  ℕ, ◌+◌, ◌-◌, ◌%◌, ◌^◌, ◌≤◌, ◌<◌, ◌≡◌, refl, ap, ◌∙◌, arith, words, two32, ◌⊎◌, Bool, ◌==◌, ==_ne,
  if◌then◌else◌, add32,
}
use pizda.Pata.{Sector}
use pizda.Pata.Registers.{read-write}
use pizda.ChainFs.{ChainFs, write_sector, map_sector, chainfs_write_block_map_entry}
use pizda.ChainFs.Map.{
  IsMounted, InMap, next_of, sector, edited, write_map, next_of-write_map, sector-write_map,
  map_sector-lt, map_sector-exact, edited-IsMounted,
}
use pizda.ChainFs.Data.{write_block}

-- A block of the data area.
abbrev pub InData : ChainFs → ℕ → Type 0
InData fs x = x < fs.superblock.block_count - fs.data_area_start

module _ (fs : ChainFs) (v : IsMounted fs) (x : ℕ) (content : Sector) (h : InData fs x) where
  abbrev place : ℕ
  place = fs.data_area_start + x

  abbrev written : ChainFs
  written = write_sector place (record fs { sector_buffer = content })

  InData-InMap : InMap fs x
  InData-InMap = omega (arith, v.covered)

  place-lt : place < 2 ^ 28
  place-lt = omega (arith, v.addressable, v.fits)

  place-exact : add32 fs.data_area_start x ≡ place
  place-exact = omega (words, place-lt)

  written-IsMounted : IsMounted written
  unfolding write_sector
  written-IsMounted = record {
    addressable = v.addressable;
    areas = v.areas;
    fits = v.fits;
    covered = v.covered;
  }

  written-sector :
      (k : ℕ) → k < 2 ^ 28 → sector written k ≡ (if k == place then content else sector fs k)
  unfolding write_sector
  written-sector k lt =
      let e1 : k % 2 ^ 28 ≡ k = omega arith in
      let e2 : place % 2 ^ 28 ≡ place = omega (arith, place-lt) in
      read-write place k content fs.disk ∙ rw (e1, e2)

  written-next_of : (j : ℕ) → InMap fs j → next_of written j ≡ next_of fs j
  unfolding next_of
  written-next_of j hj =
      let lt = map_sector-lt fs v j hj in
      let bound = place-lt in
      let same : map_sector j written ≡ map_sector j fs = unfold map_sector write_sector in refl in
      let off : sector written (map_sector j fs) ≡ sector fs (map_sector j fs) =
        written-sector (map_sector j fs) (omega arith)
        ∙ rw (==_ne (map_sector j fs) place (omega arith)) in
      rw (same, off)

  module _ (next : ℕ) where
    abbrev stepped : ChainFs
    stepped = edited written x next

    map-written : InMap written x
    map-written = unfold write_sector in InData-InMap

    write_block-stepped : write_block x next content fs ≡ stepped
    unfolding write_block
    write_block-stepped =
        let filled : ChainFs = record fs { sector_buffer = content } in
        ap (λ (k : ℕ). (chainfs_write_block_map_entry x next (write_sector k filled)).0) place-exact
        ∙ ap (λ (r : ChainFs × Bool). r.0) (write_map written written-IsMounted x map-written next)

    stepped-IsMounted : IsMounted stepped
    stepped-IsMounted = edited-IsMounted written x next written-IsMounted

    stepped-layout :
        (stepped.superblock ≡ fs.superblock)
        × (stepped.data_area_start ≡ fs.data_area_start)
        × (stepped.current_dir_block ≡ fs.current_dir_block)
    stepped-layout = unfold write_sector in (refl, refl, refl)

    stepped-sector :
        (k : ℕ)
        → k < 2 ^ 28
        → (k < 1 + fs.superblock.file_table_block_count) ⊎ (fs.data_area_start ≤ k)
        → sector stepped k ≡ (if k == place then content else sector fs k)
    stepped-sector k lt far =
        let exact = map_sector-exact fs v x InData-InMap in
        let below = map_sector-lt fs v x InData-InMap in
        let same : map_sector x written ≡ map_sector x fs =
          unfold map_sector write_sector in refl in
        sector-write_map written written-IsMounted x map-written next k lt (omega arith)
        ∙ written-sector k lt

    stepped-next_of :
        (j : ℕ) → InMap fs j → next_of stepped j ≡ (if j == x then next % two32 else next_of fs j)
    stepped-next_of j hj =
        let hj' : InMap written j = unfold write_sector in hj in
        next_of-write_map written written-IsMounted x map-written next j hj'
        ∙ rw (written-next_of j hj)

-- What a round leaves, with the state of the round shut.
pub record Stepped (fs : ChainFs) (x next : ℕ) (content : Sector) (fs' : ChainFs) : Type 0 where
  pub mounted : IsMounted fs'
  pub superblock : fs'.superblock ≡ fs.superblock
  pub data_area_start : fs'.data_area_start ≡ fs.data_area_start
  pub current_dir_block : fs'.current_dir_block ≡ fs.current_dir_block
  pub sectors :
      (k : ℕ)
      → k < 2 ^ 28
      → (k < 1 + fs.superblock.file_table_block_count) ⊎ (fs.data_area_start ≤ k)
      → sector fs' k ≡ (if k == fs.data_area_start + x then content else sector fs k)
  pub entries :
      (j : ℕ) → InMap fs j → next_of fs' j ≡ (if j == x then next % two32 else next_of fs j)

pub write_block-Stepped :
    (fs : ChainFs) (x next : ℕ) (content : Sector)
    → IsMounted fs
    → InData fs x
    → Stepped fs x next content (write_block x next content fs)
write_block-Stepped fs x next content v h = rw (write_block-stepped fs v x content h next) (
    let (s, d, c) = stepped-layout fs v x content h next in
    record {
      mounted = stepped-IsMounted fs v x content h next;
      superblock = s;
      data_area_start = d;
      current_dir_block = c;
      sectors = stepped-sector fs v x content h next;
      entries = stepped-next_of fs v x content h next;
    })
