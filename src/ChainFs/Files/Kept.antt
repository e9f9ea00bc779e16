-- ===== src/ChainFs/Files/Kept.antt =====
-- The data of a file stay stored when an entry of the table is edited.
use pizda.Prelude.{ℕ, ◌+◌, ◌-◌, ◌≡◌, ap, ◌∙◌, arith, List, [], ◌∷◌}
use pizda.Pata.{Sector}
use pizda.ChainFs.{ChainFs, map_sector}
use pizda.ChainFs.Map.{IsMounted, InMap, next_of, sector, map_sector-exact, map_sector-lt}
use pizda.ChainFs.Data.{chunk}
use pizda.ChainFs.Data.Step.{InData}
use pizda.ChainFs.Data.Store.{Stored}
use pizda.ChainFs.Table.Lookup.{Edited, InTable}

module _ (block : ℕ) (edit : Sector → Sector) (fs fs' : ChainFs) (v : IsMounted fs)
    (t : InTable fs block) (c : Edited block edit fs fs') where
  map_sector-edit : (x : ℕ) → map_sector x fs' ≡ map_sector x fs
  unfolding map_sector
  map_sector-edit x = rw (c.superblock)

  pub next_of-edit : (x : ℕ) → InMap fs x → next_of fs' x ≡ next_of fs x
  unfolding next_of
  next_of-edit x h =
      let exact = map_sector-exact fs v x h in
      let below = map_sector-lt fs v x h in
      let far : sector fs' (map_sector x fs) ≡ sector fs (map_sector x fs) =
        c.others (map_sector x fs) (omega (arith, v.fits, v.addressable)) (omega (arith, t.1)) in
      rw (map_sector-edit x, far)

  InData-edit : (x : ℕ) → InData fs x → InData fs' x
  InData-edit x h = rw (c.superblock, c.data_area_start) h

  sector-edit :
      (x : ℕ)
      → InData fs x
      → sector fs' (fs'.data_area_start + x) ≡ sector fs (fs.data_area_start + x)
  sector-edit x h =
      ap (λ (k : ℕ). sector fs' (k + x)) (c.data_area_start)
      ∙ c.others (fs.data_area_start + x) (omega (arith, v.fits, v.addressable))
          (omega (arith, t.1, v.areas))

  pub Stored-edit :
      (bytes : ℕ → ℕ) (xs : List ℕ) (offset remaining : ℕ)
      → Stored fs bytes offset remaining xs
      → Stored fs' bytes offset remaining xs
  Stored-edit bytes [] offset remaining st = tt
  Stored-edit bytes (x ∷ xs) offset remaining (h, content, next, rest) = (
    InData-edit x h,
    λ j lt. ap (λ (s : Sector). s j) (sector-edit x h) ∙ content j lt,
    next_of-edit x (omega (arith, v.covered)) ∙ next,
    Stored-edit bytes xs (offset + chunk remaining) (remaining - chunk remaining) rest,
  )
