-- ===== src/ChainFs/Volume/Sectors.antt =====
-- The loops of `chainfs_format` that write the buffer to one sector after the other.
use pizda.Prelude.{
  ℕ, zero, suc, ◌+◌, ◌%◌, ◌^◌, ◌≤◌, ◌<◌, ◌≡◌, ◌≢◌, refl, sym, ap, ◌∙◌, arith, inl, inr, Bool, ==_eq,
  ==_ne, ℕ-cases, if◌then◌else◌,
}
use mathlib.Core.Path.{subst}
use pizda.Pata.{pata_read_sector}
use pizda.Pata.Registers.{read-write}
use pizda.ChainFs.{ChainFs, write_sector}
use pizda.ChainFs.Map.{sector}
use pizda.ChainFs.Volume.{write_sectors}

pub sector-write_sector :
    (k j : ℕ) (fs : ChainFs) → j < k → k < 2 ^ 28 → sector (write_sector k fs) j ≡ sector fs j
unfolding write_sector
sector-write_sector k j fs lt small =
    let ne : j % 2 ^ 28 ≢ k % 2 ^ 28 = omega arith in
    read-write k j fs.sector_buffer fs.disk
    ∙ ap (λ (b : Bool). if b then fs.sector_buffer else pata_read_sector j fs.disk)
        (==_ne (j % 2 ^ 28) (k % 2 ^ 28) ne)

pub sector-write_sector_self :
    (k : ℕ) (fs : ChainFs) → sector (write_sector k fs) k ≡ fs.sector_buffer
unfolding write_sector
sector-write_sector_self k fs =
    read-write k k fs.sector_buffer fs.disk
    ∙ ap (λ (b : Bool). if b then fs.sector_buffer else pata_read_sector k fs.disk)
        (==_eq (k % 2 ^ 28) (k % 2 ^ 28) refl)

-- The sectors below `first` do not change.
pub write_sectors-sector :
    (count first k : ℕ) (fs : ChainFs)
    → k < first
    → first + count ≤ 2 ^ 28
    → sector (write_sectors count first fs) k ≡ sector fs k
unfolding write_sectors
write_sectors-sector zero first k fs h le = refl
write_sectors-sector (suc count) first k fs h le =
    write_sectors-sector count (suc first) k (write_sector first fs) (omega arith) (omega arith)
    ∙ sector-write_sector first k fs h (omega arith)

write_sector-buffer : (k : ℕ) (fs : ChainFs) → (write_sector k fs).sector_buffer ≡ fs.sector_buffer
unfolding write_sector
write_sector-buffer k fs = refl

pub write_sectors-buffer :
    (count first : ℕ) (fs : ChainFs)
    → (write_sectors count first fs).sector_buffer ≡ fs.sector_buffer
unfolding write_sectors
write_sectors-buffer zero first fs = refl
write_sectors-buffer (suc count) first fs =
    write_sectors-buffer count (suc first) (write_sector first fs) ∙ write_sector-buffer first fs

-- The sectors written hold the buffer.
pub write_sectors-sector_in :
    (count first k : ℕ) (fs : ChainFs)
    → first ≤ k
    → k < first + count
    → first + count ≤ 2 ^ 28
    → sector (write_sectors count first fs) k ≡ fs.sector_buffer
unfolding write_sectors
write_sectors-sector_in zero first k fs lo hi le = absurd (omega arith)
write_sectors-sector_in (suc count) first k fs lo hi le = elim (ℕ-cases k first) [
  | inl e ↦
      write_sectors-sector count (suc first) k (write_sector first fs) (omega arith) (omega arith)
      ∙ subst (λ x. sector (write_sector first fs) x ≡ fs.sector_buffer) (sym e)
          (sector-write_sector_self first fs)
  | inr ne ↦
      write_sectors-sector_in count (suc first) k (write_sector first fs) (omega arith)
        (omega arith) (omega arith)
      ∙ write_sector-buffer first fs
]
