-- ===== src/Pata/Registers.antt =====
-- Which sector a transfer of the PATA driver reaches.
use pizda.Prelude.{ℕ, ◌%◌, ◌^◌, ◌<◌, ◌≡◌, arith, ◌==◌, if◌then◌else◌}
use pizda.Pata.{
  Disk, Sector, transfer, write_ports, register, addressed, pata_read_sector, pata_write_sector,
}

-- The registers hold the low 28 bits of the sector number.
pub addressed-transfer : (lba command : ℕ) → addressed (transfer lba command) ≡ lba % 2 ^ 28
unfolding addressed transfer register
addressed-transfer lba command = omega arith

-- The flush command leaves the address registers as the transfer set them.
addressed-write_ports : (lba : ℕ) → addressed (write_ports lba) ≡ lba % 2 ^ 28
unfolding write_ports addressed transfer register
addressed-write_ports lba = omega arith

-- Below 2^28 a read gives the sector.
pub read-exact : (lba : ℕ) (d : Disk) → lba < 2 ^ 28 → pata_read_sector lba d ≡ d lba
unfolding pata_read_sector
read-exact lba d h = let e : lba % 2 ^ 28 ≡ lba = omega arith in rw (addressed-transfer, e)

-- After a write of a sector, a read gives the bytes written where the two sector numbers agree modulo
-- 2^28, and what was there before otherwise.
pub read-write :
    (lba k : ℕ) (b : Sector) (d : Disk)
    → pata_read_sector k (pata_write_sector lba b d)
      ≡ (if k % 2 ^ 28 == lba % 2 ^ 28 then b else pata_read_sector k d)
unfolding pata_read_sector pata_write_sector
read-write lba k b d = simp addressed-transfer
