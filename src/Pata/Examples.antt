-- ===== src/Pata/Examples.antt =====
-- The theorems on the registers of the PATA driver at concrete sectors.
use pizda.Prelude.{◌%◌, ◌^◌, ◌≡◌, ◌==◌, if◌then◌else◌}
use pizda.Pata.{Sector, Disk, pata_read_sector, pata_write_sector}
use pizda.Pata.Registers.{read-write}

abbrev ones : Sector
ones j = 1

abbrev blank : Disk
blank k j = 0

read-write_example :
    pata_read_sector 6 (pata_write_sector 5 ones blank)
    ≡ (if 6 % 2 ^ 28 == 5 % 2 ^ 28 then ones else pata_read_sector 6 blank)
read-write_example = read-write 5 6 ones blank
