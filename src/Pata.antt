-- ===== src/Pata.antt =====
-- The PATA driver, src/kernel/drivers/disk/pata/pata.c: the registers that a transfer sets, and the
-- disk behind them as a function from sector numbers to sectors. The waits for the drive's status
-- are left out: the drive is taken to get ready.
pub mod Registers
mod Examples
use pizda.Prelude.{ℕ, ◌+◌, ◌*◌, ◌/◌, ◌%◌, ◌^◌, List, [], ◌∷◌, ◌++◌, Bool, ◌==◌, if◌then◌else◌}

-- A sector in memory: the byte at each offset.
abbrev pub Sector : Type 0
Sector = ℕ → ℕ

abbrev pub Disk : Type 0
Disk = ℕ → Sector

-- The calls `outb(port, value)`, in order.
abbrev pub PortWrites : Type 0
PortWrites = List (ℕ × ℕ)

abbrev pub ide_features : ℕ
ide_features = 0x1F1

abbrev pub ide_sec_count : ℕ
ide_sec_count = 0x1F2

abbrev pub ide_lba_low : ℕ
ide_lba_low = 0x1F3

abbrev pub ide_lba_mid : ℕ
ide_lba_mid = 0x1F4

abbrev pub ide_lba_high : ℕ
ide_lba_high = 0x1F5

abbrev pub ide_drive_sel : ℕ
ide_drive_sel = 0x1F6

abbrev pub ide_command : ℕ
ide_command = 0x1F7

abbrev pub ide_cmd_read : ℕ
ide_cmd_read = 0x20

abbrev pub ide_cmd_write : ℕ
ide_cmd_write = 0x30

-- The cache flush behind a write, which the source writes as a number.
abbrev pub ide_cmd_flush : ℕ
ide_cmd_flush = 0xE7

-- The writes that start a transfer. `0xE0 | (k & 0x0F)` is a sum, since the bits are apart.
unfoldable pub transfer : ℕ → ℕ → PortWrites
transfer lba command =
    (ide_drive_sel, 0xE0 + lba / 2 ^ 24 % 16)
    ∷ (ide_features, 0)
    ∷ (ide_sec_count, 1)
    ∷ (ide_lba_low, lba % 256)
    ∷ (ide_lba_mid, lba / 2 ^ 8 % 256)
    ∷ (ide_lba_high, lba / 2 ^ 16 % 256)
    ∷ (ide_command, command)
    ∷ []

-- The last value written to a port.
unfoldable pub register : ℕ → ℕ → PortWrites → ℕ
register port value [] = value
register port value ((p, v) ∷ ws) = register port (if p == port then v else value) ws

-- The sector that a drive in 28-bit LBA mode transfers for its registers.
unfoldable pub addressed : PortWrites → ℕ
addressed ws =
    register ide_lba_low 0 ws
    + 2 ^ 8 * register ide_lba_mid 0 ws
    + 2 ^ 16 * register ide_lba_high 0 ws
    + 2 ^ 24 * (register ide_drive_sel 0 ws % 16)

unfoldable pub pata_read_sector : ℕ → Disk → Sector
pata_read_sector lba disk = disk (addressed (transfer lba ide_cmd_read))

-- The port writes of `pata_write_sector`, the 256 words to `IDE_DATA` aside.
unfoldable write_ports : ℕ → PortWrites
write_ports lba = transfer lba ide_cmd_write ++ (ide_command, ide_cmd_flush) ∷ []

-- The sector goes where the registers point when the write command is given. The flush behind it sends
-- the drive's cache to the disk, which has no effect here, where the disk is what a read returns.
unfoldable pub pata_write_sector : ℕ → Sector → Disk → Disk
pata_write_sector lba buffer disk =
    let target = addressed (transfer lba ide_cmd_write) in
    λ x. if x == target then buffer else disk x
