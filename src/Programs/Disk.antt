-- ===== src/Programs/Disk.antt =====
-- The command disk, src/kernel/bin/disk.c: its five branches. A buffer that `strcpy` and `strcat`
-- fill is the list of its bytes.
use pizda.Prelude.{
  ℕ, zero, suc, ◌+◌, ◌-◌, ◌*◌, ◌/◌, ◌%◌, ◌^◌, ◌==◌, ltb, leb, ◌&&◌, if◌then◌else◌, two32, length,
  get_or, drop, List, [], ◌∷◌, ◌++◌, codes,
}
use pizda.Pata.{Sector, pata_read_sector, pata_write_sector}
use pizda.Screen.{print}
use pizda.Keyboard.{prompt}
use pizda.Mlibc.{atoi}
use pizda.ChainFs.{Superblock, chainfs_magic}
use pizda.ChainFs.Volume.{get_superblock}
use pizda.Programs.{Shell, show_line, clamp_line, starts_with}
use pizda.Programs.Info.{until_nul, show_texts}
use pizda.Programs.Outside.{Outside}

-- A label, and behind it a text in the same row from the column `col` on.
unfoldable pub show_labelled : List ℕ → List ℕ → ℕ → Shell → Shell
show_labelled label text col s = record s {
  screen = print text s.current_line col 0x07 (print label s.current_line 0 0x0F s.screen);
  current_line = s.current_line + 1;
}

-- The high and the low byte of `count` words.
abbrev pub word_bytes : ℕ → ℕ → (ℕ → ℕ) → List ℕ
word_bytes zero first words = []
word_bytes (suc count) first words =
    words first / 2 ^ 8 % 256 ∷ words first % 256 ∷ word_bytes count (suc first) words

-- `*((unsigned int *)&identify_data[60])`
unfoldable pub total_sectors : (ℕ → ℕ) → ℕ
total_sectors words = words 60 + 2 ^ 16 * words 61

-- `(total_sectors * 512) / (1024 * 1024)`
unfoldable pub megabytes : ℕ → ℕ
megabytes sectors = sectors * 512 % two32 / (1024 * 1024)

unfoldable pub disk_info : Outside → Shell → Shell
disk_info o s =
    let sectors = total_sectors o.identify_data in
    let capacity =
      codes "  capacity: "
      ++ o.itoa sectors 10
      ++ codes " sectors ("
      ++ o.itoa (megabytes sectors) 10
      ++ codes " MB)" in
    let headed = show_line (codes "disk info:") 0x0E s in
    let model =
      show_labelled (codes "  model: ") (until_nul (word_bytes 20 27 o.identify_data)) 10 headed in
    let serial =
      show_labelled (codes "  serial: ") (until_nul (word_bytes 10 10 o.identify_data)) 11 model in
    show_line capacity 0x0F serial

unfoldable pub disk_clear : List ℕ → Shell → Shell
disk_clear line s =
    let cleared = record (s.fs) {
      disk = pata_write_sector (atoi (drop 11 line)) (λ j. 0) s.fs.disk;
    } in
    show_line (codes "sector cleared") 0x0A (record s { fs = cleared })

abbrev pub show_usage : Outside → Superblock → Shell → Shell
show_usage o sb s = show_line (codes "  max files: " ++ o.itoa sb.total_files 10) 0x0F (
    show_line (codes "  total blocks: " ++ o.itoa sb.block_count 10) 0x0F
      (show_line (codes "chainfs usage:") 0x0E s))

unfoldable pub disk_usage : Outside → Shell → Shell
disk_usage o s =
    let sb = get_superblock (pata_read_sector 0 s.fs.disk) in
    if sb.magic == chainfs_magic
    then show_usage o sb s
    else show_line (codes "init fs first") 0x0C s

-- `for (k = 0; k < n; k++) dump_line[pos++] = '0';`
abbrev pub zero_digits : ℕ → List ℕ
zero_digits zero = []
zero_digits (suc n) = 48 ∷ zero_digits n

unfoldable pub dump_address : Outside → ℕ → List ℕ
dump_address o i = let addr = o.itoa (i * 16) 16 in zero_digits (4 - length addr) ++ addr

-- Two digits of a byte and a space.
unfoldable pub dump_byte : Outside → ℕ → List ℕ
dump_byte o val =
    let hex = o.itoa val 16 in
    if ltb val 16 then 48 ∷ get_or hex 0 0 ∷ 32 ∷ [] else get_or hex 0 0 ∷ get_or hex 1 0 ∷ 32 ∷ []

unfoldable pub dump_char : ℕ → ℕ
dump_char val = if leb 32 val && leb val 126 then val else 46

-- The two inner loops: `count` bytes of the sector from `first` on.
abbrev pub dump_bytes : Outside → ℕ → ℕ → Sector → List ℕ
dump_bytes o zero first s = []
dump_bytes o (suc count) first s = dump_byte o (s first) ++ dump_bytes o count (suc first) s

abbrev pub dump_chars : ℕ → ℕ → Sector → List ℕ
dump_chars zero first s = []
dump_chars (suc count) first s = dump_char (s first) ∷ dump_chars count (suc first) s

-- The characters between bars.
abbrev pub dump_column : Sector → ℕ → List ℕ
dump_column s i = 124 ∷ (dump_chars 16 (i * 16) s ++ 124 ∷ [])

unfoldable pub dump_line : Outside → Sector → ℕ → List ℕ
dump_line o s i = dump_address o i ++ (58 ∷ 32 ∷ (dump_bytes o 16 (i * 16) s ++ dump_column s i))

-- The outer loop: `rounds` values of `i` are left.
abbrev pub dump_lines : Outside → ℕ → ℕ → Sector → List (List ℕ)
dump_lines o zero i s = []
dump_lines o (suc rounds) i s = dump_line o s i ∷ dump_lines o rounds (suc i) s

unfoldable pub disk_dump : Outside → List ℕ → Shell → Shell
disk_dump o line s =
    let lba = atoi (drop 10 line) in
    show_texts 0x0F (dump_lines o 16 0 (pata_read_sector lba s.fs.disk))
      (show_line (codes "dump" ++ o.itoa lba 10) 0x0E s)

abbrev pub disk_help : List (List ℕ)
disk_help =
    codes "use disk info"
    ∷ codes "       disk dump <sector>"
    ∷ codes "       disk clear <sector>"
    ∷ codes "       disk usage"
    ∷ []

unfoldable pub disk_command : Outside → List ℕ → Shell → Shell
disk_command o line s =
    if starts_with (codes "disk info") line
    then disk_info o s
    else if starts_with (codes "disk clear ") line
    then disk_clear line s
    else if starts_with (codes "disk usage") line
    then disk_usage o s
    else if starts_with (codes "disk dump ") line
    then disk_dump o line s
    else show_texts 0x0C disk_help s

-- The bound on the row comes before the prompt.
unfoldable pub disk : Outside → List ℕ → Shell → Shell
disk o line s =
    let done = clamp_line (if starts_with (codes "disk") line then disk_command o line s else s) in
    record done { screen = print prompt done.current_line 0 0x0F done.screen }
