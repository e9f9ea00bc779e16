-- ===== src/ChainFs/Data/RoundTrip.antt =====
-- What is written is read back.
use pizda.Prelude.{ℕ, ◌+◌, ◌*◌, ◌≤◌, ◌<◌, arith, two32, List, ◌∷◌, length, All}
use pizda.ChainFs.{ChainFs, block_size}
use pizda.ChainFs.Map.{IsMounted}
use pizda.ChainFs.Map.Search.{Ascending}
use pizda.ChainFs.Data.{write_loop, read_loop}
use pizda.ChainFs.Data.Step.{InData}
use pizda.ChainFs.Data.Store.{write_loop-Stored}
use pizda.ChainFs.Data.Load.{Reads, Reads-size, read_loop-Stored}

-- On a mounted disk, data of `size` bytes that the loop of `chainfs_write_file` stores in ascending
-- blocks of the data area, enough of them, is what the loop of `chainfs_read_file` then copies out
-- from the first block, when the caller's buffer has room for it and is below 2^32 bytes, in one
-- round more than there are blocks. The reading changes the sector buffer alone.
pub read_loop-write_loop :
    (x : ℕ) (xs : List ℕ) (bytes : ℕ → ℕ) (size : ℕ) (fs : ChainFs) (fuel capacity : ℕ)
    (out : ℕ → ℕ)
    → IsMounted fs
    → Ascending 0 (x ∷ xs)
    → All (InData fs) (x ∷ xs)
    → size ≤ block_size * length (x ∷ xs)
    → size ≤ capacity
    → capacity < two32
    → length (x ∷ xs) < fuel
    → Reads
        (write_loop bytes (x ∷ xs) size 0 fs)
        bytes
        size
        (read_loop fuel capacity size 0 x out (write_loop bytes (x ∷ xs) size 0 fs))
read_loop-write_loop x xs bytes size fs fuel capacity out v a h big room small f =
    let (k, st) = write_loop-Stored (x ∷ xs) bytes 0 size 0 fs v a h (omega arith) in
    let fs' = write_loop bytes (x ∷ xs) size 0 fs in
    Reads-size fs' bytes (0 + size) size (omega arith) (
      read_loop-Stored xs fs' bytes x fuel capacity size 0 out fs'.sector_buffer k.mounted st big
        (omega arith) small f (λ j lt. absurd (omega arith)))
