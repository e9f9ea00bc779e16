-- ===== src/ChainFs/Files/Returns.antt =====
-- `chainfs_read_file` returns for every disk, also where a chain of blocks runs in a circle: the
-- caller's buffer bounds the rounds.
use pizda.Prelude.{
  ℕ, zero, suc, ◌+◌, ◌-◌, ◌*◌, ◌≤◌, ◌<◌, ◌≡◌, refl, ap, arith, Option, some, none, true, false,
  Bool-cases, inl, inr, ◌==◌, ltb, ◌&&◌, not, List, add32, add32-exact, two32,
}
use pizda.ChainFs.{ChainFs, block_size, eof_marker, read_sector, chainfs_read_block_map_entry}
use pizda.ChainFs.Data.{chunk, read_chunk, copy_out, follow_entry, read_loop}
use pizda.ChainFs.Table.{Found}
use pizda.ChainFs.Paths.{chainfs_find_file}
use pizda.ChainFs.Files.{read_result, read_found, chainfs_read_file}

-- There is a result.
abbrev pub Returns {ℓ} : {A : Type ℓ} → Option A → Type ℓ
Returns {A = A} o = (a : A) × (o ≡ some a)

follow_entry-Returns :
    (copied : ℕ) (out : ℕ → ℕ) (next : ℕ → ChainFs → Option (ChainFs × ℕ × (ℕ → ℕ)))
    (r : ChainFs × Option ℕ)
    → ((current : ℕ) (fs : ChainFs) → Returns (next current fs))
    → Returns (follow_entry copied out next r)
follow_entry-Returns copied out next (fs, none) ih = (_, refl)
follow_entry-Returns copied out next (fs, some current) ih = ih current fs

module _ (capacity : ℕ) (small : capacity + block_size < two32) where
  -- Nothing is left to read, or the buffer is full.
  read_loop-ended :
      (fuel remaining copied current : ℕ) (out : ℕ → ℕ) (fs : ChainFs)
      → (ltb 0 remaining && not (current == eof_marker) && ltb copied capacity) ≡ false
      → Returns (read_loop (suc fuel) capacity remaining copied current out fs)
  unfolding read_loop
  read_loop-ended fuel remaining copied current out fs e = rw e (_, refl)

  -- The round after one that copied something, for the rounds that the rest of the buffer needs.
  rest-Returns :
      (k remaining copied current : ℕ) (out : ℕ → ℕ) (fs : ChainFs)
      → copied < capacity
      → capacity - copied ≤ block_size * suc k
      → ((remaining copied current : ℕ) (out : ℕ → ℕ) (fs : ChainFs)
          → copied ≤ capacity
          → capacity - copied ≤ block_size * k
          → Returns (read_loop (suc (suc k)) capacity remaining copied current out fs))
      → Returns (
          read_loop
            (suc (suc k))
            capacity
            (remaining - read_chunk remaining copied capacity)
            (add32 copied (read_chunk remaining copied capacity))
            current
            out
            fs)
  rest-Returns k remaining copied current out fs lt room ih =
      let exact : add32 copied (chunk remaining) ≡ copied + chunk remaining =
        ground (arith, add32-exact copied (chunk remaining)) in
      elim (Bool-cases (ltb capacity (copied + chunk remaining))) [
        | inl cut ↦
            let n : read_chunk remaining copied capacity ≡ capacity - copied =
              rw (exact, cut) refl in
            let full : add32 copied (capacity - copied) ≡ capacity =
              omega (arith, add32-exact copied (capacity - copied)) in
            rw (n, full)
              (read_loop-ended (suc k) (remaining - (capacity - copied)) capacity current out fs
                (ground arith))
        | inr fits ↦
            let n : read_chunk remaining copied capacity ≡ chunk remaining =
              rw (exact, fits) refl in
            rw (n, exact)
              (elim (Bool-cases (ltb block_size remaining)) [
                | inl more ↦ rw more (
                    ih (remaining - block_size) (copied + block_size) current out fs (ground arith)
                      (ground arith))
                | inr last ↦ rw last (
                    read_loop-ended (suc k) (remaining - remaining) (copied + remaining) current out
                      fs (ground arith))
              ])
      ]

  -- A round that copies something returns when the next one does.
  round-Returns :
      (fuel remaining copied current : ℕ) (out : ℕ → ℕ) (fs : ChainFs)
      → (ltb 0 remaining && not (current == eof_marker) && ltb copied capacity) ≡ true
      → ((x : ℕ) (out : ℕ → ℕ) (fs : ChainFs)
          → Returns (
              read_loop fuel capacity
                (remaining - read_chunk remaining copied capacity)
                (add32 copied (read_chunk remaining copied capacity))
                x
                out
                fs))
      → Returns (read_loop (suc fuel) capacity remaining copied current out fs)
  unfolding read_loop
  round-Returns fuel remaining copied current out fs e later =
      let loaded = read_sector (add32 fs.data_area_start current) fs in
      let n = read_chunk remaining copied capacity in
      let out' = copy_out loaded.sector_buffer copied n out in
      let next = λ (x : ℕ) (g : ChainFs).
        read_loop fuel capacity (remaining - n) (add32 copied n) x out' g in
      rw e (elim (Bool-cases (ltb 0 (remaining - n))) [
        | inr last ↦ rw last (later current out' loaded)
        | inl more ↦ rw more (
            follow_entry-Returns (add32 copied n) out' next
              (chainfs_read_block_map_entry current loaded) (λ x g. later x out' g))
      ])

  read_loop-Returns :
      (k remaining copied current : ℕ) (out : ℕ → ℕ) (fs : ChainFs)
      → copied ≤ capacity
      → capacity - copied ≤ block_size * k
      → Returns (read_loop (suc (suc k)) capacity remaining copied current out fs)
  read_loop-Returns zero remaining copied current out fs le room =
      read_loop-ended 1 remaining copied current out fs (ground arith)
  read_loop-Returns (suc k) remaining copied current out fs le room =
      elim (Bool-cases (ltb 0 remaining && not (current == eof_marker) && ltb copied capacity)) [
        | inr e ↦ read_loop-ended (suc (suc k)) remaining copied current out fs e
        | inl e ↦
            let lt : copied < capacity = ground arith in
            round-Returns (suc (suc k)) remaining copied current out fs e
              (λ x out' g. rest-Returns k remaining copied x out' g lt room (read_loop-Returns k))
      ]

  read_result-Returns : (o : Option (ChainFs × ℕ × (ℕ → ℕ))) → Returns o → Returns (read_result o)
  read_result-Returns o ((fs, copied, out), e) = (_, ap read_result e)

  read_found-Returns :
      (k : ℕ) (buffer : ℕ → ℕ) (r : ChainFs × Option Found)
      → capacity ≤ block_size * k
      → Returns (read_found (suc (suc k)) capacity buffer r)
  read_found-Returns k buffer (fs, none) room = (_, refl)
  read_found-Returns k buffer (fs, some f) room =
      read_result-Returns
        (read_loop (suc (suc k)) capacity f.entry.size 0 f.entry.start_block buffer fs)
        (read_loop-Returns k f.entry.size 0 f.entry.start_block buffer fs (omega arith)
          (omega arith))

  -- With two rounds more than the blocks that the buffer has room for, `chainfs_read_file` returns for
  -- every disk and every name, for a buffer whose size leaves room for a block below 2^32.
  pub chainfs_read_file-Returns :
      (k : ℕ) (name : List ℕ) (buffer : ℕ → ℕ) (fs : ChainFs)
      → capacity ≤ block_size * k
      → Returns (chainfs_read_file (suc (suc k)) name capacity buffer fs)
  unfolding chainfs_read_file
  chainfs_read_file-Returns k name buffer fs room =
      read_found-Returns k buffer (chainfs_find_file name fs) room
