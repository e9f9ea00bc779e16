-- ===== src/ChainFs/Table/Array.antt =====
-- Reads and writes of the file table against the array of structs that a sector holds.
use pizda.Prelude.{
  ℕ, ◌+◌, ◌*◌, ◌%◌, ◌≤◌, ◌<◌, ◌≡◌, ◌≢◌, ◌↔◌, refl, zero, suc, [], ◌∷◌, ◌∙◌, arith, two32, List,
  length, get_or,
}
use pizda.Pata.{Sector}
use pizda.Mlibc.Strings.{Holds}
use pizda.ChainFs.{block_size, entries_per_block}
use pizda.ChainFs.Fields.{put8_self, put8_ne}
use pizda.ChainFs.Table.{entry_at, put_entry, clear_status}
use pizda.ChainFs.Table.Entry.{put-outside, entry_at-put_entry}
use pizda.ChainFs.Table.Packed.{
  Packed, ArePacked, IsPacked, array, sector_of, nth, array-byte, Reads, bytes_of-Reads,
  entries_per_block-array,
}
use pizda.ChainFs.Files.{put_name}
use pizda.ChainFs.Files.Name.{put_name-KeepsRest, put_name-Holds}

nth-IsPacked : (es : List Packed) (i : ℕ) → ArePacked es → i < length es → IsPacked (nth es i)
nth-IsPacked [] i ps lt = absurd (omega arith)
nth-IsPacked (e ∷ es) zero (p, ps) lt = p
nth-IsPacked (e ∷ es) (suc i) (p, ps) lt = nth-IsPacked es i ps (omega arith)

-- A sector that has the bytes of the array at one of its structs.
agree-Reads :
    (es : List Packed) (i : ℕ) (s : Sector)
    → ArePacked es
    → i < length es
    → ((k : ℕ) → k < 60 → s (60 * i + k) ≡ sector_of (array es) (60 * i + k))
    → Reads s i (nth es i)
agree-Reads es i s ps lt same =
    bytes_of-Reads s i (nth es i) (nth-IsPacked es i ps lt)
      (λ k ltk. same k ltk ∙ array-byte es i k ps lt ltk)

-- The struct `old` at `offset` after the write of a new entry.
abbrev pub IsWritten : ℕ → ℕ → ℕ → ℕ → ℕ → List ℕ → Packed → Sector → Type 0
IsWritten offset type_ size start parent name old s =
    ((entry_at s offset).status ≡ 1)
    × ((entry_at s offset).type_ ≡ type_)
    × Holds (entry_at s offset).name name
    × ((entry_at s offset).size ≡ size % two32)
    × ((entry_at s offset).start_block ≡ start % two32)
    × ((entry_at s offset).parent_block ≡ parent % two32)
    × ((k : ℕ) → k < 16 → s (60 * offset + (44 + k)) ≡ get_or old.reserved k 0)

module _ (es : List Packed) (ps : ArePacked es) (offset : ℕ) (lt : offset < length es) where
  abbrev before : Sector
  before = sector_of (array es)

  clear_status-others :
      (i : ℕ) → i < length es → i ≢ offset → Reads (clear_status offset before) i (nth es i)
  unfolding clear_status
  clear_status-others i lti ne =
      agree-Reads es i (clear_status offset before) ps lti
        (λ k ltk. put8_ne before (60 * offset) 0 (60 * i + k) (omega arith))

  clear_status-unused : (entry_at (clear_status offset before) offset).status ≡ 0
  unfolding clear_status entry_at
  clear_status-unused = put8_self before (60 * offset) 0

  module _ (type_ size start parent : ℕ) (name : List ℕ) where
    abbrev put : Sector
    put = put_entry offset type_ size start parent (put_name offset name) before

    put_entry-others : (i : ℕ) → i < length es → i ≢ offset → Reads put i (nth es i)
    put_entry-others i lti ne = agree-Reads es i put ps lti (λ k ltk.
        put-outside offset type_ size start parent (put_name offset name) before
          (put_name-KeepsRest offset name) (60 * i + k) (omega arith))

    put_entry-IsWritten :
        length name ≤ 29 → IsWritten offset type_ size start parent name (nth es offset) put
    put_entry-IsWritten short =
        let keeps = put_name-KeepsRest offset name in
        let (status, typed, held, sized, started, under) =
          entry_at-put_entry offset type_ size start parent (put_name offset name) before keeps name
            short (λ t. put_name-Holds offset name t short) in
        let whole = agree-Reads es offset before ps lt (λ k ltk. refl) in
        (
          status,
          typed,
          held,
          sized,
          started,
          under,
          λ k ltk.
              put-outside offset type_ size start parent (put_name offset name) before keeps
                (60 * offset + (44 + k)) (omega arith)
              ∙ whole.reserved k ltk,
        )

-- A sector that holds the bytes of an array of packed structs `chainfs_file_entry_t`, of which
-- `entries_per_block` fit and no more: `entries[i]` has the members of the struct `i`. The writes of a new
-- entry at `offset`, its name by `put_name`, and of a cleared status there, leave every other struct of
-- the array with all its members. The new entry is in use and has the type, the name of 29 bytes at
-- most, and the numbers, modulo 2^32; its reserved bytes stay. The cleared entry is unused.
pub put_entry-array :
    (es : List Packed) (offset type_ size start parent : ℕ) (name : List ℕ)
    → ArePacked es
    → offset < length es
    → length name ≤ 29
    → ((length (array es) ≤ block_size) ↔ (length es ≤ entries_per_block))
      × ((i : ℕ) → i < length es → Reads (sector_of (array es)) i (nth es i))
      × IsWritten offset type_ size start parent name
          (nth es offset)
          (put_entry offset type_ size start parent (put_name offset name) (sector_of (array es)))
      × ((i : ℕ)
          → i < length es
          → i ≢ offset
          → Reads
              (put_entry offset type_ size start parent
                (put_name offset name)
                (sector_of (array es)))
              i
              (nth es i))
      × ((entry_at (clear_status offset (sector_of (array es))) offset).status ≡ 0)
      × ((i : ℕ)
          → i < length es
          → i ≢ offset
          → Reads (clear_status offset (sector_of (array es))) i (nth es i))
put_entry-array es offset type_ size start parent name ps lt short = (
  entries_per_block-array es ps,
  λ i lti. agree-Reads es i (sector_of (array es)) ps lti (λ k ltk. refl),
  put_entry-IsWritten es ps offset lt type_ size start parent name short,
  put_entry-others es ps offset lt type_ size start parent name,
  clear_status-unused es ps offset lt,
  clear_status-others es ps offset lt,
)
