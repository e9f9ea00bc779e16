-- ===== src/ChainFs/Table/Packed.antt =====
-- The array of `chainfs_file_entry_t` in a sector, member by member as the struct is packed.
use pizda.Prelude.{
  ℕ, zero, suc, ◌+◌, ◌*◌, ◌/◌, ◌%◌, ◌^◌, ◌≤◌, ◌<◌, ◌≡◌, ◌↔◌, refl, ap, ◌∙◌, arith, two32, List, [],
  ◌∷◌, ◌++◌, length, length-append, get_or,
}
use pizda.Pata.{Sector}
use pizda.ChainFs.{block_size, entries_per_block, get32}
use pizda.ChainFs.Table.{entry_at}

-- The members of the struct, in order.
pub record Packed : Type 0 where
  pub status : ℕ
  pub type_ : ℕ
  pub name : List ℕ
  pub size : ℕ
  pub start_block : ℕ
  pub parent_block : ℕ
  pub reserved : List ℕ

-- The members that are arrays have their lengths, and the numbers 32 bits.
pub record IsPacked (e : Packed) : Type 0 where
  pub name_length : length e.name ≡ 30
  pub reserved_length : length e.reserved ≡ 16
  pub size_fits : e.size < two32
  pub start_fits : e.start_block < two32
  pub parent_fits : e.parent_block < two32

abbrev pub little_endian : ℕ → List ℕ
little_endian v = v % 256 ∷ v / 2 ^ 8 % 256 ∷ v / 2 ^ 16 % 256 ∷ v / 2 ^ 24 % 256 ∷ []

-- The bytes of a struct, one member after the other.
abbrev pub bytes_of : Packed → List ℕ
bytes_of e =
    e.status
    ∷ e.type_
    ∷ (e.name
        ++ (little_endian e.size
            ++ (little_endian e.start_block ++ (little_endian e.parent_block ++ e.reserved))))

abbrev pub ArePacked : List Packed → Type 0
ArePacked [] = Unit
ArePacked (e ∷ es) = IsPacked e × ArePacked es

-- The bytes of an array of structs.
abbrev pub array : List Packed → List ℕ
array [] = []
array (e ∷ es) = bytes_of e ++ array es

-- A sector that starts with the bytes.
abbrev pub sector_of : List ℕ → Sector
sector_of xs x = get_or xs x 0

abbrev pub nth : List Packed → ℕ → Packed
nth [] i = record {
  status = 0;
  type_ = 0;
  name = [];
  size = 0;
  start_block = 0;
  parent_block = 0;
  reserved = [];
}
nth (e ∷ es) zero = e
nth (e ∷ es) (suc i) = nth es i

get_or-front : (xs ys : List ℕ) (k : ℕ) → k < length xs → get_or (xs ++ ys) k 0 ≡ get_or xs k 0
get_or-front [] ys k lt = absurd (omega arith)
get_or-front (x ∷ xs) ys zero lt = refl
get_or-front (x ∷ xs) ys (suc k) lt = get_or-front xs ys k (omega arith)

get_or-behind :
    (n : ℕ) (xs ys : List ℕ) (k : ℕ) → length xs ≡ n → get_or (xs ++ ys) (n + k) 0 ≡ get_or ys k 0
get_or-behind n [] ys k e = let same : n + k ≡ k = omega arith in ap (λ j. get_or ys j 0) same
get_or-behind zero (x ∷ xs) ys k e = absurd (omega arith)
get_or-behind (suc n) (x ∷ xs) ys k e =
    let step : suc n + k ≡ suc (n + k) = omega arith in
    ap (λ j. get_or (x ∷ (xs ++ ys)) j 0) step ∙ get_or-behind n xs ys k (omega arith)

-- A struct has 60 bytes.
length-bytes_of : (e : Packed) → IsPacked e → length (bytes_of e) ≡ 60
length-bytes_of e p =
    let tail =
      little_endian e.size
      ++ (little_endian e.start_block ++ (little_endian e.parent_block ++ e.reserved)) in
    omega (arith, length-append e.name tail, p.name_length, p.reserved_length)

-- A byte of a struct in the array.
pub array-byte :
    (es : List Packed) (i k : ℕ)
    → ArePacked es
    → i < length es
    → k < 60
    → get_or (array es) (60 * i + k) 0 ≡ get_or (bytes_of (nth es i)) k 0
array-byte [] i k ps lt ltk = absurd (omega arith)
array-byte (e ∷ es) zero k (p, ps) lt ltk =
    let here : 60 * 0 + k ≡ k = omega arith in
    ap (λ j. get_or (bytes_of e ++ array es) j 0) here
    ∙ get_or-front (bytes_of e) (array es) k (omega (arith, length-bytes_of e p))
array-byte (e ∷ es) (suc i) k (p, ps) lt ltk =
    let step : 60 * suc i + k ≡ 60 + (60 * i + k) = omega arith in
    ap (λ j. get_or (bytes_of e ++ array es) j 0) step
    ∙ get_or-behind 60 (bytes_of e) (array es) (60 * i + k) (length-bytes_of e p)
    ∙ array-byte es i k ps (omega arith) ltk

-- The bytes behind the name.
name-behind :
    (e : Packed)
    → IsPacked e
    → (k : ℕ)
    → get_or (bytes_of e) (32 + k) 0
      ≡ get_or
          (little_endian e.size
            ++ (little_endian e.start_block ++ (little_endian e.parent_block ++ e.reserved)))
          k
          0
name-behind e p k =
    let step : 32 + k ≡ suc (suc (30 + k)) = omega arith in
    ap (λ j. get_or (bytes_of e) j 0) step ∙ get_or-behind 30 e.name _ k (p.name_length)

length-array : (es : List Packed) → ArePacked es → length (array es) ≡ 60 * length es
length-array [] ps = refl
length-array (e ∷ es) (p, ps) =
    omega (arith, length-append (bytes_of e) (array es), length-bytes_of e p, length-array es ps)

-- As many structs as `entries_per_block` says fit a sector, and no more.
pub entries_per_block-array :
    (es : List Packed)
    → ArePacked es
    → (length (array es) ≤ block_size) ↔ (length es ≤ entries_per_block)
entries_per_block-array es ps =
    let size = length-array es ps in ((λ le. omega arith), (λ le. omega arith))

-- `entries[i]` of the sector has the members of the struct.
pub record Reads (s : Sector) (i : ℕ) (e : Packed) : Type 0 where
  pub status : (entry_at s i).status ≡ e.status
  pub type_ : (entry_at s i).type_ ≡ e.type_
  pub name : (k : ℕ) → k < 30 → (entry_at s i).name k ≡ get_or e.name k 0
  pub size : (entry_at s i).size ≡ e.size
  pub start_block : (entry_at s i).start_block ≡ e.start_block
  pub parent_block : (entry_at s i).parent_block ≡ e.parent_block
  pub reserved : (k : ℕ) → k < 16 → s (60 * i + (44 + k)) ≡ get_or e.reserved k 0

-- A sector whose 60 bytes are those of the struct.
module _ (s : Sector) (i : ℕ) (e : Packed) (p : IsPacked e)
    (same : (k : ℕ) → k < 60 → s (60 * i + k) ≡ get_or (bytes_of e) k 0) where
  behind :
      (k : ℕ)
      → k < 28
      → s (60 * i + (32 + k))
        ≡ get_or
            (little_endian e.size
              ++ (little_endian e.start_block ++ (little_endian e.parent_block ++ e.reserved)))
            k
            0
  behind k lt = same (32 + k) (omega arith) ∙ name-behind e p k

  number :
      (o v : ℕ)
      → v < two32
      → s o ≡ v % 256
      → s (o + 1) ≡ v / 2 ^ 8 % 256
      → s (o + 2) ≡ v / 2 ^ 16 % 256
      → s (o + 3) ≡ v / 2 ^ 24 % 256
      → get32 s o ≡ v
  unfolding get32
  number o v lt e0 e1 e2 e3 = rw (e0, e1, e2, e3) (omega arith)

  at : (a b : ℕ) → a ≡ b → s a ≡ s b
  at a b e = ap s e

  pub bytes_of-Reads : Reads s i e
  unfolding entry_at
  bytes_of-Reads = record {
    status = at (60 * i) (60 * i + 0) (omega arith) ∙ same 0 (omega arith);
    type_ = same 1 (omega arith);
    name = λ k lt.
        at (60 * i + 2 + k) (60 * i + suc (suc k)) (omega arith)
        ∙ same (suc (suc k)) (omega arith)
        ∙ get_or-front e.name _ k (omega (arith, p.name_length));
    size =
        number (60 * i + 32) e.size (p.size_fits)
          (at (60 * i + 32) (60 * i + (32 + 0)) (omega arith) ∙ behind 0 (omega arith))
          (at (60 * i + 32 + 1) (60 * i + (32 + 1)) (omega arith) ∙ behind 1 (omega arith))
          (at (60 * i + 32 + 2) (60 * i + (32 + 2)) (omega arith) ∙ behind 2 (omega arith))
          (at (60 * i + 32 + 3) (60 * i + (32 + 3)) (omega arith) ∙ behind 3 (omega arith));
    start_block =
        number (60 * i + 36) e.start_block (p.start_fits)
          (at (60 * i + 36) (60 * i + (32 + 4)) (omega arith) ∙ behind 4 (omega arith))
          (at (60 * i + 36 + 1) (60 * i + (32 + 5)) (omega arith) ∙ behind 5 (omega arith))
          (at (60 * i + 36 + 2) (60 * i + (32 + 6)) (omega arith) ∙ behind 6 (omega arith))
          (at (60 * i + 36 + 3) (60 * i + (32 + 7)) (omega arith) ∙ behind 7 (omega arith));
    parent_block =
        number (60 * i + 40) e.parent_block (p.parent_fits)
          (at (60 * i + 40) (60 * i + (32 + 8)) (omega arith) ∙ behind 8 (omega arith))
          (at (60 * i + 40 + 1) (60 * i + (32 + 9)) (omega arith) ∙ behind 9 (omega arith))
          (at (60 * i + 40 + 2) (60 * i + (32 + 10)) (omega arith) ∙ behind 10 (omega arith))
          (at (60 * i + 40 + 3) (60 * i + (32 + 11)) (omega arith) ∙ behind 11 (omega arith));
    reserved = λ k lt.
        at (60 * i + (44 + k)) (60 * i + (32 + (12 + k))) (omega arith)
        ∙ behind (12 + k) (omega arith)
        ∙ get_or-behind 12
            (little_endian e.size ++ (little_endian e.start_block ++ little_endian e.parent_block))
            e.reserved k refl;
  }
