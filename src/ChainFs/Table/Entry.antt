-- ===== src/ChainFs/Table/Entry.antt =====
-- What `put_entry` leaves in a sector of the table: the new entry, and the others.
use pizda.Prelude.{
  ℕ, zero, suc, ◌+◌, ◌*◌, ◌%◌, ◌≤◌, ◌<◌, ◌≡◌, ◌≢◌, ◌⊎◌, inl, refl, ap, ◌∙◌, arith, two32, List, [],
  ◌∷◌, length, get_or,
}
use pizda.Pata.{Sector}
use pizda.Mlibc.{Str, from}
use pizda.Mlibc.Strings.{Holds}
use pizda.ChainFs.{get32, put8, put32}
use pizda.ChainFs.Fields.{put8_self, put8_ne, put32_ne, get32-put32_self, get32-put32_ne}
use pizda.ChainFs.Table.{entry_at, put_bytes, put_entry}

pub Holds-get_or :
    (xs : List ℕ) (s : Str) → ((k : ℕ) → k ≤ length xs → s k ≡ get_or xs k 0) → Holds s xs
Holds-get_or [] s h = h 0 (omega arith)
Holds-get_or (x ∷ xs) s h =
    (h 0 (omega arith), Holds-get_or xs (λ j. s (suc j)) (λ k le. h (suc k) (omega arith)))

-- A string is held by every memory that agrees on its bytes and its NUL.
pub Holds-agree :
    (xs : List ℕ) (s t : Str) → ((k : ℕ) → k ≤ length xs → t k ≡ s k) → Holds s xs → Holds t xs
Holds-agree [] s t same h = same 0 (omega arith) ∙ h
Holds-agree (x ∷ xs) s t same (e, h) = (
  same 0 (omega arith) ∙ e,
  Holds-agree xs (λ j. s (suc j)) (λ j. t (suc j)) (λ k le. same (suc k) (omega arith)) h,
)

pub put_bytes-outside :
    (xs : List ℕ) (o : ℕ) (s : Sector) (x : ℕ)
    → (x < o) ⊎ (o + length xs ≤ x)
    → put_bytes o xs s x ≡ s x
unfolding put_bytes
put_bytes-outside [] o s x h = refl
put_bytes-outside (c ∷ cs) o s x h =
    put_bytes-outside cs (suc o) (put8 s o c) x (omega arith) ∙ put8_ne s o c x (omega arith)

pub put_bytes-inside :
    (xs : List ℕ) (o : ℕ) (s : Sector) (k : ℕ)
    → k < length xs
    → put_bytes o xs s (o + k) ≡ get_or xs k 0
unfolding put_bytes
put_bytes-inside [] o s k lt = absurd (omega arith)
put_bytes-inside (c ∷ cs) o s zero lt =
    let here : o + 0 ≡ o = omega arith in
    rw here (put_bytes-outside cs (suc o) (put8 s o c) o (inl (omega arith)) ∙ put8_self s o c)
put_bytes-inside (c ∷ cs) o s (suc k) lt =
    let next : o + suc k ≡ suc o + k = omega arith in
    rw next (put_bytes-inside cs (suc o) (put8 s o c) k (omega arith))

-- The part of the sector from `o + 2` to `o + 32` is the name's.
abbrev pub KeepsRest : ℕ → (Sector → Sector) → Type 0
KeepsRest o named = (t : Sector) (x : ℕ) → (x < o + 2) ⊎ (o + 32 ≤ x) → named t x ≡ t x

module _ (offset type_ size start parent : ℕ) (named : Sector → Sector) (s : Sector)
    (keeps : KeepsRest (60 * offset) named) where
  abbrev o : ℕ
  o = 60 * offset

  abbrev opened : Sector
  opened = put8 (put8 s o 1) (o + 1) type_

  abbrev sized : Sector
  sized = put32 (named opened) (o + 32) size

  abbrev started : Sector
  started = put32 sized (o + 36) start

  abbrev put : Sector
  put = put_entry offset type_ size start parent named s

  put-put32 : put ≡ put32 started (o + 40) parent
  unfolding put_entry
  put-put32 = refl

  put-named : (x : ℕ) → x < o + 32 → put x ≡ named opened x
  put-named x lt =
      ap (λ (t : Sector). t x) put-put32
      ∙ put32_ne started (o + 40) parent x (inl (omega arith))
      ∙ put32_ne sized (o + 36) start x (inl (omega arith))
      ∙ put32_ne (named opened) (o + 32) size x (inl (omega arith))

  pub put-outside : (x : ℕ) → (x < o) ⊎ (o + 44 ≤ x) → put x ≡ s x
  put-outside x h =
      ap (λ (t : Sector). t x) put-put32
      ∙ put32_ne started (o + 40) parent x (omega arith)
      ∙ put32_ne sized (o + 36) start x (omega arith)
      ∙ put32_ne (named opened) (o + 32) size x (omega arith)
      ∙ keeps opened x (omega arith)
      ∙ put8_ne (put8 s o 1) (o + 1) type_ x (omega arith)
      ∙ put8_ne s o 1 x (omega arith)

  put-status : put o ≡ 1
  put-status =
      put-named o (omega arith)
      ∙ keeps opened o (omega arith)
      ∙ put8_ne (put8 s o 1) (o + 1) type_ o (omega arith)
      ∙ put8_self s o 1

  put-type : put (o + 1) ≡ type_
  put-type =
      put-named (o + 1) (omega arith)
      ∙ keeps opened (o + 1) (omega arith)
      ∙ put8_self (put8 s o 1) (o + 1) type_

  put-size : get32 put (o + 32) ≡ size % two32
  put-size =
      ap (λ (t : Sector). get32 t (o + 32)) put-put32
      ∙ get32-put32_ne started (o + 40) (o + 32) parent (omega arith)
      ∙ get32-put32_ne sized (o + 36) (o + 32) start (omega arith)
      ∙ get32-put32_self (named opened) (o + 32) size

  put-start : get32 put (o + 36) ≡ start % two32
  put-start =
      ap (λ (t : Sector). get32 t (o + 36)) put-put32
      ∙ get32-put32_ne started (o + 40) (o + 36) parent (omega arith)
      ∙ get32-put32_self sized (o + 36) start

  put-parent : get32 put (o + 40) ≡ parent % two32
  put-parent =
      ap (λ (t : Sector). get32 t (o + 40)) put-put32 ∙ get32-put32_self started (o + 40) parent

  -- The new entry, for a name that `named` puts in place.
  pub entry_at-put_entry :
      (name : List ℕ)
      → length name ≤ 29
      → ((t : Sector) → Holds (from (o + 2) (named t)) name)
      → ((entry_at put offset).status ≡ 1)
        × ((entry_at put offset).type_ ≡ type_)
        × Holds (entry_at put offset).name name
        × ((entry_at put offset).size ≡ size % two32)
        × ((entry_at put offset).start_block ≡ start % two32)
        × ((entry_at put offset).parent_block ≡ parent % two32)
  unfolding entry_at
  entry_at-put_entry name le holds = (
    put-status,
    put-type,
    Holds-agree name (from (o + 2) (named opened)) (from (o + 2) put)
        (λ k lek. put-named (o + 2 + k) (omega arith)) (holds opened),
    put-size,
    put-start,
    put-parent,
  )

  get32-outside : (x : ℕ) → (x + 4 ≤ o) ⊎ (o + 44 ≤ x) → get32 put x ≡ get32 s x
  unfolding get32
  get32-outside x h = rw (
    put-outside x (omega arith),
    put-outside (x + 1) (omega arith),
    put-outside (x + 2) (omega arith),
    put-outside (x + 3) (omega arith),
  )

  -- The other entries: what `chainfs_find_in_directory` looks at stays.
  pub entry_at-put_entry_ne :
      (j : ℕ)
      → j ≢ offset
      → ((entry_at put j).status ≡ (entry_at s j).status)
        × ((entry_at put j).parent_block ≡ (entry_at s j).parent_block)
        × ((k : ℕ) → k ≤ 29 → (entry_at put j).name k ≡ (entry_at s j).name k)
  unfolding entry_at
  entry_at-put_entry_ne j ne = (
    put-outside (60 * j) (omega arith),
    get32-outside (60 * j + 40) (omega arith),
    λ k le. put-outside (60 * j + 2 + k) (omega arith),
  )
