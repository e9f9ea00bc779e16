-- ===== src/ChainFs/Files/Name.antt =====
-- The name that `chainfs_write_file` puts in an entry.
use pizda.Prelude.{
  ℕ, zero, suc, ◌+◌, ◌*◌, ◌≤◌, ◌≡◌, inl, inr, refl, ap, ◌∙◌, arith, List, [], ◌∷◌, length, get_or,
  take, Bool-cases, ltb,
}
use pizda.Pata.{Sector}
use pizda.Mlibc.{from}
use pizda.Mlibc.Strings.{Holds}
use pizda.ChainFs.Table.{put_bytes}
use pizda.ChainFs.Table.Entry.{KeepsRest, Holds-get_or, put_bytes-outside, put_bytes-inside}
use pizda.ChainFs.Files.{zeros, put_name}

length-take : (n : ℕ) (xs : List ℕ) → length (take n xs) ≤ n
length-take zero xs = omega arith
length-take (suc n) [] = omega arith
length-take (suc n) (x ∷ xs) = omega (arith, length-take n xs)

take_all : (n : ℕ) (xs : List ℕ) → length xs ≤ n → take n xs ≡ xs
take_all zero [] h = refl
take_all zero (x ∷ xs) h = absurd (omega arith)
take_all (suc n) [] h = refl
take_all (suc n) (x ∷ xs) h = ap (λ (ys : List ℕ). x ∷ ys) (take_all n xs (omega arith))

length-zeros : (n : ℕ) → length (zeros n) ≡ n
length-zeros zero = refl
length-zeros (suc n) = ap suc (length-zeros n)

get_or-zeros : (n k : ℕ) → get_or (zeros n) k 0 ≡ 0
get_or-zeros zero k = refl
get_or-zeros (suc n) zero = refl
get_or-zeros (suc n) (suc k) = get_or-zeros n k

get_or-end : (xs : List ℕ) (k : ℕ) → length xs ≤ k → get_or xs k 0 ≡ 0
get_or-end [] k h = refl
get_or-end (x ∷ xs) zero h = absurd (omega arith)
get_or-end (x ∷ xs) (suc k) h = get_or-end xs k (omega arith)

pub put_name-KeepsRest :
    (offset : ℕ) (name : List ℕ) → KeepsRest (60 * offset) (put_name offset name)
unfolding put_name
put_name-KeepsRest offset name t x h =
    put_bytes-outside (take 29 name) (60 * offset + 2) _ x (omega (arith, length-take 29 name))
    ∙ put_bytes-outside (zeros 30) (60 * offset + 2) t x (omega (arith, length-zeros 30))

-- A name of 29 bytes at most stands in the entry with a NUL behind it.
pub put_name-Holds :
    (offset : ℕ) (name : List ℕ) (t : Sector)
    → length name ≤ 29
    → Holds (from (60 * offset + 2) (put_name offset name t)) name
unfolding put_name
put_name-Holds offset name t le = rw (take_all 29 name le) (
    let o = 60 * offset + 2 in
    let cleared = put_bytes o (zeros 30) t in
    Holds-get_or name (from o (put_bytes o name cleared)) (λ k lek.
      elim (Bool-cases (ltb k (length name))) [
        | inl lt ↦ put_bytes-inside name o cleared k (ground arith)
        | inr ge ↦
            let past : length name ≤ k = ground arith in
            put_bytes-outside name o cleared (o + k) (inr (omega arith))
            ∙ put_bytes-inside (zeros 30) o t k (omega (arith, length-zeros 30))
            ∙ get_or-zeros 30 k
            ∙ (let e = get_or-end name k past in rw e)
      ]))
