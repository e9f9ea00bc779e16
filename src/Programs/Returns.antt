-- ===== src/Programs/Returns.antt =====
-- The program cat returns for every disk.
use pizda.Prelude.{ℕ, ◌≡◌, refl, ap, arith, Option, some, none, Bool-cases, inl, inr, List, drop}
use pizda.ChainFs.{ChainFs}
use pizda.ChainFs.Files.{chainfs_read_file}
use pizda.ChainFs.Files.Returns.{Returns, chainfs_read_file-Returns}
use pizda.Programs.{Shell, starts_with, cat_word, cat_read, cat}

cat_read-Returns :
    (s : Shell) (o : Option (ChainFs × Option (ℕ × (ℕ → ℕ)))) → Returns o → Returns (cat_read s o)
cat_read-Returns s o ((fs, none), e) = (_, ap (cat_read s) e)
cat_read-Returns s o ((fs, some r), e) = (_, ap (cat_read s) e)

-- The program cat returns for every line and in every state, also where the disk holds no file system
-- or a chain of blocks that runs in a circle: 6 rounds are enough.
pub cat-Returns :
    (stack : ℕ → ℕ) (line : List ℕ) (s : Shell) → (s' : Shell) × (cat 6 stack line s ≡ some s')
unfolding cat
cat-Returns stack line s = elim (Bool-cases (starts_with cat_word line)) [
  | inl e ↦ rw e (
      cat_read-Returns s (chainfs_read_file 6 (drop 4 line) 2047 stack s.fs)
        (chainfs_read_file-Returns 2047 (omega arith) 4 (drop 4 line) stack s.fs (omega arith)))
  | inr e ↦ rw e (_, refl)
]
