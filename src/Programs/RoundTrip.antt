-- ===== src/Programs/RoundTrip.antt =====
-- The program cat shows what touch wrote.
use pizda.Prelude.{
  ℕ, ◌*◌, ◌%◌, ◌≤◌, ◌<◌, ◌≡◌, ◌≢◌, refl, sym, ap, ◌∙◌, leb, Bool-cases, inl, inr, arith, two32,
  some, true, length, get_or, List, [], ◌++◌, All,
}
use mathlib.Core.Path.{subst}
use pizda.Pata.{Sector}
use pizda.Heap.{align16}
use pizda.Heap.Blocks.{Block, alloc_ptr}
use pizda.Heap.State.{IsHeap}
use pizda.ChainFs.{ChainFs, chainfs_magic, entries_per_block}
use pizda.ChainFs.Map.{IsMounted, next_of, buffered, sector}
use pizda.ChainFs.Map.Search.{free_count, data_blocks}
use pizda.ChainFs.Table.{entry_at, is_unused}
use pizda.ChainFs.Table.Lookup.{InTable, IsNew}
use pizda.ChainFs.Paths.Name.{IsNameByte}
use pizda.ChainFs.Files.{blocks_needed, chainfs_read_file, chainfs_write_file}
use pizda.ChainFs.Data.Load.{Prefix}
use pizda.ChainFs.Files.RoundTrip.{chainfs_read_file-chainfs_write_file}
use pizda.Programs.{
  Shell, clamp_line, finish, touch_word, content_flag, touched, touch_file, touch, cat_word,
  cat_lines, cat_read, cat,
}
use pizda.Programs.Lines.{
  IsLineByte, unlines, show_lines, cat_lines-unlines, unlines-no_nul, string_of-get_or,
  cut_content-append,
}

touch-touch_file :
    (kernel_end fuel : ℕ) (name content : List ℕ) (s : Shell)
    → All (λ c. c ≢ 32) name
    → touch kernel_end fuel (touch_word ++ name ++ content_flag ++ content) s
      ≡ touch_file kernel_end fuel (name, content) s
unfolding touch
touch-touch_file kernel_end fuel name content s no_space =
    ap (λ (cut : List ℕ × List ℕ). touch_file kernel_end fuel cut s)
      (cut_content-append name content no_space)

pub finish-heap : (s : Shell) → (finish s).heap ≡ s.heap
unfolding finish clamp_line
finish-heap s = elim (Bool-cases (leb 25 s.current_line)) [ inl e ↦ rw e | inr e ↦ rw e ]

pub finish-fs : (s : Shell) → (finish s).fs ≡ s.fs
unfolding finish clamp_line
finish-fs s = elim (Bool-cases (leb 25 s.current_line)) [ inl e ↦ rw e | inr e ↦ rw e ]

cat-cat_lines :
    (fuel : ℕ) (name text : List ℕ) (stack out : ℕ → ℕ) (s : Shell) (fs : ChainFs)
    → All (λ c. c ≢ 0) text
    → chainfs_read_file fuel name 2047 stack s.fs ≡ some (fs, some (length text, out))
    → Prefix (λ j. get_or text j 0) (length text) out
    → cat fuel stack (cat_word ++ name) s ≡ some (finish (cat_lines [] text (record s { fs = fs })))
unfolding cat
cat-cat_lines fuel name text stack out s fs clean read pre =
    ap (cat_read s) read
    ∙ ap (λ (xs : List ℕ). some (finish (cat_lines [] xs (record s { fs = fs }))))
        (string_of-get_or text out clean pre)

-- After `touch name -C text` succeeds, `cat name` shows the text, whatever has become of the screen
-- in between.
pub touch-cat_lines :
    (kernel_end fuel block offset : ℕ) (name text : List ℕ) (stack : ℕ → ℕ) (s : Shell)
    (bs : List Block) (v : IsMounted s.fs)
    → All (λ c. c ≢ 0) text
    → length text ≤ 2047
    → All IsNameByte name
    → All (λ c. c ≢ 32) name
    → length name ≤ 29
    → s.fs.superblock.magic ≡ chainfs_magic
    → s.fs.current_dir_block < two32
    → IsNew s.fs.current_dir_block name s.fs
    → InTable s.fs block
    → offset < entries_per_block
    → is_unused (entry_at (sector s.fs block) offset) ≡ true
    → blocks_needed (length text) ≤ free_count (data_blocks s.fs v) 0 (next_of s.fs)
    → IsHeap s.heap bs
    → alloc_ptr (align16 (4 * blocks_needed (length text))) s.heap.heap_start bs ≢ 0
    → blocks_needed (length text) < fuel
    → (s' : Shell) × (b : Sector) × (touch kernel_end fuel
          (touch_word ++ name ++ content_flag ++ text)
          s
        ≡ some s')
      × ((t : Shell)
          → t.fs ≡ s'.fs
          → cat fuel stack (cat_word ++ name) t
            ≡ some (finish (cat_lines [] text (record t { fs = buffered s'.fs b }))))
touch-cat_lines kernel_end fuel block offset name text stack s bs v clean fits simple no_space short
      magic word new t lt unused free valid room more =
    let (heap', fs', b, out, written, _, read, pre) =
      chainfs_read_file-chainfs_write_file kernel_end fuel (length text) block offset name
        (λ j. get_or text j 0) s.heap bs s.fs v magic word simple short new t lt unused free valid
        room (omega arith) 2047 stack fits (omega arith) more in
    let s' = finish (record s { heap = heap'; fs = fs' }) in
    let whole : length text % two32 ≡ length text = omega arith in
    let kept : s'.fs ≡ fs' = finish-fs (record s { heap = heap'; fs = fs' }) in
    (
      s',
      b,
      touch-touch_file kernel_end fuel name text s no_space
          ∙ ap
              (λ (n : ℕ).
                touched s
                  (chainfs_write_file kernel_end fuel name (λ j. get_or text j 0) n s.heap s.fs))
              whole
          ∙ ap (touched s) written,
      λ u same.
          cat-cat_lines fuel name text stack out u (buffered s'.fs b) clean
            (subst
              (λ g.
                chainfs_read_file fuel name 2047 stack g
                ≡ some (buffered s'.fs b, some (length text, out)))
              (sym same)
              (subst
                (λ g.
                  chainfs_read_file fuel name 2047 stack g
                  ≡ some (buffered g b, some (length text, out)))
                (sym kept) read))
            pre,
    )

-- After `touch name -C text` the command `cat name` shows the lines of the text one below the other,
-- and then the prompt; both succeed. The text is lines with a newline behind each, without NULs, and
-- has 2047 bytes at most; the name has 29 bytes at most, no NUL, slash or space. The conditions on
-- the state are those under which `chainfs_write_file` creates a file: the disk is mounted and has
-- the magic number, no entry of the table has the name in the current directory, an entry is unused,
-- the data area has the free blocks that the text needs, the heap has room for the list of the
-- blocks; and the fuel is more than the number of the blocks.
pub cat-touch :
    (kernel_end fuel block offset : ℕ) (name : List ℕ) (lines : List (List ℕ)) (stack : ℕ → ℕ)
    (s : Shell) (bs : List Block) (v : IsMounted s.fs)
    → All (All IsLineByte) lines
    → length (unlines lines) ≤ 2047
    → All IsNameByte name
    → All (λ c. c ≢ 32) name
    → length name ≤ 29
    → s.fs.superblock.magic ≡ chainfs_magic
    → s.fs.current_dir_block < two32
    → IsNew s.fs.current_dir_block name s.fs
    → InTable s.fs block
    → offset < entries_per_block
    → is_unused (entry_at (sector s.fs block) offset) ≡ true
    → blocks_needed (length (unlines lines)) ≤ free_count (data_blocks s.fs v) 0 (next_of s.fs)
    → IsHeap s.heap bs
    → alloc_ptr (align16 (4 * blocks_needed (length (unlines lines)))) s.heap.heap_start bs ≢ 0
    → blocks_needed (length (unlines lines)) < fuel
    → (s' : Shell) × (b : Sector) × (touch kernel_end fuel
          (touch_word ++ name ++ content_flag ++ unlines lines)
          s
        ≡ some s')
      × (cat fuel stack (cat_word ++ name) s'
          ≡ some (finish (show_lines lines (record s' { fs = buffered s'.fs b }))))
cat-touch kernel_end fuel block offset name lines stack s bs v clean fits simple no_space short
      magic word new t lt unused free valid room more =
    let (s', b, written, shows) =
      touch-cat_lines kernel_end fuel block offset name (unlines lines) stack s bs v
        (unlines-no_nul lines clean) fits simple no_space short magic word new t lt unused free
        valid room more in
    (
      s',
      b,
      written,
      shows s' refl
          ∙ ap (λ (u : Shell). some (finish u))
              (cat_lines-unlines lines (record s' { fs = buffered s'.fs b }) clean),
    )
