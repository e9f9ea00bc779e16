-- ===== src/Programs/Lines.antt =====
-- What cat shows of a text made of lines, and how touch cuts its command line.
use pizda.Prelude.{
  ℕ, zero, suc, ◌≤◌, ◌<◌, ◌≡◌, ◌≢◌, refl, sym, ap, ◌∙◌, arith, ==_ne, append_nil, length, get_or,
  List, [], ◌∷◌, ◌++◌, All,
}
use mathlib.Core.List.{append_assoc}
use pizda.Programs.{Shell, show_line, clamp_line, content_flag, cut_content, string_of, cat_lines}

-- A byte of a line: no NUL and no newline.
abbrev pub IsLineByte : ℕ → Type 0
IsLineByte c = (c ≢ 0) × (c ≢ 10)

-- The lines with a newline behind each.
abbrev pub unlines : List (List ℕ) → List ℕ
unlines [] = []
unlines (line ∷ lines) = line ++ 10 ∷ unlines lines

-- One line below the other.
abbrev pub show_lines : List (List ℕ) → Shell → Shell
show_lines [] s = s
show_lines (line ∷ lines) s = show_lines lines (clamp_line (show_line line 0x0F s))

cat_lines-cons :
    (passed : List ℕ) (c : ℕ) (text : List ℕ) (s : Shell)
    → c ≢ 10
    → cat_lines passed (c ∷ text) s ≡ cat_lines (passed ++ c ∷ []) text s
unfolding cat_lines
cat_lines-cons [] c text s ne = rw (==_ne c 10 ne)
cat_lines-cons (p ∷ ps) c text s ne = rw (==_ne c 10 ne)

cat_lines-newline :
    (passed text : List ℕ) (s : Shell)
    → cat_lines passed (10 ∷ text) s ≡ cat_lines [] text (clamp_line (show_line passed 0x0F s))
unfolding cat_lines
cat_lines-newline [] text s = refl
cat_lines-newline (p ∷ ps) text s = refl

cat_lines-line :
    (passed line text : List ℕ) (s : Shell)
    → All IsLineByte line
    → cat_lines passed (line ++ 10 ∷ text) s
      ≡ cat_lines [] text (clamp_line (show_line (passed ++ line) 0x0F s))
cat_lines-line passed [] text s h =
    cat_lines-newline passed text s
    ∙ ap (λ (l : List ℕ). cat_lines [] text (clamp_line (show_line l 0x0F s)))
        (sym (append_nil passed))
cat_lines-line passed (c ∷ line) text s ((nz, nn), h) =
    cat_lines-cons passed c (line ++ 10 ∷ text) s nn
    ∙ cat_lines-line (passed ++ c ∷ []) line text s h
    ∙ ap (λ (l : List ℕ). cat_lines [] text (clamp_line (show_line l 0x0F s)))
        (append_assoc passed (c ∷ []) line)

pub cat_lines-unlines :
    (lines : List (List ℕ)) (s : Shell)
    → All (All IsLineByte) lines
    → cat_lines [] (unlines lines) s ≡ show_lines lines s
cat_lines-unlines [] s h = unfold cat_lines in refl
cat_lines-unlines (line ∷ lines) s (h, hs) =
    cat_lines-line [] line (unlines lines) s h
    ∙ cat_lines-unlines lines (clamp_line (show_line line 0x0F s)) hs

pub All-append :
    (xs ys : List ℕ) → All (λ c. c ≢ 0) xs → All (λ c. c ≢ 0) ys → All (λ c. c ≢ 0) (xs ++ ys)
All-append [] ys h k = k
All-append (x ∷ xs) ys (e, h) k = (e, All-append xs ys h k)

pub no_nul : (line : List ℕ) → All IsLineByte line → All (λ c. c ≢ 0) line
no_nul [] h = tt
no_nul (c ∷ cs) ((nz, _), h) = (nz, no_nul cs h)

pub unlines-no_nul :
    (lines : List (List ℕ)) → All (All IsLineByte) lines → All (λ c. c ≢ 0) (unlines lines)
unlines-no_nul [] h = tt
unlines-no_nul (line ∷ lines) (h, hs) =
    All-append line (10 ∷ unlines lines) (no_nul line h) (omega arith, unlines-no_nul lines hs)

-- The buffer that holds the bytes of a text without NULs.
pub string_of-get_or :
    (text : List ℕ) (buffer : ℕ → ℕ)
    → All (λ c. c ≢ 0) text
    → ((j : ℕ) → j < length text → buffer j ≡ get_or text j 0)
    → string_of (length text) buffer ≡ text
unfolding string_of
string_of-get_or [] buffer h same = refl
string_of-get_or (c ∷ cs) buffer (nz, h) same =
    let first : buffer 0 ≡ c = same 0 (omega arith) in
    let rest = string_of-get_or cs (λ j. buffer (suc j)) h (λ j lt. same (suc j) (omega arith)) in
    rw (first, ==_ne c 0 nz) (ap (λ (xs : List ℕ). c ∷ xs) rest)

-- A name without spaces ends at the flag.
pub cut_content-append :
    (name content : List ℕ)
    → All (λ c. c ≢ 32) name
    → cut_content (name ++ content_flag ++ content) ≡ (name, content)
unfolding cut_content
cut_content-append [] content h = refl
cut_content-append (c ∷ cs) content (ne, h) = rw (==_ne c 32 ne, cut_content-append cs content h)

-- A text without newlines is one line.
cat_lines-rest :
    (passed text : List ℕ) (s : Shell)
    → All IsLineByte text
    → cat_lines passed text s ≡ cat_lines (passed ++ text) [] s
cat_lines-rest passed [] s h = ap (λ (l : List ℕ). cat_lines l [] s) (sym (append_nil passed))
cat_lines-rest passed (c ∷ text) s ((nz, nn), h) =
    cat_lines-cons passed c text s nn
    ∙ cat_lines-rest (passed ++ c ∷ []) text s h
    ∙ ap (λ (l : List ℕ). cat_lines l [] s) (append_assoc passed (c ∷ []) text)

pub cat_lines-text :
    (c : ℕ) (text : List ℕ) (s : Shell)
    → All IsLineByte (c ∷ text)
    → cat_lines [] (c ∷ text) s ≡ clamp_line (show_line (c ∷ text) 0x0F s)
cat_lines-text c text s h = cat_lines-rest [] (c ∷ text) s h ∙ (unfold cat_lines in refl)

-- The string in a buffer that holds the bytes of a line and a NUL.
pub string_of-line :
    (room : ℕ) (line : List ℕ) (buffer : ℕ → ℕ)
    → All (λ c. c ≢ 0) line
    → length line < room
    → ((j : ℕ) → j ≤ length line → buffer j ≡ get_or line j 0)
    → string_of room buffer ≡ line
unfolding string_of
string_of-line zero line buffer h lt same = absurd (omega arith)
string_of-line (suc room) [] buffer h lt same = rw (same 0 (omega arith)) refl
string_of-line (suc room) (c ∷ cs) buffer (nz, h) lt same =
    let first : buffer 0 ≡ c = same 0 (omega arith) in
    let rest =
      string_of-line room cs (λ j. buffer (suc j)) h (omega arith)
        (λ j le. same (suc j) (omega arith)) in
    rw (first, ==_ne c 0 nz) (ap (λ (xs : List ℕ). c ∷ xs) rest)
