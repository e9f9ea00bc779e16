-- ===== src/ChainFs/Paths/Split.antt =====
-- What `split_path` and the search for the last slash do with the paths that are joined from names.
use pizda.Prelude.{
  append_nil, ℕ, zero, suc, ◌≤◌, ◌<◌, ◌≡◌, ◌≢◌, refl, sym, ap, ◌∙◌, arith, none, some, true, ==_ne,
  length, List, [], ◌∷◌, ◌++◌, All,
}
use pizda.ChainFs.Paths.{slash, is_component, split_loop, split_path, cut_last}

-- The bytes of a name that a path may hold.
abbrev pub IsName : List ℕ → Type 0
IsName name = All (λ c. c ≢ slash) name × (0 < length name) × (length name < 31)

-- "/a/b/c" of its names.
abbrev pub join : List (List ℕ) → List ℕ
join [] = []
join (name ∷ names) = slash ∷ (name ++ join names)

append_one : (xs : List ℕ) (c : ℕ) (ys : List ℕ) → (xs ++ c ∷ []) ++ ys ≡ xs ++ c ∷ ys
append_one [] c ys = refl
append_one (x ∷ xs) c ys = ap (λ (zs : List ℕ). x ∷ zs) (append_one xs c ys)

is_component-name : (name : List ℕ) → IsName name → is_component name ≡ true
is_component-name name (h, pos, small) = ground arith

split_loop-name :
    (room : ℕ) (component xs path : List ℕ)
    → All (λ c. c ≢ slash) xs
    → split_loop (suc room) component (xs ++ path) ≡ split_loop (suc room) (component ++ xs) path
unfolding split_loop
split_loop-name room component [] path h =
    ap (λ (c : List ℕ). split_loop (suc room) c path) (sym (append_nil component))
split_loop-name room component (x ∷ xs) path (ne, h) = rw (==_ne x slash ne) (
    split_loop-name room (component ++ x ∷ []) xs path h
    ∙ ap (λ (c : List ℕ). split_loop (suc room) c path) (append_one component x xs))

split_loop-slash :
    (room : ℕ) (name path : List ℕ)
    → IsName name
    → split_loop (suc room) name (slash ∷ path) ≡ name ∷ split_loop room [] path
unfolding split_loop
split_loop-slash room name path h = rw (is_component-name name h)

split_loop-last :
    (room : ℕ) (name : List ℕ) → IsName name → split_loop (suc room) name [] ≡ name ∷ []
unfolding split_loop
split_loop-last room name h = rw (is_component-name name h)

split_loop-join :
    (names : List (List ℕ)) (room : ℕ) (name : List ℕ)
    → IsName name
    → All IsName names
    → length names < room
    → split_loop room name (join names) ≡ name ∷ names
split_loop-join names zero name h hs lt = absurd (omega arith)
split_loop-join [] (suc room) name h hs lt = split_loop-last room name h
split_loop-join (next ∷ names) (suc zero) name h hs lt = absurd (omega arith)
split_loop-join (next ∷ names) (suc (suc room)) name h (hn, hs) lt =
    split_loop-slash (suc room) name (next ++ join names) h
    ∙ ap (λ (rest : List (List ℕ)). name ∷ rest)
        (split_loop-name room [] next (join names) hn.0
          ∙ split_loop-join names (suc room) next hn hs (omega arith))

-- Splitting an absolute path gives back the names it is joined from, when each name has 1 to 30
-- bytes, none of them a slash, and there is room for all of them.
pub split_path-join :
    (names : List (List ℕ)) (room : ℕ)
    → All IsName names
    → length names ≤ room
    → split_path (join names) room ≡ names
unfolding split_path split_loop
split_path-join [] zero h le = refl
split_path-join [] (suc room) h le = refl
split_path-join (name ∷ names) zero h le = absurd (omega arith)
split_path-join (name ∷ names) (suc room) (h, hs) le =
    split_loop-name room [] name (join names) h.0 ∙ split_loop-join names (suc room) name h hs le

-- A name is a path of one component.
pub split_path-name :
    (name : List ℕ) (room : ℕ) → IsName name → split_path name (suc room) ≡ name ∷ []
unfolding split_path
split_path-name [] room (h, pos, small) = absurd (omega arith)
split_path-name (c ∷ cs) room ((ne, h), pos, small) = rw (==_ne c slash ne) (
    ap (split_loop (suc room) []) (sym (append_nil (c ∷ cs)))
    ∙ split_loop-name room [] (c ∷ cs) [] (ne, h)
    ∙ split_loop-last room (c ∷ cs) ((ne, h), pos, small))

pub cut_last-none : (path : List ℕ) → All (λ c. c ≢ slash) path → cut_last path ≡ none
unfolding cut_last
cut_last-none [] h = refl
cut_last-none (c ∷ path) (ne, h) = rw (cut_last-none path h, ==_ne c slash ne)

-- The search for the last slash cuts a path into what stands before it and the name after it, when
-- the name has no slash.
pub cut_last-append :
    (before name : List ℕ)
    → All (λ c. c ≢ slash) name
    → cut_last (before ++ slash ∷ name) ≡ some (before, name)
unfolding cut_last
cut_last-append [] name h = rw (cut_last-none name h)
cut_last-append (c ∷ before) name h = rw (cut_last-append before name h)
