-- ===== src/Programs/Info.antt =====
-- The commands info and fetch: src/kernel/bin/info.c and fetch.c, and what shell.c shows of them.
use pizda.Prelude.{ℕ, ◌+◌, ◌/◌, ◌%◌, ◌^◌, ◌==◌, if◌then◌else◌, List, [], ◌∷◌, ◌++◌, codes}
use pizda.Programs.{Shell, show_line, finish}
use pizda.Programs.Outside.{Registers, Outside}

-- The four bytes of a register in memory.
unfoldable pub register_bytes : ℕ → List ℕ
register_bytes r = r % 256 ∷ r / 2 ^ 8 % 256 ∷ r / 2 ^ 16 % 256 ∷ r / 2 ^ 24 % 256 ∷ []

-- The string in a buffer that holds the bytes and a NUL behind them.
unfoldable pub until_nul : List ℕ → List ℕ
until_nul [] = []
until_nul (c ∷ cs) = let rest = until_nul cs in if c == 0 then [] else c ∷ rest

unfoldable pub get_cpu_vendor : Outside → List ℕ
get_cpu_vendor o =
    let r = o.cpuid 0 in
    until_nul (register_bytes r.ebx ++ register_bytes r.edx ++ register_bytes r.ecx)

-- What one round of the loop adds for its leaf.
unfoldable pub leaf_bytes : Registers → List ℕ
leaf_bytes r =
    register_bytes r.eax ++ register_bytes r.ebx ++ register_bytes r.ecx ++ register_bytes r.edx

unfoldable pub get_cpu_model : Outside → List ℕ
get_cpu_model o = until_nul (
    leaf_bytes (o.cpuid 0x80000002)
    ++ leaf_bytes (o.cpuid (0x80000002 + 1))
    ++ leaf_bytes (o.cpuid (0x80000002 + 2)))

unfoldable pub info : Outside → Shell → Shell
info o s = finish (show_line (get_cpu_model o) 0x0F (show_line (get_cpu_vendor o) 0x0F s))

-- Lines of one color, each below the last.
abbrev pub show_texts : ℕ → List (List ℕ) → Shell → Shell
show_texts color [] s = s
show_texts color (text ∷ texts) s = show_texts color texts (show_line text color s)

abbrev pub picture : List (List ℕ)
picture =
    codes "-----------------------------------"
    ∷ codes "--------------@@@@@----------------"
    ∷ codes "------------@---@---@--------------"
    ∷ codes "------------@-------@--------------"
    ∷ codes "-------------@-----@---------------"
    ∷ codes "-------------@-----@---------------"
    ∷ codes "-------------@-----@---------------"
    ∷ codes "-------------@-----@---------------"
    ∷ codes "-----------@@@-----@@@-------------"
    ∷ codes "--------@@@-----------@@@----------"
    ∷ codes "-------@-------@@@@------@---------"
    ∷ codes "-------@------@----@-----@---------"
    ∷ codes "--------@----@------@---@----------"
    ∷ codes "----------@@@--------@@@-----------"
    ∷ codes "-----------------------------------"
    ∷ []

unfoldable pub fetch : Shell → Shell
fetch s = show_texts 0x0A picture s
