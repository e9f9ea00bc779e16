-- ===== src/Kernel/RoundTrip.antt =====
-- Three lines typed at the keyboard: a format, a touch, and a cat that shows what touch wrote.
use pizda.Prelude.{
  ℕ, suc, ◌+◌, ◌*◌, ◌≤◌, ◌<◌, ◌≡◌, ◌≢◌, refl, ap, ◌∙◌, arith, Option, some, Bool-cases, inl, inr,
  leb, List, [], ◌∷◌, ◌++◌, length, length-append, All, codes, two64,
}
use pizda.Pata.{Disk}
use pizda.Heap.{Heap, heap_size}
use pizda.Screen.{Screen}
use pizda.Keyboard.{Input, scanf}
use pizda.Keyboard.Line.{Enters}
use pizda.ChainFs.{ChainFs}
use pizda.ChainFs.Paths.Name.{IsNameByte}
use pizda.Programs.{
  Shell, show_line, clamp_line, finish, touch_word, content_flag, cat_word, cat, cat_lines,
}
use pizda.Programs.Lines.{IsLineByte, no_nul, All-append, cat_lines-text}
use pizda.Programs.RoundTrip.{finish-heap, finish-fs}
use pizda.Programs.Outside.{Outside}
use pizda.Programs.Calc.{input_of}
use pizda.Programs.Command.{Command}
use pizda.Programs.Dispatch.{Session, Outcome, run_command, shell_only, shell_and_dir}
use pizda.Programs.Sound.{IsSound}
use pizda.Kernel.Ready.{
  parse-format, parse-touch, parse-cat, settled, settled-fs, settled-heap, settled-screen, IsReady,
  blank, blank-IsReady, IsReady-same, format-run, ready-touch,
}
use pizda.Kernel.{start, bounded_some, main_round, Reaches}
use pizda.Kernel.Reach.{start-IsSettled, reaches-IsSettled}
use pizda.Kernel.Lines.{called, main_round-line}

-- The screen after cat: the text from the next row on, and then the prompt.
abbrev pub shown : List ℕ → Session → Input → Screen
shown text s input =
    (finish (clamp_line (show_line text 0x0F (called s input).typing.shell))).screen

shown-fs :
    (text : List ℕ) (s : Shell) (fs : ChainFs)
    → (finish (clamp_line (show_line text 0x0F (record s { fs = fs })))).screen
      ≡ (finish (clamp_line (show_line text 0x0F s))).screen
unfolding finish clamp_line show_line
shown-fs text s fs = elim (Bool-cases (leb 25 (s.current_line + 1))) [
  | inl e ↦ rw e refl
  | inr e ↦ rw (e, e) refl
]

format-bytes : All (λ c. c ≢ 0) (codes "format")
format-bytes =
    (omega arith, (omega arith, (omega arith, (omega arith, (omega arith, (omega arith, tt))))))

-- A round with the format command.
pub main_round-format :
    (o : Outside) (keys : ℕ → List (ℕ × ℕ)) (s : Session)
    → IsSound s.typing.shell
    → Enters (keys 0) (codes "format")
    → (s' : Session) × (main_round o keys s ≡ some (Outcome.returns s')) × IsReady s'.typing.shell
main_round-format o keys s v entered =
    let (input, _, run) =
      main_round-line o keys s (codes "format") entered format-bytes (omega arith) in
    let u = called s input in
    let after = finish (record (u.typing.shell) { fs = blank u.typing.shell }) in
    let run' =
      run
      ∙ ap (λ (c : Command). bounded_some (run_command o (λ i. keys (suc i)) (codes "format") c u))
          parse-format
      ∙ ap (λ (r : Option (Shell × List ℕ)). bounded_some (shell_and_dir u r))
          (format-run o.fuel u.dir u.typing.shell) in
    (
      _,
      run',
      IsReady-same (record (u.typing.shell) { fs = blank u.typing.shell }) (settled after)
          (settled-fs after ∙ finish-fs _) (settled-heap after ∙ finish-heap _)
          (blank-IsReady u.typing.shell v),
    )

module _ (o : Outside) (name text : List ℕ) (simple : All IsNameByte name)
    (no_space : All (λ c. c ≢ 32) name) (short : length name ≤ 29) (clean : All (λ c. c ≢ 0) text)
    (fits : length text ≤ 2047) (enough : 5 ≤ o.fuel) where
  -- A round with touch, and what cat then does.
  main_round-touch :
      (keys : ℕ → List (ℕ × ℕ)) (s : Session)
      → IsReady s.typing.shell
      → Enters (keys 0) (touch_word ++ name ++ content_flag ++ text)
      → All (λ c. c ≢ 0) (touch_word ++ name ++ content_flag ++ text)
      → length (touch_word ++ name ++ content_flag ++ text) < 2048
      → (s' : Session) × (main_round o keys s ≡ some (Outcome.returns s'))
        × ((t : Shell)
            → t.fs ≡ s'.typing.shell.fs
            → (fs : ChainFs) × (cat o.fuel o.stack (cat_word ++ name) t
                ≡ some (finish (cat_lines [] text (record t { fs = fs })))))
  main_round-touch keys s ready entered bytes lt =
      let line = touch_word ++ name ++ content_flag ++ text in
      let (input, _, run) = main_round-line o keys s line entered bytes lt in
      let u = called s input in
      let (s', written, shows) =
        ready-touch o name text simple no_space short clean fits enough u.typing.shell ready in
      let run' =
        run
        ∙ ap (λ (c : Command). bounded_some (run_command o (λ i. keys (suc i)) line c u))
            (parse-touch (name ++ content_flag ++ text))
        ∙ ap (λ (r : Option Shell). bounded_some (shell_only u r)) written in
      (_, run', λ t same. shows t (same ∙ settled-fs s'))

-- A round with cat, in a state where the command shows the text of one line.
main_round-cat :
    (o : Outside) (keys : ℕ → List (ℕ × ℕ)) (s : Session) (name : List ℕ) (c : ℕ) (text : List ℕ)
    → Enters (keys 0) (cat_word ++ name)
    → All (λ x. x ≢ 0) (cat_word ++ name)
    → length (cat_word ++ name) < 2048
    → All IsLineByte (c ∷ text)
    → ((t : Shell)
        → t.fs ≡ s.typing.shell.fs
        → (fs : ChainFs) × (cat o.fuel o.stack (cat_word ++ name) t
            ≡ some (finish (cat_lines [] (c ∷ text) (record t { fs = fs })))))
    → (s' : Session) × (input : Input) × (scanf 2048 s.typing.shell.current_line 2 0x0F
          (keys 0)
          (input_of s.typing)
        ≡ some input)
      × (main_round o keys s ≡ some (Outcome.returns s'))
      × (s'.typing.shell.screen ≡ shown (c ∷ text) s input)
main_round-cat o keys s name c text entered bytes lt clean shows =
    let line = cat_word ++ name in
    let (input, got, run) = main_round-line o keys s line entered bytes lt in
    let u = called s input in
    let (fs, out) = shows u.typing.shell refl in
    let found = record (u.typing.shell) { fs = fs } in
    let after = finish (cat_lines [] (c ∷ text) found) in
    let run' =
      run
      ∙ ap (λ (x : Command). bounded_some (run_command o (λ i. keys (suc i)) line x u))
          (parse-cat name)
      ∙ ap (λ (r : Option Shell). bounded_some (shell_only u r)) out in
    (
      _,
      input,
      got,
      run',
      settled-screen after
          ∙ ap (λ (x : Shell). (finish x).screen) (cat_lines-text c text found clean)
          ∙ shown-fs (c ∷ text) u.typing.shell fs,
    )

name_bytes : (name : List ℕ) → All IsNameByte name → All (λ c. c ≢ 0) name
name_bytes [] h = tt
name_bytes (c ∷ cs) ((nz, _), h) = (nz, name_bytes cs h)

touch-bytes :
    (name text : List ℕ)
    → All (λ c. c ≢ 0) name
    → All (λ c. c ≢ 0) text
    → All (λ c. c ≢ 0) (touch_word ++ name ++ content_flag ++ text)
touch-bytes name text h k =
    let rest =
      All-append (name ++ content_flag) text
        (All-append name content_flag h
          (omega arith, (omega arith, (omega arith, (omega arith, tt)))))
        k in
    (omega arith, (omega arith, (omega arith, (omega arith, (omega arith, (omega arith, rest))))))

-- Typed one after the other in any state that `kmain` gets to, the lines `format`,
-- `touch name -C text` and `cat name` all return, and the last one shows the text in the next row of
-- the screen, and then the prompt. Each line is entered by its keys, whether shift is held before or
-- not. The text is not empty and has no NUL and no newline; the name has 29 bytes at most, no NUL,
-- slash or space; and the line of touch has less than 2048 bytes. The kernel's end is above 0 and
-- leaves room for twice the heap below 2^64, and the fuel is 5 or more.
pub cat-touch-format :
    (o : Outside) (heap : Heap) (disk : Disk) (screen : Screen) (s : Session)
    (format_keys touch_keys cat_keys : ℕ → List (ℕ × ℕ)) (name : List ℕ) (c : ℕ) (text : List ℕ)
    → 0 < o.kernel_end
    → o.kernel_end + 2 * heap_size < two64
    → Reaches o (start o heap disk screen) s
    → 5 ≤ o.fuel
    → All IsNameByte name
    → All (λ x. x ≢ 32) name
    → length name ≤ 29
    → All IsLineByte (c ∷ text)
    → length (touch_word ++ name ++ content_flag ++ c ∷ text) < 2048
    → Enters (format_keys 0) (codes "format")
    → Enters (touch_keys 0) (touch_word ++ name ++ content_flag ++ c ∷ text)
    → Enters (cat_keys 0) (cat_word ++ name)
    → (s1 s2 s3 : Session) × (input : Input) × (main_round o format_keys s
        ≡ some (Outcome.returns s1))
      × (main_round o touch_keys s1 ≡ some (Outcome.returns s2))
      × (scanf 2048 s2.typing.shell.current_line 2 0x0F (cat_keys 0) (input_of s2.typing)
          ≡ some input)
      × (main_round o cat_keys s2 ≡ some (Outcome.returns s3))
      × (s3.typing.shell.screen ≡ shown (c ∷ text) s2 input)
cat-touch-format o heap disk screen s format_keys touch_keys cat_keys name c text pos room r enough
      simple no_space short clean lt k1 k2 k3 =
    let (sound, _) =
      reaches-IsSettled o (start o heap disk screen) s r
        (start-IsSettled o heap disk screen pos room) in
    let (s1, run1, ready) = main_round-format o format_keys s sound k1 in
    let bytes = name_bytes name simple in
    let data_bytes = no_nul (c ∷ text) clean in
    let (s2, run2, shows) =
      main_round-touch o name (c ∷ text) simple no_space short data_bytes
        (omega (
          arith,
          lt,
          length-append name content_flag,
          length-append (name ++ content_flag) (c ∷ text),
        ))
        enough touch_keys s1 ready k2 (touch-bytes name (c ∷ text) bytes data_bytes) lt in
    let (s3, input, got, run3, screen3) =
      main_round-cat o cat_keys s2 name c text k3
        (omega arith, (omega arith, (omega arith, (omega arith, bytes)))) (omega arith) clean
        shows in
    (s1, s2, s3, input, run1, run2, got, run3, screen3)
