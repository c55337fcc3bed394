-- ===== src/Shell/Editor.antt =====
-- The bounds of the line editor, kernel/shell.c.
use nova_kernel.Prelude.{
  ℕ, zero, suc, ◌+◌, ◌-◌, ◌%◌, ◌<◌, ◌≤◌, ◌≡◌, Bool, true, false, ◌&&◌, leb, ltb, ◌==◌,
  if◌then◌else◌, arith, List, [], ◌∷◌, length, take, drop, Bool-cases, inl, inr, subst, Option,
  none, some, length-append, length-take, tests, codes,
}
use nova_kernel.Shell.{
  Shell, World, line_max, c_dim, is_nil, remember, hist_get, hist_max, redraw_line, con_write,
  prompt,
}
use nova_kernel.Shell.Complete.{complete, append_rest, token_start, candidates, lower}
use nova_kernel.Shell.Run.{
  Machine, execute, enter_line, backspace, older, newer, type_char, shell_key, shell_run,
}

-- The line and the commands of the history leave a byte for the NUL in their buffers.
pub record Fits (s : Shell) : Type 0 where
  pub line : length s.line < line_max
  pub hist : (i : ℕ) → length (s.hist i) < line_max

-- a run that goes on
abbrev Kept : Option Shell → Type 0
Kept none = 0 ≤ 0
Kept (some s) = Fits s

either : (b : Bool) (x y : Option Shell) → Kept x → Kept y → Kept (if b then x else y)
either true x y hx hy = hx
either false x y hx hy = hy

either_shell : (b : Bool) (x y : Shell) → Fits x → Fits y → Fits (if b then x else y)
either_shell true x y hx hy = hx
either_shell false x y hx hy = hy

remember-Fits : (cmd : List ℕ) (s : Shell) → Fits s → Fits (remember cmd s)
unfolding remember
remember-Fits cmd s f = either_shell (is_nil cmd) _ _ f (
    either_shell _ _ _ f (record {
      line = f.line;
      hist = λ i.
          let l = length-take 127 cmd in
          let h = f.hist i in
          elim (Bool-cases (s.hist_count % hist_max == i)) [
            | inl e ↦ rw (e) (omega arith)
            | inr e ↦ rw (e) h
          ];
    }))

append_rest-Fits : (cs : List ℕ) (s : Shell) → Fits s → Fits (append_rest cs s)
unfolding append_rest
append_rest-Fits [] s f = f
append_rest-Fits (c ∷ cs) s f = elim (Bool-cases (ltb (length s.line) 127)) [
  | inl e ↦ rw (e) (
      append_rest-Fits cs _ (record {
        line = let l = length-append s.line (lower c ∷ []) in omega tests;
        hist = f.hist;
      }))
  | inr e ↦ rw (e) f
]

complete-Fits : (s : Shell) → Fits s → Fits (complete s)
unfolding complete
complete-Fits s f =
    let start = token_start (length s.line) s.line in
    let tlen = length s.line - start in
    let found = candidates start s.line s.world.disk in
    either_shell (tlen == 0) _ _ f (completed tlen found.last (found.count == 1))
  where
    completed :
        (tlen : ℕ) (last : Option (List ℕ)) (one : Bool)
        → Fits (elim last [
          | none ↦ s
          | some m ↦
              if one
              then append_rest (drop tlen m) s
              else record s { world = con_write (codes "\n(multiple matches)\n") c_dim s.world }
        ])
    completed tlen none one = f
    completed tlen (some m) one =
        either_shell one _ _ (append_rest-Fits (drop tlen m) s f)
          (record { line = f.line; hist = f.hist })

backspace-Fits : (s : Shell) → Fits s → Fits (backspace s)
backspace-Fits s f =
    either_shell (ltb 0 (length s.line)) _ _
      (record {
        line = let l = length-take (length s.line - 1) s.line in let h = f.line in omega arith;
        hist = f.hist;
      })
      f

type_char-Fits : (c : ℕ) (s : Shell) → Fits s → Fits (type_char c s)
type_char-Fits c s f = elim (Bool-cases (ltb (length s.line) 127)) [
  | inl e ↦
      let l = length-append s.line (c % 256 ∷ []) in
      rw (e) (record { line = omega tests; hist = f.hist })
  | inr e ↦ rw (e) f
]

redraw_line-Fits : (s : Shell) → Fits s → Fits (redraw_line s)
unfolding redraw_line
redraw_line-Fits s f = record { line = f.line; hist = f.hist }

-- a recalled command
recalled-Fits :
    (h : List ℕ) (pos : Option ℕ) (s : Shell)
    → Fits s
    → Fits (record s { hist_pos = pos; line = take 127 h })
recalled-Fits h pos s f = record { line = let l = length-take 127 h in omega arith; hist = f.hist }

older-Fits : (s : Shell) → Fits s → Fits (older s)
older-Fits s f = go (elim s.hist_pos [ none ↦ 0 | some p ↦ p + 1 ]) (hist_get _ s)
  where
    go :
        (want : ℕ) (o : Option (List ℕ))
        → Fits (elim o [
          | none ↦ s
          | some h ↦ redraw_line (record s { hist_pos = some want; line = take (line_max - 1) h })
        ])
    go want none = f
    go want (some h) =
        redraw_line-Fits (record s { hist_pos = some want; line = take 127 h })
          (recalled-Fits h (some want) s f)

newer-Fits : (s : Shell) → Fits s → Fits (newer s)
newer-Fits s f = redraw_line-Fits _ (go s.hist_pos)
  where
    found :
        (p : ℕ) (o : Option (List ℕ))
        → Fits (elim o [
          | none ↦ record s { hist_pos = some p }
          | some h ↦ record s { hist_pos = some p; line = take (line_max - 1) h }
        ])
    found p none = record { line = f.line; hist = f.hist }
    found p (some h) = recalled-Fits h (some p) s f

    go :
        (o : Option ℕ)
        → Fits (elim o [
          | none ↦ record s { hist_pos = none; line = [] }
          | some zero ↦ record s { hist_pos = none; line = [] }
          | some (suc p) ↦ elim (hist_get p s) [
            | none ↦ record s { hist_pos = some p }
            | some h ↦ record s { hist_pos = some p; line = take (line_max - 1) h }
          ]
        ])
    go none = record { line = omega arith; hist = f.hist }
    go (some zero) = record { line = omega arith; hist = f.hist }
    go (some (suc p)) = found p (hist_get p s)

module _ (machine : Machine → World → Option World) where
  enter_line-Kept : (s : Shell) → Fits s → Kept (enter_line machine s)
  enter_line-Kept s f =
      let s0 = record s { world = con_write (codes "\n") 0x0F s.world } in
      go (remember s.line s0) (execute machine s.line (remember s.line s0).world)
        (remember-Fits s.line s0 (record { line = f.line; hist = f.hist }))
    where
      go :
          (s1 : Shell) (o : Option World)
          → Fits s1
          → Kept (elim o [
            | none ↦ none
            | some w ↦ some (record s1 { line = []; hist_pos = none; world = prompt w })
          ])
      go s1 none f1 = omega arith
      go s1 (some w) f1 = record { line = omega arith; hist = f1.hist }

  shell_key-Kept : (c : ℕ) (s : Shell) → Fits s → Kept (shell_key machine c s)
  unfolding shell_key
  shell_key-Kept c s f =
      let c1 = if c == 13 then 10 else c in
      let k = if c1 == 0x7F then 8 else c1 in
      either (k == 0) _ _ f (
        either (k == 10) _ _ (enter_line-Kept s f) (
          either (k == 8) _ _ (backspace-Fits s f) (
            either (k == 9) _ _ (complete-Fits s f) (
              either (k == 0x100 + b'A') _ _ (older-Fits s f) (
                either (k == 0x100 + b'B') _ _ (newer-Fits s f)
                  (either (leb b' ' k && ltb k 0x100) _ _ (type_char-Fits k s f) f))))))

  shell_run-Kept : (cs : List ℕ) (s : Shell) → Fits s → Kept (shell_run machine cs s)
  unfolding shell_run
  shell_run-Kept [] s f = f
  shell_run-Kept (c ∷ cs) s f =
      go (shell_key machine c s) (shell_key-Kept c s f) (shell_run-Kept cs)
    where
      go :
          (o : Option Shell)
          → Kept o
          → ((s' : Shell) → Fits s' → Kept (shell_run machine cs s'))
          → Kept (elim o [ none ↦ none | some s' ↦ shell_run machine cs s' ])
      go none h ih = h
      go (some s') h ih = ih s' h

-- Whatever keys come, the line and the commands of the history stay shorter than their buffers, which
-- leaves a byte for the NUL; the other commands of the machine may do what they like to the world.
pub shell_run-Fits :
    (machine : Machine → World → Option World) (keys : List ℕ) (s s' : Shell)
    → Fits s
    → shell_run machine keys s ≡ some s'
    → Fits s'
shell_run-Fits machine keys s s' f e = subst Kept e (shell_run-Kept machine keys s f)
