-- ===== src/Gui.antt =====
-- The window manager of kernel/gui.c: the table of windows, the focus, and what the mouse and the
-- keys do to them. The drawing is left out. A coordinate is a native number: a negative one is set
-- to 0 where the source computes it, and the subtraction here stops at 0.
pub mod Focus
pub mod Desktop
pub mod Draw
pub mod Loop
pub mod Paint
pub mod Careful
pub mod Session
pub mod Shown
pub mod Cycle
pub mod Grip
mod Tests
use nova_kernel.Prelude.{
  ℕ, zero, suc, ◌+◌, ◌-◌, ◌*◌, ◌%◌, Bool, true, false, not, ◌&&◌, ◌||◌, ltb, leb, ◌==◌,
  if◌then◌else◌, update, Option, none, some,
}
use nova_kernel.Vga.{gfx_w}

abbrev pub max_win : ℕ
max_win = 8

abbrev pub title_h : ℕ
title_h = 12

-- GFX_H - TASKBAR_H
abbrev pub desktop_h : ℕ
desktop_h = 188

-- The title is a function of the type.
pub record Window : Type 0 where
  pub used : Bool
  pub kind : ℕ
  pub x : ℕ
  pub y : ℕ
  pub w : ℕ
  pub h : ℕ
  pub focused : Bool

-- `focus` is `none` for -1; `cascade` counts the windows that have been opened.
pub record Gui : Type 0 where
  pub wins : ℕ → Window
  pub focus : Option ℕ
  pub cascade : ℕ

-- for (i = n - 1; i >= 0; i--) if (test i) return i; return -1;
unfoldable pub last_below : ℕ → (ℕ → Bool) → Option ℕ
last_below zero test = none
last_below (suc n) test = if test n then some n else last_below n test

-- for (i = at; i < at + n; i++) if (test i) return i; return -1;
unfoldable pub first_from : ℕ → ℕ → (ℕ → Bool) → Option ℕ
first_from zero at test = none
first_from (suc n) at test =
    let rest = first_from n (at + 1) test in if test at then some at else rest

abbrev pub contains : Window → ℕ → ℕ → Bool
contains w x y = leb w.x x && ltb x (w.x + w.w) && leb w.y y && ltb y (w.y + w.h)

unfoldable pub win_at : ℕ → ℕ → Gui → Option ℕ
win_at x y g =
    let topmost = last_below max_win (λ i. (g.wins i).used && contains (g.wins i) x y) in
    elim g.focus [
      | none ↦ topmost
      | some f ↦ if (g.wins f).used && contains (g.wins f) x y then some f else topmost
    ]

unfoldable pub win_at_title : ℕ → ℕ → Gui → Option ℕ
win_at_title x y g = elim (win_at x y g) [
  | none ↦ none
  | some i ↦ if leb (g.wins i).y y && leb y ((g.wins i).y + title_h) then some i else none
]

-- the close box of a window that is at least ten pixels wide
abbrev pub on_close : Window → ℕ → ℕ → Bool
on_close w x y =
    leb (w.x + w.w - 10 + 1) x && leb x (w.x + w.w - 10 + 8) && leb (w.y + 2) y && leb y (w.y + 9)

unfoldable pub win_at_close : ℕ → ℕ → Gui → Option ℕ
win_at_close x y g = last_below max_win (λ i. (g.wins i).used && on_close (g.wins i) x y)

abbrev pub set_focused : ℕ → Bool → Gui → Gui
set_focused i b g = record g { wins = update g.wins i (record (g.wins i) { focused = b }) }

-- clear the flag of the window that has the focus, if it is another
unfoldable pub unfocus : Option ℕ → ℕ → Gui → Gui
unfocus none idx g = g
unfocus (some f) idx g = if not (f == idx) && (g.wins f).used then set_focused f false g else g

unfoldable pub win_raise : ℕ → Gui → Gui
win_raise idx g =
    let g' = unfocus g.focus idx g in
    if leb max_win idx || not (g.wins idx).used
    then g
    else set_focused idx true (record g' { focus = some idx })

-- A window in a free slot; its flag keeps its old value until it is raised.
unfoldable pub open_in : ℕ → Gui → Option ℕ → Option ℕ × Gui
open_in kind g none = (none, g)
open_in kind g (some i) =
    let w = record (g.wins i) {
      used = true;
      kind = kind;
      x = 10 + g.cascade % 6 * 16;
      y = 14 + g.cascade % 6 * 14;
      w = 168;
      h = 88;
    } in
    (some i, win_raise i (record g { wins = update g.wins i w; cascade = g.cascade + 1 }))

unfoldable pub win_open : ℕ → Gui → Option ℕ × Gui
win_open kind g = open_in kind g (first_from max_win 0 (λ i. not (g.wins i).used))

-- give the focus to a window, or to none
unfoldable pub focus_on : Option ℕ → Gui → Gui
focus_on none g = record g { focus = none }
focus_on (some i) g = set_focused i true (record g { focus = some i })

unfoldable pub win_close : ℕ → Gui → Gui
win_close idx g =
    let g' = record g { wins = update g.wins idx (record (g.wins idx) { used = false }) } in
    if leb max_win idx || not (g.wins idx).used
    then g
    else focus_on (last_below max_win (λ i. (g'.wins i).used)) g'

-- move the window that is dragged, by the offset at which it was taken
unfoldable pub drag_to : ℕ → ℕ → ℕ → ℕ → ℕ → Gui → Gui
drag_to i mx my dx dy g =
    let w = g.wins i in
    let nx = if ltb gfx_w (mx - dx + w.w) then gfx_w - w.w else mx - dx in
    let ny = if ltb desktop_h (my - dy + w.h) then desktop_h - w.h else my - dy in
    record g { wins = update g.wins i (record w { x = nx; y = ny }) }
