-- ===== src/Gui/Draw.antt =====
-- The drawing of kernel/gui.c: the windows with what stands in them, the taskbar and the cursor.
use nova_kernel.Prelude.{
  ℕ, zero, suc, ◌+◌, ◌-◌, ◌*◌, ◌/◌, ◌%◌, Bool, false, not, ◌&&◌, ltb, ◌==◌, if◌then◌else◌, Option,
  none, some, List, [], ◌∷◌, for_range, get_or, codes,
}
use nova_kernel.Mm.{Mm, mm_free_frames}
use nova_kernel.Kheap.{Heap, kheap_used}
use nova_kernel.Sched.{Sched, sched_task_count, sched_current_pid}
use nova_kernel.Fat.Disk.{Volume}
use nova_kernel.Fat.Table.{fat_free_bytes}
use nova_kernel.Printf.{word, finished, undefined, unfinished, ksprintf, string_at}
use nova_kernel.Gui.{Window, Gui, max_win, title_h}
use nova_kernel.Vga.{
  Vga, gfx_w, gfx_h, gfx_putpixel, gfx_fillrect, gfx_drawchar, gfx_drawstring, gfx_clear,
}

abbrev pub taskbar_h : ℕ
taskbar_h = 12

abbrev pub win_console : ℕ
win_console = 0

abbrev pub win_about : ℕ
win_about = 1

abbrev pub win_meminfo : ℕ
win_meminfo = 2

abbrev pub win_tasks : ℕ
win_tasks = 3

abbrev pub win_files : ℕ
win_files = 4

-- What the windows show of the rest of the kernel.
pub record Readings : Type 0 where
  pub free_kb : ℕ
  pub heap_used : ℕ
  pub task_count : ℕ
  pub current_pid : ℕ
  pub ticks : ℕ
  pub fat_mounted : Bool
  pub fat_free : ℕ

-- The calls that `win_draw_content` makes for them; a broken heap has no answer.
unfoldable pub readings : {E : Type 0} → Mm → Heap → Sched E → ℕ → Volume → Option Readings
readings m h s ticks vol = elim (kheap_used h) [
  | none ↦ none
  | some used ↦ some (record {
    free_kb = mm_free_frames m * 4;
    heap_used = used;
    task_count = sched_task_count s;
    current_pid = sched_current_pid s;
    ticks = ticks;
    fat_mounted = vol.mounted;
    fat_free = fat_free_bytes vol;
  })
]

unfoldable pub win_title : ℕ → List ℕ
win_title kind =
    if kind == win_console
    then codes "Console"
    else if kind == win_about
    then codes "About NovaOS"
    else if kind == win_meminfo
    then codes "Memory Info"
    else if kind == win_tasks
    then codes "Tasks"
    else if kind == win_files
    then codes "Files"
    else codes "Window"

-- ksprintf(buf, fmt, value), and what stands in `buf` then
unfoldable pub printed : List ℕ → ℕ → List ℕ
printed fmt value = elim (ksprintf (λ i. 0) fmt (word value ∷ [])) [
  | undefined ↦ []
  | unfinished ↦ []
  | finished o ↦ string_at 40 0 o.buf
]

module _ (font : List (List ℕ)) where
  -- The loop over the title: `last` is where the close box begins.
  unfoldable pub draw_title : List ℕ → ℕ → ℕ → ℕ → ℕ → Vga → Vga
  draw_title [] tx y last bg v = v
  draw_title (c ∷ cs) tx y last bg v =
      if ltb tx last
      then draw_title cs (tx + 8) y last bg (gfx_drawchar font tx y c 0x0F bg v)
      else v

  unfoldable pub win_draw_frame : Window → Vga → Vga
  win_draw_frame w v =
      let title_bg = if w.focused then 0x09 else 0x08 in
      let right = w.x + w.w - 1 in
      let bottom = w.y + w.h - 1 in
      let cbx = w.x + w.w - 10 in
      let v1 = gfx_fillrect (w.x + 1) (w.y + 1) (w.x + w.w - 2) (w.y + w.h - 2) 0x07 v in
      let v2 = gfx_fillrect (w.x + 1) (w.y + 1) (w.x + w.w - 2) (w.y + title_h) title_bg v1 in
      let v3 = gfx_fillrect w.x w.y right w.y 0x0F v2 in
      let v4 = gfx_fillrect w.x bottom right bottom 0x08 v3 in
      let v5 = gfx_fillrect w.x w.y w.x bottom 0x0F v4 in
      let v6 = gfx_fillrect right w.y right bottom 0x08 v5 in
      let v7 = draw_title (win_title w.kind) (w.x + 4) (w.y + 3) cbx title_bg v6 in
      let v8 = gfx_fillrect (cbx + 1) (w.y + 2) (cbx + 8) (w.y + 9) 0x0C v7 in
      gfx_drawchar font (cbx + 2) (w.y + 3) b'x' 0x0F 0x0C v8

  -- Strings one after the other, each with its place and colour on the grey of the body.
  unfoldable pub draw_lines : ℕ → ℕ → List (ℕ × ℕ × List ℕ × ℕ) → Vga → Vga
  draw_lines cx cy [] v = v
  draw_lines cx cy ((dx, dy, text, fg) ∷ rest) v =
      draw_lines cx cy rest (gfx_drawstring font (cx + dx) (cy + dy) text fg 0x07 v)

-- What stands in a window, by its type: the places are from the corner of the content.
unfoldable pub content : ℕ → Readings → List (ℕ × ℕ × List ℕ × ℕ)
content kind r =
    if kind == win_about
    then (0, 0, codes "NovaOS v0.6", 0x04)
      ∷ (0, 11, codes "home-grown kernel", 0x01)
      ∷ (0, 21, codes "GDT IDT paging", 0x01)
      ∷ (0, 31, codes "ring3 FAT12 mouse", 0x01)
      ∷ (0, 45, codes "drag: title bar", 0x0E)
      ∷ (0, 55, codes "close: x or Esc", 0x0E)
      ∷ []
    else if kind == win_meminfo
    then (0, 0, codes "phys free:", 0x01)
      ∷ (88, 0, printed (codes "%u KB") r.free_kb, 0x04)
      ∷ (0, 12, codes "heap used:", 0x01)
      ∷ (88, 12, printed (codes "%u B") r.heap_used, 0x04)
      ∷ []
    else if kind == win_tasks
    then (0, 0, printed (codes "%u task(s)") r.task_count, 0x01)
      ∷ (0, 12, printed (codes "current pid %u") r.current_pid, 0x04)
      ∷ (0, 24, printed (codes "ticks %u") r.ticks, 0x01)
      ∷ []
    else if kind == win_files
    then (0, 0, codes "FAT12 volume", 0x01)
      ∷ (if r.fat_mounted
          then (0, 12, printed (codes "free %u KB") (r.fat_free / 1024), 0x02)
          else (0, 12, codes "no volume", 0x0C))
      ∷ (0, 26, codes "try: ls / cat", 0x0E)
      ∷ []
    else (0, 0, codes "kernel: hello from C", 0x02)
      ∷ (0, 12, codes "boot: loader->pmode", 0x02)
      ∷ (0, 24, codes "user: ring3 process", 0x02)
      ∷ (0, 38, codes "press C A M T F", 0x0E)
      ∷ []

-- a point in every sixteenth column of every sixteenth row, every other row moved by eight
unfoldable pub draw_grid : Vga → Vga
draw_grid v =
    for_range 12 0
      (λ row w. for_range 20 0 (λ col u. gfx_putpixel (row % 2 * 8 + col * 16) (row * 16) 0x09 u) w)
      v

-- i == focus
unfoldable pub is_index : Option ℕ → ℕ → Bool
is_index none i = false
is_index (some f) i = i == f

abbrev pub has_focus : Gui → ℕ → Bool
has_focus g i = is_index g.focus i

module _ (font : List (List ℕ)) where
  unfoldable pub win_draw_content : Readings → Window → Vga → Vga
  win_draw_content r w v = draw_lines font (w.x + 6) (w.y + title_h + 5) (content w.kind r) v

  unfoldable pub draw_window : Readings → Window → Vga → Vga
  draw_window r w v = win_draw_content r w (win_draw_frame font w v)

  -- The buttons of the taskbar from slot `i` on, the first at `bx`.
  unfoldable pub draw_buttons : ℕ → ℕ → ℕ → Gui → Vga → Vga
  draw_buttons zero i bx g v = v
  draw_buttons (suc n) i bx g v =
      let w = g.wins i in
      let bg = if has_focus g i then 0x09 else 0x08 in
      let first = get_or (win_title w.kind) 0 0 in
      let v1 = gfx_fillrect (bx - 2) (gfx_h - taskbar_h + 1) (bx + 42) (gfx_h - 2) bg v in
      let v2 = gfx_drawchar font (bx + 16) (gfx_h - 10) first 0x0F bg v1 in
      let rest =
        draw_buttons n (i + 1) (if w.used then bx + 46 else bx) g (if w.used then v2 else v) in
      if w.used && ltb (gfx_w - 50) (bx + 46) then v2 else rest

  unfoldable pub draw_taskbar : Gui → Vga → Vga
  draw_taskbar g v = draw_buttons max_win 0 60 g (
      gfx_drawstring font 4 (gfx_h - 10) (codes "NovaOS") 0x0A 0x00
        (gfx_fillrect 0 (gfx_h - taskbar_h) (gfx_w - 1) (gfx_h - 1) 0x00 v))

  unfoldable pub draw_focused : Readings → Gui → Vga → Vga
  draw_focused r g v = elim g.focus [
    | none ↦ v
    | some f ↦ if (g.wins f).used then draw_window r (g.wins f) v else v
  ]

  -- what is painted on the cleared screen
  unfoldable pub draw_desktop : Readings → Gui → Vga → Vga
  draw_desktop r g v = draw_taskbar g (
      draw_focused r g (
        for_range max_win 0
          (λ i w. if (g.wins i).used && not (has_focus g i) then draw_window r (g.wins i) w else w)
          (draw_grid v)))

  unfoldable pub redraw_all : Readings → Gui → Vga → Vga
  redraw_all r g v = draw_desktop r g (gfx_clear 0x01 v)

unfoldable pub draw_cursor : ℕ → ℕ → Vga → Vga
draw_cursor x y v =
    let v1 = for_range 7 0 (λ i w. gfx_putpixel x (y + i) 0x0F w) v in
    let v2 = for_range 5 0 (λ i w. gfx_putpixel (x + i) (y + 2 + i) 0x0F w) v1 in
    for_range 3 0 (λ i w. gfx_putpixel (x + i) (y + 6 - i) 0x0F w) v2
