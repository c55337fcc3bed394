-- ===== src/User/Window.antt =====
-- Where the loader of kernel/user.c writes.
use nova_kernel.Prelude.{
  ℕ, zero, suc, ◌+◌, ◌^◌, ◌<◌, ◌≤◌, ◌≡◌, inl, inr, refl, Bool, true, false, ◌&&◌, ◌||◌, leb, ltb,
  ◌==◌, arith, Bool-cases, ◌∙◌,
}
use nova_kernel.Paging.{paging_map_user_region}
use nova_kernel.User.{
  Loader, Segment, user_text_base, user_stack_top, segment_at, segment_ok, copy_segment,
  load_segment, load_from, user_load_elf, half, quad, header_ok, pt_load,
}

-- The size in the file is at most that in memory, and the end of the segment does not wrap.
pub record Sound (s : Segment) : Type 0 where
  pub file_fits : s.p_filesz ≤ s.p_memsz
  pub no_wrap : s.p_vaddr + s.p_memsz < 2 ^ 32

-- an address outside the window of user programs
abbrev pub is_outside : ℕ → Bool
is_outside a = ltb a user_text_base || leb user_stack_top a

copy_segment-outside :
    (size : ℕ) (img : ℕ → ℕ) (s : Segment) (mem : ℕ → ℕ) (a : ℕ)
    → Sound s
    → segment_ok size s ≡ true
    → is_outside a ≡ true
    → copy_segment img s mem a ≡ mem a
copy_segment-outside size img s mem a sound ok out =
    let f = sound.file_fits in
    let w = sound.no_wrap in
    let top : s.p_vaddr + s.p_memsz ≤ user_stack_top = ground arith in
    let base : user_text_base ≤ s.p_vaddr = ground arith in
    let no1 : (ltb s.p_filesz s.p_memsz
          && leb (s.p_vaddr + s.p_filesz) a
          && ltb a (s.p_vaddr + s.p_memsz))
        ≡ false =
      ground arith in
    let no2 : (leb s.p_vaddr a && ltb a (s.p_vaddr + s.p_filesz)) ≡ false = ground arith in
    rw (no1, no2) refl

load_segment-outside :
    (cr3 : ℕ) (img : ℕ → ℕ) (size : ℕ) (s : Segment) (l : Loader) (a : ℕ)
    → Sound s
    → is_outside a ≡ true
    → (load_segment cr3 img size s l).1.mem a ≡ l.mem a
unfolding load_segment
load_segment-outside cr3 img size s l a sound out = elim (Bool-cases (s.p_type == pt_load)) [
  | inr e ↦ rw (e) refl
  | inl e ↦ rw (e) (elim (Bool-cases (segment_ok size s)) [
    | inr bad ↦ rw (bad) refl
    | inl ok ↦
        rw (ok) (elim (Bool-cases (paging_map_user_region cr3 s.p_vaddr s.p_memsz l.paging).0) [
          | inr full ↦ rw (full) refl
          | inl mapped ↦ rw (mapped) (copy_segment-outside size img s l.mem a sound ok out)
        ])
  ])
]

load_from-outside :
    (n i m cr3 : ℕ) (img : ℕ → ℕ) (size phoff : ℕ) (l : Loader) (a : ℕ)
    → i + n ≤ m
    → ((k : ℕ) → k < m → Sound (segment_at img phoff k))
    → is_outside a ≡ true
    → (load_from n i cr3 img size phoff l).1.mem a ≡ l.mem a
unfolding load_from
load_from-outside zero i m cr3 img size phoff l a le sound out = refl
load_from-outside (suc n) i m cr3 img size phoff l a le sound out =
    let one = load_segment cr3 img size (segment_at img phoff i) l in
    let first =
      load_segment-outside cr3 img size (segment_at img phoff i) l a (sound i (omega arith)) out in
    elim (Bool-cases one.0) [
      | inr e ↦ rw (e) first
      | inl e ↦
          rw (e) (
            load_from-outside n (i + 1) m cr3 img size phoff one.1 a (omega arith) sound out
            ∙ first)
    ]

-- When no segment of the image has more bytes in the file than in memory or an end that wraps, the
-- loader changes no byte outside the window of user programs, whether it succeeds or fails.
pub user_load_elf-outside :
    (cr3 : ℕ) (img : ℕ → ℕ) (size : ℕ) (l : Loader) (a : ℕ)
    → ((k : ℕ) → k < half img 44 → Sound (segment_at img (quad img 28) k))
    → is_outside a ≡ true
    → (user_load_elf cr3 img size l).1.mem a ≡ l.mem a
unfolding user_load_elf
user_load_elf-outside cr3 img size l a sound out = elim (Bool-cases (header_ok img size)) [
  | inr e ↦ rw (e) refl
  | inl e ↦ rw (e) (
      load_from-outside (half img 44) 0 (half img 44) cr3 img size (quad img 28) _ a (omega arith)
        sound out
      ∙ ground arith)
]
