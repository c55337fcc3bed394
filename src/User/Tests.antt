-- ===== src/User/Tests.antt =====
-- The witness of the loader, and a run that leaves the window.
use nova_kernel.Prelude.{ℕ, ◌+◌, false, ◌<◌, ◌≡◌, refl, true, ◌==◌, if◌then◌else◌, arith}
use nova_kernel.Mm.{mm_init}
use nova_kernel.Sched.{Task, Sched, Services, no_task}
use nova_kernel.Sched.Switch.{Valid}
use nova_kernel.User.{
  Loader, Segment, user_load_elf, segment_at, quad, half, user_stack_top, copy_segment, segment_ok,
}
use nova_kernel.User.Window.{Sound, user_load_elf-outside}

-- A header with one segment of eight bytes at 0x200000, four of them in the file.
abbrev image : ℕ → ℕ
image i =
    if i == 0
    then 0x7F
    else if i == 1
    then b'E'
    else if i == 2
    then b'L'
    else if i == 3
    then b'F'
    else if i == 16
    then 2
    else if i == 18
    then 3
    else if i == 26
    then 0x20
    else if i == 28
    then 52
    else if i == 44
    then 1
    else if i == 52
    then 1
    else if i == 62
    then 0x20
    else if i == 68
    then 4
    else if i == 72
    then 8
    else 0

abbrev idle : Loader
idle = record {
  paging = record {
    memory = λ a. if a == 0x9000 then 0xA007 else 0;
    mm = mm_init;
    cr3 = 0x9000;
    stray = false;
  };
  mem = λ a. 7;
}

image-Sound : (k : ℕ) → k < half image 44 → Sound (segment_at image (quad image 28) k)
image-Sound k lt =
    let z : k ≡ 0 = omega arith in
    rw (z) (record { file_fits = omega arith; no_wrap = omega arith })

user_load_elf-outside_example : (user_load_elf 0x9000 image 84 idle).1.mem user_stack_top ≡ 7
user_load_elf-outside_example =
    user_load_elf-outside 0x9000 image 84 idle user_stack_top image-Sound refl

-- A segment whose bytes in the file are more than those in memory passes the checks and is copied
-- over the top of the window.
abbrev long_segment : Segment
long_segment = record { p_type = 1; p_offset = 0; p_vaddr = 0x2EFFFF; p_filesz = 2; p_memsz = 0 }

long_segment_accepted : segment_ok 84 long_segment ≡ true
long_segment_accepted = refl

long_segment_written : copy_segment image long_segment (λ a. 7) user_stack_top ≡ b'E'
long_segment_written = refl

-- A heap that always has room, below one task.
abbrev some_heap : Services ℕ
some_heap = record {
  kmalloc = λ n e. (e + 0x300000, e + n);
  kfree = λ a e. e;
  paging_fork_addr_space = λ a e. (0, e);
  paging_destroy_addr_space = λ loaded a e. e;
}

abbrev boot_task : Task
boot_task = record no_task { pid = 1; state = true; slice_left = 5 }

abbrev one_task : Sched ℕ
one_task = record {
  tasks = λ i. if i == 0 then boot_task else no_task;
  task_count = 1;
  current = 0;
  next_pid = 2;
  sched_ready = true;
  sched_current_frame = 0x7F00;
  zombie_cr3 = 0;
  cpu_cr3 = 0x9000;
  cpu_esp0 = 0;
  cpu_esp = 0;
  halted = false;
  memory = λ a. 0;
  services = 0;
}

one_task-Valid : Valid one_task
one_task-Valid = record {
  here = omega arith;
  small = omega arith;
  live = refl;
  beyond = λ i h. ground arith;
  space = refl;
}
