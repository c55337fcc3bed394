-- ===== src/Syscall/Tests.antt =====
-- The theorems on kernel/syscall.c at a concrete table of files, over a volume that holds nothing
-- and a scheduler that does nothing.
use nova_kernel.Prelude.{
  ℕ, ◌+◌, ◌≤◌, ◌≡◌, ◌↔◌, ◌⊎◌, refl, true, false, arith, ◌==◌, if◌then◌else◌, [], ◌∷◌, none, some,
}
use nova_kernel.Syscall.Services.{Fat, Sched}
use nova_kernel.Syscall.Files.{
  Sys, OpenFile, user_range_ok, user_mem_start, user_mem_end, bytes_at, sys_write_file, sys_read,
  sys_lseek, seek_target,
}
use nova_kernel.Syscall.Dispatch.{Regs, answer, syscall_dispatch}
use nova_kernel.Syscall.Range.{user_range_ok_iff}
use nova_kernel.Syscall.Table.{TableOk, syscall_dispatch-TableOk}
use nova_kernel.Syscall.Transfer.{Delivered, sys_read_lem}
use nova_kernel.Syscall.Overrun.{sys_read-write, sys_read_overrun}

abbrev empty_fat : Fat (Unit {0})
empty_fat = record {
  read = λ v name max out. (false, 0, out);
  write = λ v name data' len. (false, v);
  delete = λ v name. (false, v);
  stat = λ v name. none;
  read_le = λ v name max out. omega arith;
}

abbrev idle : Sched (Unit {0})
idle = record {
  current_pid = λ k. 1;
  is_user = λ k. true;
  set_slice = λ n k. k;
  fork = λ frame k. (0, k);
  exit_current = λ k. k;
  ticks = λ k. 7;
}

abbrev closed_file : OpenFile
closed_file = record {
  used = false;
  writable = false;
  dirty = false;
  size = 0;
  pos = 0;
  name = [];
  content = λ _. 0;
}

-- descriptor 3 is an empty file that is open for writing
abbrev one_file : Sys (Unit {0}) (Unit {0})
one_file = record {
  ofiles = λ i. if i == 3 then record closed_file { used = true; writable = true } else closed_file;
  memory = λ a. if a == 0x200000 then 65 else 66;
  console = [];
  volume = tt;
  kernel = tt;
}

-- the same, with the position at the end of the buffer
abbrev past_end : Sys (Unit {0}) (Unit {0})
past_end = record one_file {
  ofiles = λ i. if i == 3 then record closed_file { used = true; pos = 2048 } else closed_file;
}

one_file-TableOk : TableOk one_file.ofiles
one_file-TableOk i = ground arith

in_window : user_range_ok 0x200000 2 ≡ true
unfolding user_range_ok
in_window = refl

in_window_later : user_range_ok 0x200100 2 ≡ true
unfolding user_range_ok
in_window_later = refl

user_range_ok_iff_example :
    (user_range_ok 0x2FFFFF 2 ≡ true)
    ↔ ((◌≡◌ {A = ℕ} 2 0) ⊎ ((user_mem_start ≤ 0x2FFFFF) × (0x2FFFFF + 2 ≤ user_mem_end)))
user_range_ok_iff_example = user_range_ok_iff 0x2FFFFF 2 (omega arith) (omega arith)

-- lseek(3, 4000, SEEK_SET)
abbrev seek : Regs
seek = record { eax = 9; ebx = 3; ecx = 4000; edx = 0; frame = 0 }

abbrev seeked : Sys (Unit {0}) (Unit {0})
seeked = (sys_lseek 3 4000 0 one_file).1

seek_run : syscall_dispatch empty_fat idle seek one_file ≡ some (answer seek 2048, seeked)
unfolding syscall_dispatch sys_lseek seek_target
seek_run = refl

syscall_dispatch-TableOk_example : TableOk seeked.ofiles
syscall_dispatch-TableOk_example =
    syscall_dispatch-TableOk empty_fat idle seek (answer seek 2048) one_file seeked one_file-TableOk
      seek_run

-- nothing is left to read in an empty file
sys_read_lem_example :
    (s' : Sys (Unit {0}) (Unit {0})) × (sys_read 3 0x200000 2 one_file ≡ some (0, s'))
    × Delivered one_file s' 3 0x200000 0
sys_read_lem_example =
    sys_read_lem one_file 3 0x200000 2 (one_file-TableOk 3) (omega arith) refl (omega arith)
      in_window

sys_read-write_example :
    (s1 : Sys (Unit {0}) (Unit {0})) × (s3 : Sys (Unit {0}) (Unit {0})) × (sys_write_file 3 0x200000
        2 one_file
      ≡ some (2, s1))
    × (sys_read 3 0x200100 2 (sys_lseek 3 0 0 s1).1 ≡ some (2, s3))
    × (bytes_at s3.memory 0x200100 2 ≡ 65 ∷ 66 ∷ [])
unfolding bytes_at
sys_read-write_example =
    sys_read-write one_file 3 0x200000 0x200100 2 (one_file-TableOk 3) (omega arith) refl refl
      in_window in_window_later (omega arith)

sys_read_overrun_example : sys_read 3 0x200000 2 past_end ≡ none
sys_read_overrun_example =
    sys_read_overrun past_end 3 0x200000 2 (omega arith) refl (omega arith) (omega arith) in_window
      (omega arith) (omega arith) (omega arith)
