-- ===== src/Interrupt/Tests.antt =====
-- A small machine, and the witnesses of the dispatch of interrupts.
use nova_kernel.Prelude.{Bool, true, false, ◌==◌, if◌then◌else◌, none, some, []}
use nova_kernel.Mm.{mm_init}
use nova_kernel.Sched.{Task, Sched, no_task, sched_exit_current}
use nova_kernel.Fat.Disk.{Volume}
use nova_kernel.Syscall.Dispatch.{Regs}
use nova_kernel.Interrupt.{
  Env, Machine, Trap, on_timer, returned, killed, sched_of, resolve, with_sched, env_services,
  Outcome, panicked, undefined,
}
use nova_kernel.Paging.{Paging}

abbrev user_task : Task
user_task = record no_task { pid = 2; state = true; is_user = true; cr3 = 0x140000; slice_left = 3 }

-- a user task runs above the boot thread
abbrev tasks_env : Sched Env
tasks_env = record {
  tasks = λ i.
      if i == 0
      then record no_task { pid = 1; state = true; slice_left = 5 }
      else if i == 1
      then user_task
      else no_task;
  task_count = 2;
  current = 1;
  next_pid = 3;
  sched_ready = true;
  sched_current_frame = 0x7F00;
  zombie_cr3 = 0;
  cpu_cr3 = 0x140000;
  cpu_esp0 = 0;
  cpu_esp = 0;
  halted = false;
  memory = λ a. 0;
  services = record {
    heap = record { heap_head = 0; header = λ a. record { size = 0; free = 0; next = 0 } };
    paging = record { memory = λ a. 0; mm = mm_init; cr3 = 0x140000; stray = false };
  };
}

abbrev no_disk : Volume
no_disk = record {
  mounted = false;
  root_lba = 0;
  data_lba = 0;
  root_sectors = 0;
  fat_lba = 0;
  fat_sectors = 0;
  spc = 1;
  sector = λ lba i. 0;
  readable = λ lba. true;
  writable = λ lba. true;
}

abbrev machine : Machine Volume
machine = record {
  sys = record {
    ofiles = λ i. record {
      used = false;
      writable = false;
      dirty = false;
      size = 0;
      pos = 0;
      name = [];
      content = λ j. 0;
    };
    memory = λ a. 0;
    console = [];
    volume = no_disk;
    kernel = record { sched = tasks_env; ticks = 0 };
  };
  keys = record {
    kbuf = λ i. 0;
    head = 0;
    tail = 0;
    shift = false;
    caps = false;
    extended = false;
  };
  mouse = record {
    x = 0;
    y = 0;
    buttons = 0;
    prev = 0;
    pkt0 = 0;
    pkt1 = 0;
    pkt2 = 0;
    cycle = 0;
    enabled = true;
  };
  irq_handlers = λ i. if i == 0 then some on_timer else none;
  port = 0;
  out = [];
}

abbrev regs : Regs
regs = record { eax = 0; ebx = 0; ecx = 0; edx = 0; frame = 0x7E00 }

-- a write of the user task
abbrev bad_store : Trap
bad_store = record { int_no = 14; err_code = 6; cr2 = 0x200000; regs = regs }

abbrev tick : Trap
tick = record { int_no = 32; err_code = 0; cr2 = 0; regs = regs }

outcome_defined : Outcome Volume → Bool
outcome_defined undefined = false
outcome_defined (returned r m) = true
outcome_defined (killed m) = true
outcome_defined (panicked m) = true

abbrev left : Machine Volume
left =
    let m = (resolve 0x200000 6 machine).1 in
    with_sched m (sched_exit_current env_services (sched_of m))
