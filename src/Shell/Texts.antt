-- ===== src/Shell/Texts.antt =====
-- The texts of the commands `help` and `about`, kernel/shell.c, line by line.
use nova_kernel.Prelude.{ℕ, List, [], ◌∷◌, ◌++◌, codes}

abbrev pub lines : List (List ℕ) → List ℕ
lines [] = []
lines (l ∷ ls) = l ++ lines ls

abbrev help_lines : List (List ℕ)
help_lines =
    codes "NovaOS shell - built-in commands\n"
    ∷ codes "  help              this text\n"
    ∷ codes "  clear             clear the screen\n"
    ∷ codes "  meminfo           physical / heap memory usage\n"
    ∷ codes "  tasks             running tasks\n"
    ∷ codes "  ps                task table with pid / name / state\n"
    ∷ codes "  ls                list the FAT12 root directory\n"
    ∷ codes "  cat <file>        print a file from the data disk\n"
    ∷ codes "  hexdump <file>    dump a file as hex + ASCII\n"
    ∷ codes "  stat <file>       size / first cluster / attribute\n"
    ∷ codes "  write <f> <text>  create or replace a file with <text>\n"
    ∷ codes "  append <f> <text> add <text> to the end of a file\n"
    ∷ codes "  rm <file>         delete a file\n"
    ∷ codes "  df                free space on the data disk\n"
    ∷ codes "  run <prog>        load a program from disk and run it in ring 3\n"
    ∷ codes "  echo <text>       print the arguments back\n"
    ∷ codes "  uptime            ticks since boot\n"
    ∷ codes "  gui               enter the graphical desktop\n"
    ∷ codes "  about             version / feature summary\n"
    ∷ codes "  reboot            reset the machine\n"
    ∷ codes "\n"
    ∷ codes "editing: <backspace> delete, <up>/<down> history, <tab> complete\n"
    ∷ []

abbrev about_lines : List (List ℕ)
about_lines =
    codes "NovaOS v1.0 - a small operating system written from scratch\n"
    ∷ codes "  boot    : 512B stage1 -> stage2 loader -> protected mode -> kernel\n"
    ∷ codes "  drivers : VGA text + mode-13h graphics, PS/2 keyboard & mouse,\n"
    ∷ codes "            8259 PIC, PIT, ATA PIO\n"
    ∷ codes "  memory  : physical frame allocator, kernel heap, per-process page\n"
    ∷ codes "            tables with copy-on-write fork\n"
    ∷ codes "  sched   : preemptive round robin, private ring0 stack per task\n"
    ∷ codes "  syscall : int 0x80 - write getpid exit fork open read close sleep brk\n"
    ∷ codes "  fs      : FAT12 reader (8.3 names, cluster chain, spc aware)\n"
    ∷ codes "  userland: static ELF32 loaded at 0x200000, runs in ring 3\n"
    ∷ []

unfoldable pub help_text : List ℕ
help_text = lines help_lines

unfoldable pub about_text : List ℕ
about_text = lines about_lines
