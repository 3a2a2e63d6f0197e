-- ===== src/Boot/Tests.antt =====
-- The start of the kernel, before any process.
use jake.Common.{refl, false, Each}
use jake.Process.State.{Kernel}
use jake.Trap.Hart.{Hart}
use jake.Trap.Tests.{some_kernel}
use jake.Boot.{main}
use jake.Boot.First.{Entered, main-Entered}

abbrev no_process_yet : Kernel
no_process_yet = record some_kernel { processes_total = 0; last_pid = 0; proc_running = 0 }

abbrev some_hart : Hart
some_hart = record {
  mstatus = 0;
  mie = 0;
  sie = 0;
  mip = 0;
  mcause = 0;
  mepc = 0;
  mtime = 0;
  mtimecmp = 0;
  a0 = 0;
  off = false;
}

main-Entered_example : Each Entered (main 5000 0x8020_0000 no_process_yet some_hart)
main-Entered_example = main-Entered 5000 0x8020_0000 no_process_yet some_hart refl
