-- ===== src/Execution/Script.antt =====
-- A driver for tests: the VE follows a script of exceptions.
use veoffload.Base.{ℕ, zero, suc, ◌+◌, List, [], ◌∷◌, pos, negsuc, replicate, ◌==◌, if◌then◌else◌}
use veoffload.Args.Setup.{empty_args}
use veoffload.Context.State.{Context}
use veoffload.Execution.Driver.{Waited, Numbers, Driver, World}

-- What one wait shows, and the system call that the VE makes.
pub record Event : Type 0 where
  pub waited : Waited
  pub sysnum : ℕ
  pub first_arg : ℕ

-- The exception that was raised last, and those to come.
pub record Script : Type 0 where
  pub now : Event
  pub next : List Event

-- A wait that a signal interrupts.
abbrev pub interrupted : Event
interrupted = record {
  waited = record { ret = negsuc 0; errno = 4; exs = 0 };
  sysnum = 0;
  first_arg = 0;
}

abbrev pub system_call_event : ℕ → ℕ → Event
system_call_event sysnum arg = record {
  waited = record { ret = pos 0; errno = 0; exs = 0x100 };
  sysnum = sysnum;
  first_arg = arg;
}

-- The VE asks for a block.
abbrev pub block_event : Event
block_event = system_call_event 316 0x14

-- The VE stops at an exception that is fatal.
abbrev pub fatal_event : Event
fatal_event = record {
  waited = record { ret = pos 0; errno = 0; exs = 0x200 };
  sysnum = 0;
  first_arg = 0;
}

-- At its end the script gives an error of the driver.
abbrev wait_next : Event → List Event → Waited × Script
wait_next n [] = (record { ret = negsuc 0; errno = 5; exs = 0 }, record { now = n; next = [] })
wait_next n (e ∷ es) = (e.waited, record { now = e; next = es })

abbrev wait_script : Script → Waited × Script
wait_script d = wait_next d.now d.next

-- The arguments of a system call: the first one, a value to return, and the stack pointer.
abbrev script_arg : ℕ → Script → ℕ
script_arg zero d = d.now.first_arg
script_arg (suc zero) d = 77
script_arg (suc (suc n)) d = 4096

abbrev pub script_numbers : Numbers
script_numbers = record {
  exs_monc = 0x100;
  exs_mont = 0x200;
  exs_rdbg = 0x400;
  uncorrectable_error = 0x800;
  correctable_error = 0x1000;
  nr_rt_sigaction = 13;
  nr_rt_sigreturn = 15;
  nr_fork = 57;
  nr_vfork = 58;
  nr_execve = 59;
  nr_exit = 60;
  nr_wait4 = 61;
  nr_rt_sigpending = 127;
  nr_rt_sigtimedwait = 128;
  nr_rt_sigsuspend = 130;
  nr_sigaltstack = 131;
  nr_exit_group = 231;
  nr_signalfd = 282;
  nr_signalfd4 = 289;
  nr_clone = 56;
  sr00 = 0;
  sr11 = 11;
  sr12 = 12;
}

-- A transfer from address 0 fails.
abbrev pub script_driver : Driver Script
script_driver = record {
  numbers = script_numbers;
  wait_exception = wait_script;
  syscall_num = λ d. d.now.sysnum;
  syscall_arg = script_arg;
  un_block = λ n v d. d;
  block_syscall = λ d. d;
  handle_syscall = λ n d. d;
  set_user_reg = λ r v d. d;
  recv_data = λ a n d. (if a == 0 then negsuc 0 else pos 0, replicate n 9, d);
  send_data = λ a bytes d. (if a == 0 then negsuc 0 else pos 0, d);
  cleanup = λ d. d;
  sem_init = λ d. (0, d);
  sem_wait = λ d. ((0, 0), d);
  sem_destroy = λ d. d;
  errno = λ d. 5;
  sem_post = λ d. (pos 0, d);
  do_clone = λ d. (pos 100, d);
  context_address = λ d. 8000;
  vh_function = λ f x m. (f + x, m);
}

abbrev pub scripted : Context → List Event → World Script
scripted ctx events = record {
  ctx = ctx;
  vh = λ a. a;
  args = λ i. empty_args;
  ve = record { now = interrupted; next = events };
}
