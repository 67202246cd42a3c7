-- ===== src/Lib.antt =====
-- utrace 0.1, a tracer of function calls for Linux: a model of its core and what holds of it.
--
-- The tracer runs a program under ptrace. It keeps a list of processes, each with a table of at most
-- 256 threads and a table of breakpoints; each thread has a stack of at most 100 calls. A breakpoint
-- at the entry of a traced function pushes a frame and sets a breakpoint at the return address; one
-- at a return address pops frames and takes their breakpoints away.
--
-- The files and the code that they model (paths from the repository's root):
--   Dict, Dict/*         utrace-0.1/dict.c: the chained table, its key functions, its walks
--   Ptrace               the kernel: ptrace(2) as a parameter, with the laws of reads and writes of text
--   Arch                 utrace-0.1/sysdeps/linux-gnu/*/arch.h
--   Trap, Trap/*         utrace-0.1/sysdeps/linux-gnu/breakpoint.c: traps over code
--   Tracee               utrace-0.1/ltrace.h: processes, threads, frames
--   Threads, Threads/*   utrace-0.1/proc.c and tid2thread of utrace-0.1/wait_for_something.c
--   Run                  runs that may fault
--   Options, Options/*   utrace-0.1/options.c: the command line, -e, and the search for the command
--   Elf, Elf/*           utrace-0.1/elf.c: the symbols of a file
--   Strings, Strings/*   umovestr of utrace-0.1/sysdeps/linux-gnu/trace.c and display_string of
--                        utrace-0.1/display_args.c
--   Breakpoints, */*     utrace-0.1/breakpoints.c: counted breakpoints on an explicit heap, and the
--                        code of the process under their traps
--   Callstack, */*       the call stack and its times, utrace-0.1/process_event.c
--   Processes, */*       the list of processes: proc.c, process_event.c, wait_for_something.c
--   Events, Events/*     the handlers of utrace-0.1/process_event.c with the ways to go on of
--                        utrace-0.1/sysdeps/linux-gnu/trace.c
--   Session, Session/*   the loop of main in utrace-0.1/ltrace.c: wait_for_something and
--                        process_event in turn, over the list of processes and the cache of
--                        pid2tgid
--   Tgid, Tgid/*         pid2tgid, its cache and its parser, utrace-0.1/sysdeps/linux-gnu/proc.c
--   Config, Config/*     utrace-0.1/read_config_file.c and name2func of utrace-0.1/output.c
--   Summary, Summary/*   utrace-0.1/summary.c and the sums of output_right in utrace-0.1/output.c
--   Printf, Printf/*     the conversions that the output hands to fprintf
--   Values, Values/*     utrace-0.1/display_args.c: arguments and return values as text
--   Output, Output/*     utrace-0.1/output.c: the lines of calls, returns and messages
--   Layout, Layout/*     the beginning of a line, utrace-0.1/output.c, and display_char of
--                        utrace-0.1/display_args.c
--   Arguments            gimme_arg of utrace-0.1/sysdeps/linux-gnu/i386/trace.c
--   Exits                the signal handlers of utrace-0.1/ltrace.c
--   Demangle             utrace-0.1/demangle.c
--   Users                change_uid of utrace-0.1/execute_program.c
--   Wait, Wait/*         utrace-0.1/wait_for_something.c and syscall_p of
--                        utrace-0.1/sysdeps/linux-gnu/i386/trace.c
--   Tests, Tests/*       runs on small inputs
--   Common, Common/*     shared names, Boolean tests, lists, integers
--
-- Numbers are the native ones. A pid_t is the pattern of its 32 bits, an address a number that does
-- not wrap, a `struct breakpoint *` an index into a heap, a thread its slot in the array. Assertions,
-- null pointers, freed structs, indices behind an array and `exit(1)` are faults of a run; malloc is
-- taken to succeed. All loops recur on a list, on the frames left or on the rounds left. Rounds are
-- counted from outside in three places: the digits of an int, of which there are at most 10; the
-- parts of a string, of which there are no more than characters; and the words of umovestr, of which
-- there are no more than len. The clock, the registers, the numbers of system calls, the names of
-- programs, getopt, atoi and the structs of a mapped ELF file are parameters.
--
-- Events records the calls of the output, and Output says what text they write.
--
-- Not modelled: starting the program and attaching to it, which are calls of the system; regs.c, one
-- request of ptrace each; and trace.c of the architectures other than i386, which takes a struct
-- process where ltrace.h has a struct thread. The answers of waitpid, the text of /proc/PID/status,
-- and the symbols that breakpoints_init gets from read_elf are parameters.
pub mod Common
pub mod Dict
pub mod Ptrace
pub mod Arch
pub mod Trap
pub mod Tracee
pub mod Threads
pub mod Run
pub mod Options
pub mod Tgid
pub mod Breakpoints
pub mod Callstack
pub mod Printf
pub mod Values
pub mod Output
pub mod Processes
pub mod Elf
pub mod Events
pub mod Wait
pub mod Session
pub mod Config
pub mod Summary
pub mod Layout
pub mod Arguments
pub mod Strings
pub mod Exits
pub mod Demangle
pub mod Users
mod Tests
