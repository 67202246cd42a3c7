-- ===== src/Arguments.antt =====
-- Where an argument is read from: `gimme_arg` of utrace-0.1/sysdeps/linux-gnu/i386/trace.c, and
-- `enum tof` of utrace-0.1/ltrace.h. The two reads are PTRACE_PEEKUSER and PTRACE_PEEKTEXT.
use utrace.Common.{ℕ, ◌+◌, ◌*◌, Option, none, some}
use utrace.Tracee.{Thread}
use utrace.Run.{Run, ok, fault, exit_failure}

pub data Tof : Type 0 where
  tof_none tof_function tof_functionr tof_syscall tof_syscallr : Tof

-- An `arg_num` of -1, the return value, is `none`. `eax` is the index of the register.
unfoldable pub gimme_arg :
    (peek_user peek_text : ℕ → ℕ → ℕ) (eax : ℕ) → Tof → Thread → Option ℕ → Run ℕ
gimme_arg peek_user peek_text eax type thr none = ok (peek_user thr.tid (4 * eax))
gimme_arg peek_user peek_text eax tof_function thr (some arg_num) =
    ok (peek_text thr.tid (thr.stack_pointer + 4 * (arg_num + 1)))
gimme_arg peek_user peek_text eax tof_functionr thr (some arg_num) =
    ok (peek_text thr.tid (thr.stack_pointer + 4 * (arg_num + 1)))
gimme_arg peek_user peek_text eax tof_syscall thr (some arg_num) =
    ok (peek_user thr.tid (4 * arg_num))
gimme_arg peek_user peek_text eax tof_syscallr thr (some arg_num) =
    ok (peek_user thr.tid (4 * arg_num))
gimme_arg peek_user peek_text eax tof_none thr (some arg_num) = fault exit_failure
