-- ===== src/Output.antt =====
-- utrace-0.1/output.c: the lines of the output. `output` is a file other than the standard error
-- where -o was given. The clock, localtime(3) and gimme_arg come from outside; opt_i is the one of
-- the flags. On i386 save_register_args does nothing.
pub mod Counts
pub mod Calls
pub mod Plain
pub mod Begin
pub mod Args
pub mod Pages
pub mod Writing
pub mod Lines
pub mod Ends
pub mod Traces
pub mod Resumed
pub mod Tallies
use utrace.Common.{
  ℕ, zero, suc, ◌+◌, ◌-◌, ◌*◌, ◌^◌, Bool, true, false, not, ◌&&◌, ◌||◌, List, [], ◌∷◌, ◌++◌, Option,
  none, some, ◌==◌, if◌then◌else◌, ltb, length, get_or, set, replicate,
}
use utrace.Common.Int.{ℤ, pos, negsuc, ◌+ℤ◌}
use utrace.Run.{Run, ok, fault, null_pointer, ◌>>=◌}
use utrace.Ptrace.{Ptrace}
use utrace.Tracee.{Timeval, Thread}
use utrace.Dict.{Dict, dict_init, dict_enter, dict_find_entry}
use utrace.Dict.Keys.{string_ops, same_string}
use utrace.Arguments.{Tof, tof_none, tof_function, tof_functionr, tof_syscall, tof_syscallr}
use utrace.Config.{ArgType, unknown, void, Function}
use utrace.Options.Parsing.{Settings}
use utrace.Layout.{line_time, add_prefix_space}
use utrace.Callstack.{element_at}
use utrace.Demangle.{my_demangle}
use utrace.Summary.{OptCStruct, add_call}
use utrace.Printf.{codes, signed, signed_text, unsigned_text, pointer_text, wide}
use utrace.Values.{display_arg}

-- The static variables of the file, the cache of the demangler, the structs of -c, which
-- `dict_opt_c` points into, and all that was written.
pub record Out : Type 0 where
  pub written : List ℕ
  pub current_pid : ℕ
  pub current_depth : ℕ
  pub current_column : ℕ
  pub old_tv : Timeval
  pub demangler : Option (Dict (List ℕ) (List ℕ))
  pub dict_opt_c : Option (Dict (List ℕ) ℕ)
  pub structs : List OptCStruct

-- `fprintf(output, …)`
unfoldable pub print : List ℕ → Out → Out
print text s = record s { written = s.written ++ text }

-- `current_column += fprintf(output, …)`
unfoldable pub print_counted : List ℕ → Out → Out
print_counted text s = record s {
  written = s.written ++ text;
  current_column = s.current_column + length text;
}

unfoldable pub tabto : ℤ → Out → Out
unfolding print
tabto (pos col) s =
    if ltb s.current_column col then print (replicate (col - s.current_column) 32) s else s
tabto (negsuc n) s = s

-- `if (current_pid) { … " <unfinished ...>\n" … }`
unfoldable pub leave_line : Out → Out
unfolding print
leave_line s =
    if s.current_pid == 0
    then s
    else record (print (codes " <unfinished ...>" ++ 10 ∷ []) s) { current_pid = 0 }

-- What the file reads from outside: the options, the functions of the configuration, the number of
-- processes, the clock at the call, `current_time_spent`, and what the C library makes of a time
-- and of a name.
pub record Surroundings : Type 0 where
  pub settings : Settings
  pub list_of_functions : List Function
  pub processes : ℕ
  pub long_bits : ℕ
  pub now : Timeval
  pub current_time_spent : ℤ × ℕ
  pub localtime : ℕ → ℕ × ℕ × ℕ
  pub cplus_demangle : List ℕ → Option (List ℕ)

-- An `unsigned long` that is given a signed difference.
abbrev pub as_ulong : ℕ → ℤ → ℕ
as_ulong bits (pos n) = n
as_ulong bits (negsuc n) = 2 ^ bits - 1 - n

abbrev pub two_digits : ℕ → List ℕ
two_digits n = wide 48 2 (unsigned_text n)

abbrev pub six_digits : ℕ → List ℕ
six_digits n = wide 48 6 (unsigned_text n)

abbrev pub clock_text : ℕ × ℕ × ℕ → List ℕ
clock_text (hour, min, sec) = two_digits hour ++ 58 ∷ (two_digits min ++ 58 ∷ two_digits sec)

-- `opt_C ? my_demangle(name) : name`
unfoldable pub shown_name : Surroundings → List ℕ → Out → List ℕ × Out
unfolding my_demangle
shown_name e name s =
    if e.settings.opt_C == 0
    then (name, s)
    else let r = my_demangle (e.cplus_demangle) name s.demangler in
      (r.0, record s { demangler = r.1 })

-- `name2func`: the loop over the list.
unfoldable pub find_function : Surroundings → List ℕ → List Function → Out → Option Function × Out
unfolding shown_name
find_function e name [] s = (none, s)
find_function e name (fun ∷ funs) s =
    let (str1, s₁) = shown_name e fun.name s in
    let (str2, s₂) = shown_name e name s₁ in
    let rest = find_function e name funs s₂ in
    if same_string str1 str2 then (some fun, s₂) else rest

abbrev pub to_file : Option (List ℕ) → Bool
to_file none = false
to_file (some f) = true

abbrev pub any_pid : List ℤ → Bool
any_pid [] = false
any_pid (q ∷ qs) = true

-- `begin_of_line`, part by part: the thread, the time since the last line, the time, the address.
unfoldable pub begin_thread : Surroundings → Thread → Out → Run Out
unfolding print_counted
begin_thread e thr s =
    if to_file e.settings.output && (any_pid e.settings.opt_p || e.settings.flags.opt_f)
    then ok (print_counted (unsigned_text thr.tid ++ codes " ") s)
    else if e.processes == 0
    then fault null_pointer
    else if ltb 1 e.processes
    then ok (print_counted (codes "[tid " ++ unsigned_text thr.tid ++ codes "] ") s)
    else ok s

unfoldable pub begin_relative : Surroundings → Out → Out
unfolding print_counted line_time
begin_relative e s =
    if e.settings.opt_r == 0
    then s
    else let ((sec, usec), old) = line_time (e.now) s.old_tv in
      print_counted
        (wide 32 3 (unsigned_text (as_ulong (e.long_bits) sec))
          ++ codes "."
          ++ six_digits usec
          ++ codes " ")
        (record s { old_tv = old })

unfoldable pub begin_absolute : Surroundings → Out → Out
unfolding print_counted
begin_absolute e s =
    if e.settings.opt_t == 0
    then s
    else if ltb 2 e.settings.opt_t
    then print_counted
        (unsigned_text e.now.tv_sec ++ codes "." ++ six_digits e.now.tv_usec ++ codes " ") s
    else if ltb 1 e.settings.opt_t
    then print_counted
        (clock_text (e.localtime e.now.tv_sec)
          ++ codes "."
          ++ six_digits e.now.tv_usec
          ++ codes " ")
        s
    else print_counted (clock_text (e.localtime e.now.tv_sec) ++ codes " ") s

-- `thr->return_addr` for a function, `thr->instruction_pointer` for all else.
abbrev pub address_of : Tof → Thread → ℕ
address_of tof_function thr = thr.return_addr
address_of tof_functionr thr = thr.return_addr
address_of type thr = thr.instruction_pointer

unfoldable pub begin_address : Surroundings → Tof → Thread → Out → Out
unfolding print_counted pointer_text
begin_address e type thr s =
    if e.settings.flags.opt_i
    then print_counted (codes "[" ++ pointer_text (address_of type thr) ++ codes "] ") s
    else s

abbrev pub has_no_type : Tof → Bool
has_no_type tof_none = true
has_no_type type = false

unfoldable pub output_indent : Surroundings → Tof → Thread → Out → Out
unfolding print_counted
output_indent e type thr s = elim e.settings.opt_n [
  | pos n ↦
      if not (n == 0) && not (has_no_type type)
      then print_counted (replicate (n * thr.callstack_depth) 32) s
      else s
  | negsuc n ↦ s
]

unfoldable pub begin_of_line : Surroundings → Tof → Option Thread → Out → Run Out
unfolding begin_thread begin_relative begin_absolute begin_address output_indent
begin_of_line e type none s = ok (record s { current_column = 0 })
begin_of_line e type (some thr) s = begin_thread e thr (record s { current_column = 0 }) >>= λ s₁.
    ok
      (output_indent e type thr (begin_address e type thr (begin_absolute e (begin_relative e s₁))))

-- `output_line`; the message is what `vfprintf` makes of its arguments.
unfoldable pub output_line : Surroundings → Option Thread → Option (List ℕ) → Out → Run Out
unfolding leave_line begin_of_line print
output_line e thr message s = if e.settings.flags.opt_c then ok s else elim message [
  | none ↦ ok (leave_line s)
  | some text ↦ begin_of_line e tof_none thr (leave_line s) >>= λ s₁.
      ok (record (print (text ++ 10 ∷ []) s₁) { current_column = 0 })
]

-- The two prints of `add_prefix_space`.
unfoldable pub print_prefix : ℕ → Bool → Out → Run Out
unfolding print_counted signed signed_text add_prefix_space
print_prefix depth is_left s = add_prefix_space depth is_left >>= λ spaces. ok (
    print_counted
      (codes "[" ++ wide 32 5 (signed_text (signed 32 s.current_pid)) ++ codes "] " ++ spaces) s)
