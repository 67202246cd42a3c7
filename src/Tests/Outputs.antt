-- ===== src/Tests/Outputs.antt =====
-- Lines of the output.
use utrace.Common.{
  ℕ, zero, suc, ◌≡◌, ◌≢◌, refl, subst, arith, get_elem?, replicate, true, List, [], ◌∷◌, ◌++◌,
  Option, none, some,
}
use utrace.Common.Int.{pos, ◌+ℤ◌}
use utrace.Run.{Run, ok, fault, Returns}
use utrace.Tracee.{Thread, zero_thread}
use utrace.Arguments.{Tof, tof_function, tof_functionr}
use utrace.Config.{
  unknown, void, int, uint, octal, char, addr, file, format, string, string0, string1, string2,
  string3, Function,
}
use utrace.Options.Parsing.{initial}
use utrace.Layout.{decimal}
use utrace.Dict.Keys.{same_string}
use utrace.Printf.{codes, wide}
use utrace.Values.{display_arg}
use utrace.Output.{Out, Surroundings, leave_line}
use utrace.Output.Pages.{Page, Shows, add_line, give_up_line}
use utrace.Output.Args.{Showable, IsPrototype}
use utrace.Output.Calls.{output_right}
use utrace.Output.Lines.{IsShowing, Names}
use utrace.Output.Traces.{
  Site, Call, entry, return, make_calls, IsSite, Moves, make_calls-Shows, entry_return_one_line,
}
use utrace.Output.Resumed.{output_right_zero}
use utrace.Tests.Machine.{machine}

abbrev nothing_written : Out
nothing_written = record {
  written = [];
  current_pid = 0;
  current_depth = 0;
  current_column = 0;
  old_tv = record { tv_sec = 0; tv_usec = 0 };
  demangler = none;
  dict_opt_c = none;
  structs = [];
}

-- `int f(int, +string)`
abbrev f_prototype : Function
f_prototype = record {
  name = codes "f";
  return_type = int;
  num_params = 2;
  arg_types = int ∷ string ∷ [];
  params_right = 1;
}

abbrev around : Surroundings
around = record {
  settings = initial;
  list_of_functions = f_prototype ∷ [];
  processes = 1;
  long_bits = 32;
  now = record { tv_sec = 3; tv_usec = 4 };
  current_time_spent = (pos 0, 12);
  localtime = λ n. (0, 0, n);
  cplus_demangle = λ name. none;
}

-- All arguments are 0.
abbrev zero_arg : Tof → Thread → Option ℕ → Run ℕ
zero_arg type thr n = ok 0

abbrev thread : ℕ → Thread
thread tid = record zero_thread { tid = tid }

abbrev site : ℕ → Tof → List ℕ → Site 4 machine 1
site tid type name = record {
  kernel = λ a. 0;
  around = around;
  args = zero_arg;
  type = type;
  thread = thread tid;
  function_name = name;
}

abbrev trace : List (Call 4 machine 1)
trace =
    entry (site 7 tof_function (codes "f"))
    ∷ entry (site 9 tof_function (codes "g"))
    ∷ return (site 7 tof_functionr (codes "f"))
    ∷ []

abbrev written_by : Run Out → List ℕ
written_by (fault c) = []
written_by (ok s) = s.written

shown : List ℕ
shown = written_by (make_calls 4 machine 1 trace nothing_written)

-- The call of f is interrupted by that of g, which does not return.
interrupted :
    shown
    ≡ codes "[    7] +[ 0]f(0,  <unfinished ...>"
      ++ 10
        ∷ (codes "[    9] +[ 0]g(0, 0, 0, 0, 0 <unfinished ...>"
            ++ 10 ∷ (codes "[    0] -[ 0]f resumed> NULL)                    = 0" ++ 10 ∷ []))
unfolding shown make_calls zero_thread decimal same_string replicate ◌+ℤ◌ wide
interrupted = refl

zero_arg-Showable :
    (type : Tof) (thr : Thread) → Showable 4 machine (λ a. 0) 1 around zero_arg type thr
unfolding display_arg
zero_arg-Showable type thr arg_num unknown = (_, refl, tt)
zero_arg-Showable type thr arg_num void = (_, refl, tt)
zero_arg-Showable type thr arg_num int = (_, refl, tt)
zero_arg-Showable type thr arg_num uint = (_, refl, tt)
zero_arg-Showable type thr arg_num octal = (_, refl, tt)
zero_arg-Showable type thr arg_num char = (_, refl, tt)
zero_arg-Showable type thr arg_num addr = (_, refl, tt)
zero_arg-Showable type thr arg_num file = (_, refl, tt)
zero_arg-Showable type thr arg_num format = (_, refl, tt)
zero_arg-Showable type thr arg_num string = (_, refl, tt)
zero_arg-Showable type thr arg_num string0 = (_, refl, tt)
zero_arg-Showable type thr arg_num string1 = (_, refl, tt)
zero_arg-Showable type thr arg_num string2 = (_, refl, tt)
zero_arg-Showable type thr arg_num string3 = (_, refl, tt)

prototypes-IsPrototype :
    (i : ℕ) (f : Function) → get_elem? (f_prototype ∷ []) i ≡ some f → IsPrototype f
prototypes-IsPrototype zero f e =
    let same : f_prototype ≡ f = cc e in
    subst IsPrototype same (record { typed = omega arith; right = omega arith })
prototypes-IsPrototype (suc i) f e = absurd (cc e)

around-IsShowing : IsShowing around
around-IsShowing = record {
  no_count = refl;
  no_demangle = refl;
  some_process = omega arith;
  prototypes = prototypes-IsPrototype;
}

f_site-IsSite : (tid : ℕ) (type : Tof) → tid ≢ 0 → IsSite 4 machine 1 (site tid type (codes "f"))
unfolding zero_thread
f_site-IsSite tid type real = record {
  showing = around-IsShowing;
  plain = refl;
  real = real;
  room = omega arith;
  showable = zero_arg-Showable type (thread tid);
}

g_site-IsSite : (tid : ℕ) (type : Tof) → tid ≢ 0 → IsSite 4 machine 1 (site tid type (codes "g"))
unfolding zero_thread
g_site-IsSite tid type real = record {
  showing = around-IsShowing;
  plain = refl;
  real = real;
  room = omega arith;
  showable = zero_arg-Showable type (thread tid);
}

abbrev empty_page : Page
empty_page = record { lines = []; open_line = none }

nothing-Shows : Shows nothing_written empty_page
nothing-Shows = record { written = refl; whole = tt; plain = refl; pid = refl; owned = tt }

make_calls-Shows_example :
    Returns
      (make_calls 4 machine 1 trace nothing_written)
      λ t. (last : Page) × Moves 4 machine 1 empty_page trace last × Shows t last
make_calls-Shows_example =
    make_calls-Shows 4 machine 1 trace nothing_written empty_page
      (
        f_site-IsSite 7 tof_function (omega arith),
        (
          g_site-IsSite 9 tof_function (omega arith),
          (f_site-IsSite 7 tof_functionr (omega arith), tt),
        ),
      )
      nothing-Shows

entry_return_one_line_example :
    Returns
      (make_calls 4 machine 1
        (entry (site 7 tof_function (codes "f")) ∷ return (site 7 tof_functionr (codes "f")) ∷ [])
        nothing_written)
      λ t.
        (text : List ℕ) × Names (codes "f") text × Shows t (add_line text (give_up_line empty_page))
entry_return_one_line_example =
    entry_return_one_line 4 machine 1 (site 7 tof_function (codes "f"))
      (site 7 tof_functionr (codes "f")) nothing_written empty_page
      (f_site-IsSite 7 tof_function (omega arith)) (f_site-IsSite 7 tof_functionr (omega arith))
      refl refl nothing-Shows

output_right_zero_example :
    Returns
      (output_right 4 machine
        (λ a. 0)
        1
        around
        zero_arg
        tof_functionr
        (thread 7)
        (codes "f")
        nothing_written)
      λ t.
        (before : List ℕ) × (rest : List ℕ) × (t.written
          ≡ (leave_line nothing_written).written ++ (before ++ (codes "[    0] " ++ rest)))
unfolding zero_thread
output_right_zero_example =
    output_right_zero 4 machine (λ a. 0) 1 around zero_arg tof_functionr (thread 7) (codes "f")
      around-IsShowing refl (omega arith) (omega arith) (zero_arg-Showable tof_functionr (thread 7))
      nothing_written refl

abbrev counting : Surroundings
counting = record around {
  settings = record initial { flags = record (initial.flags) { opt_c = true } };
}
