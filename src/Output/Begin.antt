-- ===== src/Output/Begin.antt =====
-- `begin_of_line` and `add_prefix_space` of utrace-0.1/output.c write within one line.
use mathlib.Core.List.{append-nil}
use utrace.Common.{
  ℕ, ◌+◌, ◌*◌, ◌<◌, ◌≡◌, ◌≢◌, refl, sym, subst, ◌∙◌, Bool, Bool-cases, inl, inr, not, ◌&&◌, ◌||◌,
  List, [], ◌++◌, Option, none, some, ◌==◌, ==_ne, if◌then◌else◌, ltb, length, replicate,
}
use utrace.Common.Int.{pos, negsuc}
use utrace.Run.{ok, Returns, bind-Returns}
use utrace.Tracee.{Thread, max_calldepth}
use utrace.Arguments.{Tof}
use utrace.Layout.{line_time, add_prefix_space, label, spaces_size}
use utrace.Layout.Bounds.{add_prefix_space-Returns}
use utrace.Printf.{codes, signed, signed_text, unsigned_text, pointer_text, wide}
use utrace.Printf.Plain.{
  IsPlain, append-IsPlain, replicate-IsPlain, unsigned_text-IsPlain, signed_text-IsPlain,
  pointer_text-IsPlain, wide-IsPlain, label-IsPlain,
}
use utrace.Output.{
  Out, print_counted, Surroundings, as_ulong, two_digits, six_digits, clock_text, begin_thread,
  begin_relative, begin_absolute, begin_address, output_indent, begin_of_line, print_prefix,
  has_no_type, address_of, to_file, any_pid,
}
use utrace.Output.Plain.{Extends, refl-Extends, trans-Extends, print_counted-Extends, if-Extends}

two_digits-IsPlain : (n : ℕ) → IsPlain (two_digits n)
two_digits-IsPlain n = wide-IsPlain 48 2 (unsigned_text n) refl (unsigned_text-IsPlain n)

pub six_digits-IsPlain : (n : ℕ) → IsPlain (six_digits n)
six_digits-IsPlain n = wide-IsPlain 48 6 (unsigned_text n) refl (unsigned_text-IsPlain n)

clock_text-IsPlain : (t : ℕ × ℕ × ℕ) → IsPlain (clock_text t)
clock_text-IsPlain (hour, min, sec) =
    append-IsPlain (two_digits hour) _ (two_digits-IsPlain hour)
      (append-IsPlain (two_digits min) _ (two_digits-IsPlain min) (two_digits-IsPlain sec))

pub add_prefix_space-IsPlain :
    (depth : ℕ) (is_left : Bool) (spaces : List ℕ)
    → add_prefix_space depth is_left ≡ ok spaces
    → IsPlain spaces
unfolding add_prefix_space
add_prefix_space-IsPlain depth is_left spaces run =
    let i = if ltb max_calldepth depth then max_calldepth else depth in
    elim (Bool-cases (ltb spaces_size (i + length (label is_left depth) + 1))) [
      | inl over ↦ absurd (cc (rw over at run))
      | inr room ↦
          let same : replicate i 32 ++ label is_left depth ≡ spaces = cc (rw room at run) in
          subst IsPlain same (
            append-IsPlain (replicate i 32) (label is_left depth) (replicate-IsPlain i 32 refl)
              (label-IsPlain is_left depth))
    ]

-- Seconds, a point and microseconds.
pub dotted-IsPlain :
    (text : List ℕ) (usec : ℕ) → IsPlain text → IsPlain (text ++ codes "." ++ six_digits usec)
dotted-IsPlain text usec h =
    append-IsPlain (text ++ codes ".") (six_digits usec) (append-IsPlain text (codes ".") h refl)
      (six_digits-IsPlain usec)

-- A change of other variables writes nothing.
silent-Extends :
    (s t : Out)
    → t.written ≡ s.written
    → t.current_pid ≡ s.current_pid
    → t.current_depth ≡ s.current_depth
    → Extends s t
silent-Extends s t w pid depth = record {
  more = [];
  written = w ∙ sym (append-nil s.written);
  plain = refl;
  same_pid = pid;
  same_depth = depth;
}

module _ (e : Surroundings) where
  begin_thread-Extends :
      (thr : Thread) (s : Out) → e.processes ≢ 0 → Returns (begin_thread e thr s) (Extends s)
  unfolding begin_thread
  begin_thread-Extends thr s some_process =
      elim (Bool-cases
        (to_file e.settings.output && (any_pid e.settings.opt_p || e.settings.flags.opt_f))) [
          | inl shown ↦ (
            _,
            rw (begin_thread, shown) refl,
            print_counted-Extends (unsigned_text thr.tid ++ codes " ") s (
                append-IsPlain (unsigned_text thr.tid) (codes " ") (unsigned_text-IsPlain thr.tid)
                  refl),
          )
          | inr hidden ↦ elim (Bool-cases (ltb 1 e.processes)) [
            | inl many ↦ (
              _,
              rw (begin_thread, hidden, ==_ne e.processes 0 some_process, many) refl,
              print_counted-Extends (codes "[tid " ++ unsigned_text thr.tid ++ codes "] ") s (
                  append-IsPlain (codes "[tid " ++ unsigned_text thr.tid) (codes "] ")
                    (append-IsPlain (codes "[tid ") (unsigned_text thr.tid) refl
                      (unsigned_text-IsPlain thr.tid))
                    refl),
            )
            | inr one ↦ (
              _,
              rw (begin_thread, hidden, ==_ne e.processes 0 some_process, one) refl,
              refl-Extends s,
            )
          ]
        ]

  begin_relative-Extends : (s : Out) → Extends s (begin_relative e s)
  unfolding begin_relative
  begin_relative-Extends s =
      let ((sec, usec), old) = line_time (e.now) s.old_tv in
      let text =
        wide 32 3 (unsigned_text (as_ulong (e.long_bits) sec))
        ++ codes "."
        ++ six_digits usec
        ++ codes " " in
      let timed = record s { old_tv = old } in
      if-Extends (e.settings.opt_r == 0) s s (print_counted text timed) (refl-Extends s) (
        trans-Extends s timed _ (silent-Extends s timed refl refl refl) (
          print_counted-Extends text timed (
            append-IsPlain
              (wide 32 3 (unsigned_text (as_ulong (e.long_bits) sec))
                ++ codes "."
                ++ six_digits usec)
              (codes " ")
              (dotted-IsPlain (wide 32 3 (unsigned_text (as_ulong (e.long_bits) sec))) usec (
                wide-IsPlain 32 3 (unsigned_text (as_ulong (e.long_bits) sec)) refl
                  (unsigned_text-IsPlain (as_ulong (e.long_bits) sec))))
              refl)))

  begin_absolute-Extends : (s : Out) → Extends s (begin_absolute e s)
  unfolding begin_absolute
  begin_absolute-Extends s =
      let clock = clock_text (e.localtime e.now.tv_sec) in
      let plain = clock_text-IsPlain (e.localtime e.now.tv_sec) in
      let usec = e.now.tv_usec in
      if-Extends (e.settings.opt_t == 0) s s _ (refl-Extends s) (
        if-Extends (ltb 2 e.settings.opt_t) s _ _
          (print_counted-Extends
            (unsigned_text e.now.tv_sec ++ codes "." ++ six_digits usec ++ codes " ") s
            (append-IsPlain (unsigned_text e.now.tv_sec ++ codes "." ++ six_digits usec) (codes " ")
              (dotted-IsPlain (unsigned_text e.now.tv_sec) usec
                (unsigned_text-IsPlain e.now.tv_sec))
              refl))
          (if-Extends (ltb 1 e.settings.opt_t) s _ _
            (print_counted-Extends (clock ++ codes "." ++ six_digits usec ++ codes " ") s (
              append-IsPlain (clock ++ codes "." ++ six_digits usec) (codes " ")
                (dotted-IsPlain clock usec plain) refl))
            (print_counted-Extends (clock ++ codes " ") s
              (append-IsPlain clock (codes " ") plain refl))))

  begin_address-Extends :
      (type : Tof) (thr : Thread) (s : Out) → Extends s (begin_address e type thr s)
  unfolding begin_address
  begin_address-Extends type thr s =
      if-Extends e.settings.flags.opt_i s _ s
        (print_counted-Extends (codes "[" ++ pointer_text (address_of type thr) ++ codes "] ") s (
          append-IsPlain (codes "[" ++ pointer_text (address_of type thr)) (codes "] ")
            (append-IsPlain (codes "[") (pointer_text (address_of type thr)) refl
              (pointer_text-IsPlain (address_of type thr)))
            refl))
        (refl-Extends s)

  output_indent-Extends :
      (type : Tof) (thr : Thread) (s : Out) → Extends s (output_indent e type thr s)
  unfolding output_indent
  output_indent-Extends type thr s =
      elim e.settings.opt_n
        as (λ n. Extends s (elim n [
          | pos n ↦
              if not (n == 0) && not (has_no_type type)
              then print_counted (replicate (n * thr.callstack_depth) 32) s
              else s
          | negsuc n ↦ s
        ])) [
          | pos n ↦
              if-Extends (not (n == 0) && not (has_no_type type)) s _ s
                (print_counted-Extends (replicate (n * thr.callstack_depth) 32) s
                  (replicate-IsPlain (n * thr.callstack_depth) 32 refl))
                (refl-Extends s)
          | negsuc n ↦ refl-Extends s
        ]

  pub begin_of_line-Extends :
      (type : Tof) (thr : Option Thread) (s : Out)
      → e.processes ≢ 0
      → Returns (begin_of_line e type thr s) (Extends s)
  unfolding begin_of_line
  begin_of_line-Extends type none s some_process =
      (_, refl, silent-Extends s (record s { current_column = 0 }) refl refl refl)
  begin_of_line-Extends type (some thr) s some_process =
      let s₀ = record s { current_column = 0 } in
      bind-Returns (begin_thread e thr s₀) _ (begin_thread-Extends thr s₀ some_process) λ s₁ x₁.
        let s₂ = begin_relative e s₁ in
        let s₃ = begin_absolute e s₂ in
        let s₄ = begin_address e type thr s₃ in
        (
          output_indent e type thr s₄,
          refl,
          trans-Extends s s₀ _ (silent-Extends s s₀ refl refl refl) (
              trans-Extends s₀ s₁ _ x₁ (
                trans-Extends s₁ s₂ _ (begin_relative-Extends s₁) (
                  trans-Extends s₂ s₃ _ (begin_absolute-Extends s₂) (
                    trans-Extends s₃ s₄ _ (begin_address-Extends type thr s₃)
                      (output_indent-Extends type thr s₄))))),
        )

-- For a depth within the stack.
pub print_prefix-Extends :
    (depth : ℕ) (is_left : Bool) (s : Out)
    → depth < max_calldepth
    → Returns (print_prefix depth is_left s) (Extends s)
unfolding print_prefix
print_prefix-Extends depth is_left s h =
    let (spaces, run, _) = add_prefix_space-Returns depth is_left h in
    let number = wide 32 5 (signed_text (signed 32 s.current_pid)) in
    (
      _,
      rw (print_prefix, run) refl,
      print_counted-Extends (codes "[" ++ number ++ codes "] " ++ spaces) s (
          append-IsPlain (codes "[" ++ number ++ codes "] ") spaces
            (append-IsPlain (codes "[" ++ number) (codes "] ")
              (append-IsPlain (codes "[") number refl (
                wide-IsPlain 32 5 (signed_text (signed 32 s.current_pid)) refl
                  (signed_text-IsPlain (signed 32 s.current_pid))))
              refl)
            (add_prefix_space-IsPlain depth is_left spaces run)),
    )
