-- ===== src/Values/Lines.antt =====
-- What `display_arg` of utrace-0.1/display_args.c shows lies within one line.
use utrace.Common.{
  ℕ, zero, suc, ◌+◌, ◌-◌, ◌^◌, ◌≡◌, refl, true, false, Bool, not, ◌&&◌, ◌||◌, List, [], ◌∷◌, ◌++◌,
  Option, none, some, ◌==◌, if◌then◌else◌, leb, ltb, length, replicate,
}
use utrace.Common.Int.{ℤ}
use utrace.Run.{Run, ok, undefined, ◌>>=◌}
use utrace.Ptrace.{Ptrace}
use utrace.Tracee.{Thread}
use utrace.Arguments.{Tof}
use utrace.Layout.{display_char}
use utrace.Callstack.{element_at}
use utrace.Config.{
  ArgType, unknown, void, int, uint, octal, char, addr, file, format, string, string0, string1,
  string2, string3,
}
use utrace.Strings.{umovestr}
use utrace.Strings.Shown.{leq_ℤ, min_ℤ, buffer_size, copy_length, shown_length, dots}
use utrace.Printf.{codes, signed, signed_text, pointer_text, as_int, as_unsigned}
use utrace.Printf.Plain.{
  IsPlain, append-IsPlain, if-IsPlain, unsigned_text-IsPlain, signed_text-IsPlain,
  octal_digits-IsPlain, hex_text-IsPlain, pointer_text-IsPlain, display_char-IsPlain,
}
use utrace.Values.{
  int_max, Directive, skip, star, percent, decimal_int, unsigned_int, octal_int, hex, character,
  text, real, directive, ends, takes_arg, next_arg, arg_before, show_format, after_directive,
  display_string_arg, display_string_n, display_unknown, show_directive, show_args, format_buffer,
  display_format, display_arg,
}
use utrace.Values.Pieces.{
  Gives, ok-Gives, fault-Gives, bind-Gives, Anything, Anything-Gives, if-Gives, quoted-IsPlain,
  dots-IsPlain, display_string-IsPlain, show_format-IsPlain,
}

module _ (bits sizeof_long : ℕ) (p : Ptrace) (k : p.Kernel) (junk : ℕ) (opt_s : ℤ)
    (gimme_arg : Tof → Thread → Option ℕ → Run ℕ) (type : Tof) (thr : Thread) where
  -- A text that is made of the answer of gimme_arg.
  of_arg-IsPlain :
      (arg_num : Option ℕ) (f : ℕ → List ℕ)
      → ((n : ℕ) → IsPlain (f n))
      → Gives IsPlain (gimme_arg type thr arg_num >>= λ n. ok (f n))
  of_arg-IsPlain arg_num f h =
      bind-Gives Anything IsPlain (gimme_arg type thr arg_num) _ (Anything-Gives _)
        λ n _. ok-Gives IsPlain (f n) (h n)

  display_string_arg-IsPlain :
      (string_maxlength : ℤ) (arg_num : Option ℕ)
      → Gives IsPlain (
          display_string_arg bits sizeof_long p k junk opt_s gimme_arg type thr string_maxlength
            arg_num)
  unfolding display_string_arg
  display_string_arg-IsPlain string_maxlength arg_num =
      bind-Gives Anything IsPlain (gimme_arg type thr arg_num) _ (Anything-Gives _)
        λ n _. display_string-IsPlain sizeof_long p k (thr.tid) junk opt_s string_maxlength n

  display_string_n-IsPlain :
      (arg2 : ℕ) (arg_num : Option ℕ)
      → Gives IsPlain
          (display_string_n bits sizeof_long p k junk opt_s gimme_arg type thr arg2 arg_num)
  unfolding display_string_n
  display_string_n-IsPlain arg2 arg_num =
      bind-Gives Anything IsPlain (gimme_arg type thr (arg_before arg2)) _ (Anything-Gives _)
        λ n _. display_string_arg-IsPlain (as_int n) arg_num

  display_unknown-IsPlain :
      (arg_num : Option ℕ)
      → Gives IsPlain (display_unknown bits sizeof_long p k junk opt_s gimme_arg type thr arg_num)
  unfolding display_unknown
  display_unknown-IsPlain arg_num = of_arg-IsPlain arg_num _ λ n.
      if-IsPlain (ltb n 1000000 || ltb (2 ^ bits - 1000000) n) (signed_text (signed bits n))
        (pointer_text n) (signed_text-IsPlain (signed bits n)) (pointer_text-IsPlain n)

  show_directive-IsPlain :
      (d : Directive) (arg_num : Option ℕ)
      → Gives IsPlain (show_directive bits sizeof_long p k junk opt_s gimme_arg type thr d arg_num)
  unfolding show_directive
  show_directive-IsPlain skip arg_num = ok-Gives IsPlain [] refl
  show_directive-IsPlain percent arg_num = ok-Gives IsPlain [] refl
  show_directive-IsPlain real arg_num = ok-Gives IsPlain _ refl
  show_directive-IsPlain star arg_num = of_arg-IsPlain arg_num _ λ n. signed_text-IsPlain (as_int n)
  show_directive-IsPlain decimal_int arg_num =
      of_arg-IsPlain arg_num _ λ n. signed_text-IsPlain (as_int n)
  show_directive-IsPlain unsigned_int arg_num =
      of_arg-IsPlain arg_num _ λ n. unsigned_text-IsPlain (as_unsigned n)
  show_directive-IsPlain octal_int arg_num =
      of_arg-IsPlain arg_num _ λ n. octal_digits-IsPlain (as_unsigned n)
  show_directive-IsPlain hex arg_num =
      of_arg-IsPlain arg_num _ λ n. hex_text-IsPlain (as_unsigned n)
  show_directive-IsPlain character arg_num =
      of_arg-IsPlain arg_num _ λ n.
        append-IsPlain (display_char (as_int n)) (39 ∷ []) (display_char-IsPlain (as_int n)) refl
  show_directive-IsPlain text arg_num =
      bind-Gives IsPlain IsPlain
        (display_string_arg bits sizeof_long p k junk opt_s gimme_arg type thr int_max arg_num) _
        (display_string_arg-IsPlain int_max arg_num) λ s h. ok-Gives IsPlain _ h

  abbrev args_of : (rounds : ℕ) (inside : Bool) → List ℕ → ℕ → Option ℕ → Run (List ℕ)
  args_of = show_args bits sizeof_long p k junk opt_s gimme_arg type thr

  show_args-IsPlain :
      (rounds : ℕ) (inside : Bool) (str1 : List ℕ) (i : ℕ) (arg_num : Option ℕ)
      → Gives IsPlain (args_of rounds inside str1 i arg_num)
  unfolding show_args
  show_args-IsPlain zero inside str1 i arg_num = fault-Gives IsPlain undefined
  show_args-IsPlain (suc n) false str1 i arg_num =
      bind-Gives Anything IsPlain (element_at str1 i) _ (Anything-Gives _) λ c _.
        elim (c == 0)
          as (λ b.
            Gives IsPlain
              (elim b [ true ↦ ok [] | false ↦ args_of n (c == b'%') str1 (i + 1) arg_num ])) [
                | true ↦ ok-Gives IsPlain [] refl
                | false ↦ show_args-IsPlain n (c == b'%') str1 (i + 1) arg_num
              ]
  show_args-IsPlain (suc n) true str1 i arg_num =
      bind-Gives Anything IsPlain (element_at str1 i) _ (Anything-Gives _) λ c _.
        elim (c == 0)
          as (λ b. Gives IsPlain (elim b [
            | true ↦ args_of n false str1 (i + 1) arg_num
            | false ↦
                let d = directive c in
                let arg = if takes_arg d then some (next_arg arg_num) else arg_num in
                show_directive bits sizeof_long p k junk opt_s gimme_arg type thr d arg >>= λ shown.
                after_directive d str1 i >>= λ str1'.
                args_of n (not (ends d)) str1' (i + 1) arg >>= λ rest. ok (shown ++ rest)
          ])) [
            | true ↦ show_args-IsPlain n false str1 (i + 1) arg_num
            | false ↦
                let d = directive c in
                let arg = if takes_arg d then some (next_arg arg_num) else arg_num in
                bind-Gives IsPlain IsPlain
                  (show_directive bits sizeof_long p k junk opt_s gimme_arg type thr d arg) _
                  (show_directive-IsPlain d arg)
                  λ shown h.
                    bind-Gives Anything IsPlain (after_directive d str1 i) _ (Anything-Gives _)
                      λ str1' _.
                        bind-Gives IsPlain IsPlain (args_of n (not (ends d)) str1' (i + 1) arg) _
                          (show_args-IsPlain n (not (ends d)) str1' (i + 1) arg)
                          λ rest h'.
                            ok-Gives IsPlain (shown ++ rest) (append-IsPlain shown rest h h')
          ]

  format_buffer-IsPlain :
      (arg_num : Option ℕ) (str1 : List ℕ)
      → Gives IsPlain
          (format_buffer bits sizeof_long p k junk opt_s gimme_arg type thr arg_num str1)
  unfolding format_buffer
  format_buffer-IsPlain arg_num str1 =
      let m = shown_length (min_ℤ opt_s int_max) in
      bind-Gives (λ r. IsPlain r.0) IsPlain (show_format str1 m m 0 1) _
        (show_format-IsPlain str1 m m 0 1)
        λ r h. bind-Gives Anything IsPlain (element_at str1 r.1) _ (Anything-Gives _) λ c _.
          bind-Gives IsPlain IsPlain (args_of (length str1 + 1) false str1 0 arg_num) _
            (show_args-IsPlain (length str1 + 1) false str1 0 arg_num)
            λ args h'. ok-Gives IsPlain _ (
              quoted-IsPlain r.0 _ h (
                append-IsPlain (if not (c == 0) && leq_ℤ opt_s int_max then dots else []) args
                  (dots-IsPlain (not (c == 0) && leq_ℤ opt_s int_max)) h'))

  display_format-IsPlain :
      (arg_num : Option ℕ)
      → Gives IsPlain (display_format bits sizeof_long p k junk opt_s gimme_arg type thr arg_num)
  unfolding display_format
  display_format-IsPlain arg_num =
      bind-Gives Anything IsPlain (gimme_arg type thr arg_num) _ (Anything-Gives _) λ address _.
        if-Gives IsPlain (address == 0) _ _ (ok-Gives IsPlain _ refl) (
          if-Gives IsPlain (leb (2 ^ 31 - 3) (shown_length (min_ℤ opt_s int_max))) _ _
            (fault-Gives IsPlain undefined) (sized address (buffer_size (min_ℤ opt_s int_max))))
    where
      sized :
          (address : ℕ) (o : Option ℕ)
          → Gives IsPlain (elim o [
            | none ↦ ok (codes "???")
            | some size ↦
                umovestr sizeof_long p k
                  (thr.tid)
                  address
                  (copy_length (min_ℤ opt_s int_max))
                  (replicate size junk)
                >>= format_buffer bits sizeof_long p k junk opt_s gimme_arg type thr arg_num
          ])
      sized address none = ok-Gives IsPlain _ refl
      sized address (some size) =
          bind-Gives Anything IsPlain
            (umovestr sizeof_long p k (thr.tid) address (copy_length (min_ℤ opt_s int_max))
              (replicate size junk))
            (format_buffer bits sizeof_long p k junk opt_s gimme_arg type thr arg_num)
            (Anything-Gives _) λ str1 _. format_buffer-IsPlain arg_num str1

  display_arg-Gives :
      (arg_num : Option ℕ) (at : ArgType)
      → Gives IsPlain (display_arg bits sizeof_long p k junk opt_s gimme_arg type thr arg_num at)
  unfolding display_arg
  display_arg-Gives arg_num void = ok-Gives IsPlain [] refl
  display_arg-Gives arg_num int = of_arg-IsPlain arg_num _ λ n. signed_text-IsPlain (as_int n)
  display_arg-Gives arg_num uint =
      of_arg-IsPlain arg_num _ λ n. unsigned_text-IsPlain (as_unsigned n)
  display_arg-Gives arg_num octal =
      of_arg-IsPlain arg_num _ λ n. octal_digits-IsPlain (as_unsigned n)
  display_arg-Gives arg_num char =
      of_arg-IsPlain arg_num _ λ n.
        append-IsPlain (display_char (as_int n)) (39 ∷ []) (display_char-IsPlain (as_int n)) refl
  display_arg-Gives arg_num addr =
      of_arg-IsPlain arg_num _
        λ n. if-IsPlain (n == 0) _ (pointer_text n) refl (pointer_text-IsPlain n)
  display_arg-Gives arg_num format = display_format-IsPlain arg_num
  display_arg-Gives arg_num string = display_string_arg-IsPlain int_max arg_num
  display_arg-Gives arg_num string0 = display_string_n-IsPlain 0 arg_num
  display_arg-Gives arg_num string1 = display_string_n-IsPlain 1 arg_num
  display_arg-Gives arg_num string2 = display_string_n-IsPlain 2 arg_num
  display_arg-Gives arg_num string3 = display_string_n-IsPlain 3 arg_num
  display_arg-Gives arg_num file = display_unknown-IsPlain arg_num
  display_arg-Gives arg_num unknown = display_unknown-IsPlain arg_num

  pub display_arg-IsPlain :
      (arg_num : Option ℕ) (at : ArgType) (shown : List ℕ)
      → display_arg bits sizeof_long p k junk opt_s gimme_arg type thr arg_num at ≡ ok shown
      → IsPlain shown
  display_arg-IsPlain arg_num at shown e = display_arg-Gives arg_num at shown e
