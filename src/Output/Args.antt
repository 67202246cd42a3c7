-- ===== src/Output/Args.antt =====
-- What `output_left` and `output_right` of utrace-0.1/output.c write within a line, where every
-- argument can be shown.
use utrace.Common.{
  ℕ, zero, suc, ◌+◌, ◌-◌, ◌≤◌, ◌<◌, ◌≡◌, refl, ap, ◌∙◌, arith, Bool-cases, inl, inr, List, [], ◌∷◌,
  Option, none, some, ◌==◌, ltb, ltb→lt, length, get_elem?,
}
use utrace.Common.Int.{negsuc, ◌+ℤ◌}
use utrace.Run.{Run, ok, Returns, bind-Returns, along-Returns}
use utrace.Ptrace.{Ptrace}
use utrace.Tracee.{Thread}
use utrace.Arguments.{Tof}
use utrace.Config.{ArgType, unknown, Function}
use utrace.Callstack.{element_at}
use utrace.Callstack.Balance.{element_at_lem}
use utrace.Printf.{codes}
use utrace.Values.{display_arg}
use utrace.Values.Lines.{display_arg-IsPlain}
use utrace.Output.{Out, print, print_counted, tabto, Surroundings}
use utrace.Output.Plain.{
  Extends, refl-Extends, trans-Extends, print-Extends, print_counted-Extends, if-Extends,
  tabto-Extends,
}
use utrace.Output.Calls.{
  show_arg, show_args, last_left, left_args, close_args, show_result, is_void, last_right,
  right_args,
}

-- A prototype with all its types, and no more of them on the right than there are.
pub record IsPrototype (func : Function) : Type 0 where
  pub typed : func.num_params ≤ length func.arg_types
  pub right : func.params_right ≤ func.num_params

in_range {ℓ} :
    {A : Type ℓ} (xs : List A) (i : ℕ) → i < length xs → (x : A) × (get_elem? xs i ≡ some x)
in_range [] i h = elim h [ ]
in_range (x ∷ xs) zero h = (x, refl)
in_range (x ∷ xs) (suc i) h = in_range xs i (omega arith)

module _ (sizeof_long : ℕ) (p : Ptrace) (k : p.Kernel) (junk : ℕ) (e : Surroundings)
    (gimme_arg : Tof → Thread → Option ℕ → Run ℕ) (type : Tof) (thr : Thread) where
  -- Every argument of the call can be read and shown.
  abbrev pub Showable : Type 0
  Showable =
      (arg_num : Option ℕ) (at : ArgType)
      → Returns
          (display_arg (e.long_bits) sizeof_long p k junk e.settings.opt_s gimme_arg type thr
            arg_num at)
          (λ _. Unit {0})

  module _ (showable : Showable) where
    show_arg-Extends :
        (arg_num : Option ℕ) (at : ArgType) (s : Out)
        → Returns (show_arg sizeof_long p k junk e gimme_arg type thr arg_num at s) (Extends s)
    unfolding show_arg
    show_arg-Extends arg_num at s =
        let (text, run, _) = showable arg_num at in
        (
          print_counted text s,
          rw (show_arg, run) refl,
          print_counted-Extends text s (
              display_arg-IsPlain (e.long_bits) sizeof_long p k junk e.settings.opt_s gimme_arg type
                thr arg_num at text run),
        )

    show_args-Extends :
        (rounds i : ℕ) (at : ℕ → Run ArgType) (s : Out)
        → ((j : ℕ) → j < rounds → (ty : ArgType) × (at (i + j) ≡ ok ty))
        → Returns (show_args sizeof_long p k junk e gimme_arg type thr rounds i at s) (Extends s)
    unfolding show_args
    show_args-Extends zero i at s typed = (s, refl, refl-Extends s)
    show_args-Extends (suc n) i at s typed =
        let (ty, run) = typed 0 (omega arith) in
        let first : i ≡ i + 0 = omega arith in
        along-Returns _ _ (rw (show_args, ap at first ∙ run) refl) (
          bind-Returns (show_arg sizeof_long p k junk e gimme_arg type thr (some i) ty s) _
            (show_arg-Extends (some i) ty s)
            λ s₁ x₁.
              let s₂ = print_counted (codes ", ") s₁ in
              let (s₃, run₃, x₃) = show_args-Extends n (i + 1) at s₂ λ j h.
                let (ty', run') = typed (suc j) (omega arith) in
                let later : i + 1 + j ≡ i + suc j = omega arith in (ty', ap at later ∙ run') in
              (
                s₃,
                run₃,
                trans-Extends s s₁ s₃ x₁
                    (trans-Extends s₁ s₂ s₃ (print_counted-Extends (codes ", ") s₁ refl) x₃),
              ))

    -- The types of a prototype from `i` on.
    types_from :
        (func : Function) (i rounds : ℕ)
        → i + rounds ≤ length func.arg_types
        → (j : ℕ) → j < rounds
        → (ty : ArgType) × (element_at func.arg_types (i + j) ≡ ok ty)
    types_from func i rounds room j h =
        let (ty, there) = in_range func.arg_types (i + j) (omega arith) in
        (ty, element_at_lem func.arg_types (i + j) ty there)

    last_left-Extends :
        (func : Function) (i : ℕ) (s : Out)
        → i < length func.arg_types
        → Returns (last_left sizeof_long p k junk e gimme_arg type thr func i s) (Extends s)
    unfolding last_left
    last_left-Extends func i s room =
        let (ty, there) = in_range func.arg_types i room in
        along-Returns _ _ (rw (last_left, element_at_lem func.arg_types i ty there) refl) (
          bind-Returns (show_arg sizeof_long p k junk e gimme_arg type thr (some i) ty s) _
            (show_arg-Extends (some i) ty s)
            λ s₁ x₁. (
              _,
              refl,
              if-Extends (func.params_right == 0) s s₁ _ x₁
                  (trans-Extends s s₁ _ x₁ (print_counted-Extends (codes ", ") s₁ refl)),
            ))

    pub left_args-Extends :
        (func : Option Function) (s : Out)
        → ((f : Function) → func ≡ some f → IsPrototype f)
        → Returns (left_args sizeof_long p k junk e gimme_arg type thr func s) (Extends s)
    unfolding left_args
    left_args-Extends none s proto =
        bind-Returns (show_args sizeof_long p k junk e gimme_arg type thr 4 0 (λ i. ok unknown) s) _
          (show_args-Extends 4 0 (λ i. ok unknown) s λ j h. (unknown, refl))
          λ s₁ x₁.
            let (s₂, run, x₂) = show_arg-Extends (some 4) unknown s₁ in
            (s₂, run, trans-Extends s s₁ s₂ x₁ x₂)
    left_args-Extends (some func) s proto =
        let v = proto func refl in
        let typed = v.typed in
        let right = v.right in
        let i = func.num_params - func.params_right - 1 in
        bind-Returns
          (show_args sizeof_long p k junk e gimme_arg type thr i 0 (element_at func.arg_types) s) _
          (show_args-Extends i 0 (element_at func.arg_types) s (types_from func 0 i (omega arith)))
          λ s₁ x₁. elim (Bool-cases (ltb func.params_right func.num_params)) [
            | inl more ↦
                let less = ltb→lt func.params_right func.num_params more in
                let (s₂, run, x₂) = last_left-Extends func i s₁ (omega arith) in
                (s₂, rw more run, trans-Extends s s₁ s₂ x₁ x₂)
            | inr none_left ↦ (s₁, rw none_left refl, x₁)
          ]

    close_args-Extends :
        (s : Out) → Extends s (close_args sizeof_long p k junk e gimme_arg type thr s)
    unfolding close_args
    close_args-Extends s =
        let s₁ = print_counted (codes ") ") s in
        let s₂ = tabto (e.settings.opt_a +ℤ negsuc 0) s₁ in
        trans-Extends s s₁ _ (print_counted-Extends (codes ") ") s refl) (
          trans-Extends s₁ s₂ _ (tabto-Extends (e.settings.opt_a +ℤ negsuc 0) s₁)
            (print-Extends (codes "= ") s₂ refl))

    show_result-Extends :
        (at : ArgType) (s : Out)
        → Returns (show_result sizeof_long p k junk e gimme_arg type thr at s) (Extends s)
    unfolding show_result
    show_result-Extends at s =
        let (text, run, _) = showable none at in
        (
          print text s,
          rw (show_result, run) refl,
          print-Extends text s (
              display_arg-IsPlain (e.long_bits) sizeof_long p k junk e.settings.opt_s gimme_arg type
                thr none at text run),
        )

    last_right-Extends :
        (func : Function) (s : Out)
        → IsPrototype func
        → Returns (last_right sizeof_long p k junk e gimme_arg type thr func s) (Extends s)
    unfolding last_right
    last_right-Extends func s v = elim (Bool-cases (func.params_right == 0)) [
      | inl left_only ↦ (s, rw (last_right, left_only) refl, refl-Extends s)
      | inr some_right ↦
          let typed = v.typed in
          let right = v.right in
          let more : func.num_params - 1 < length func.arg_types = ground arith in
          let (ty, there) = in_range func.arg_types (func.num_params - 1) more in
          along-Returns _ _
            (rw
              (last_right, some_right, element_at_lem func.arg_types (func.num_params - 1) ty there)
              refl)
            (show_arg-Extends (some (func.num_params - 1)) ty s)
    ]

    -- What was returned, behind what closes the arguments.
    closed_result :
        (at : ArgType) (s : Out)
        → Returns
            (show_result sizeof_long p k junk e gimme_arg type thr at
              (close_args sizeof_long p k junk e gimme_arg type thr s))
            (Extends s)
    closed_result at s =
        let s₁ = close_args sizeof_long p k junk e gimme_arg type thr s in
        let (s₂, run, x) = show_result-Extends at s₁ in
        (s₂, run, trans-Extends s s₁ s₂ (close_args-Extends s) x)

    pub right_args-Extends :
        (func : Option Function) (s : Out)
        → ((f : Function) → func ≡ some f → IsPrototype f)
        → Returns (right_args sizeof_long p k junk e gimme_arg type thr func s) (Extends s)
    unfolding right_args
    right_args-Extends none s proto = closed_result unknown s
    right_args-Extends (some func) s proto =
        let v = proto func refl in
        let typed = v.typed in
        let right = v.right in
        let i = func.num_params - func.params_right in
        bind-Returns
          (show_args sizeof_long p k junk e gimme_arg type thr (func.params_right - 1) i
            (element_at func.arg_types) s)
          _
          (show_args-Extends (func.params_right - 1) i (element_at func.arg_types) s
            (types_from func i (func.params_right - 1) (omega arith)))
          λ s₁ x₁.
            bind-Returns (last_right sizeof_long p k junk e gimme_arg type thr func s₁) _
              (last_right-Extends func s₁ v)
              λ s₂ x₂. elim (Bool-cases (is_void func.return_type)) [
                | inl nothing ↦
                    let s₃ = close_args sizeof_long p k junk e gimme_arg type thr s₂ in
                    (
                      print (codes "<void>") s₃,
                      rw nothing refl,
                      trans-Extends s s₁ _ x₁ (
                          trans-Extends s₁ s₂ _ x₂ (
                            trans-Extends s₂ s₃ _ (close_args-Extends s₂)
                              (print-Extends (codes "<void>") s₃ refl))),
                    )
                | inr something ↦
                    let (s₃, run, x₃) = closed_result func.return_type s₂ in
                    (s₃, rw something run, trans-Extends s s₁ s₃ x₁ (trans-Extends s₁ s₂ s₃ x₂ x₃))
              ]
