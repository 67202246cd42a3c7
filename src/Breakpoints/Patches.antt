-- ===== src/Breakpoints/Patches.antt =====
-- `insert_breakpoint` and `delete_breakpoint` of utrace-0.1/breakpoints.c on the code of a process.
use utrace.Common.{
  ℕ, suc, ◌+◌, ◌%◌, ◌^◌, ◌≡◌, ◌≢◌, refl, ap, sym, subst, ◌∙◌, arith, false, true, not, ◌&&◌, inl,
  inr, Option-cases, Bool-cases, some, ◌==◌, ==_iff, length, ==_ne,
}
use utrace.Ptrace.{Ptrace, IsMemory}
use utrace.Arch.{Arch, FitsWord}
use utrace.Trap.{Breakpoint, enable_breakpoint, disable_breakpoint}
use utrace.Trap.Restore.{enable_breakpoint-Sets}
use utrace.Tracee.{Process}
use utrace.Run.{◌>>=◌, Returns}
use utrace.Breakpoints.{
  Core, write, dict_of, find_or_add, switch_on, count_up, insert_breakpoint, count_down,
  delete_breakpoint,
}
use utrace.Breakpoints.Adding.{find_or_add-Added}
use utrace.Breakpoints.Delete.{found_at, has_table}
use utrace.Breakpoints.Store.{ptr_at, deref_live, find_congr, count, IsStore, IsArmed, placed}
use utrace.Breakpoints.Code.{Apart, IsCode, moved-IsOver}
use utrace.Breakpoints.Rewrites.{recount-IsCode, switched_off-IsCode, switched_on-IsCode}

module _ (arch : Arch) (p : Ptrace) (pid : ℕ) (m : IsMemory p arch.sizeof_long pid) where
  -- A trap put in for the address shares no byte with the trap of another struct.
  abbrev pub IsClear : Core p.Kernel → Process → ℕ → Type 0
  IsClear s proc a =
      (q : ℕ) (st : Breakpoint)
      → IsArmed s proc q st
      → placed s proc a ≢ st.addr
      → Apart arch p pid m (placed s proc a) st.addr

  module _ (orig : ℕ → ℕ) where
    added-IsCode :
        (s : Core p.Kernel) (proc : Process) (a : ℕ)
        → IsStore arch s proc
        → IsCode arch p pid m orig s proc
        → let r = find_or_add arch p s proc a in IsCode arch p pid m orig r.0 r.1
    added-IsCode s proc a t c =
        let added = find_or_add-Added arch p s proc a t in
        let r = find_or_add arch p s proc a in
        let still = λ (b : ℕ). ap (λ k. m.byte k b) added.same_kernel in
        record {
          traps = λ q st i.
              moved-IsOver arch p pid m orig s.kernel r.0.kernel st st
                (c.traps q st (added.set_before q st i)) refl refl λ j h. still (st.addr + j);
          others = λ b free. still b ∙ c.others b (λ q st i. free q st (added.set_after q st i));
          apart =
              λ q x st y i j. c.apart q x st y (added.set_before q st i) (added.set_before x y j);
        }

    -- The struct of an address is the only one at its place.
    alone :
        (s : Core p.Kernel) (proc : Process) (a q x : ℕ) (b st : Breakpoint)
        → IsStore arch s proc
        → ptr_at proc a ≡ some q
        → s.heap q ≡ some b
        → IsArmed s proc x st
        → b.addr ≡ st.addr
        → b ≡ st
    alone s proc a q x b st t held alive i same =
        let l = t.live a q held in
        let l' = t.live i.key x i.held in
        let here : some l.struct ≡ some b = sym l.alive ∙ alive in
        let there : some l'.struct ≡ some st = sym l'.alive ∙ i.alive in
        let e : l.struct ≡ b = cc here in
        let e' : l'.struct ≡ st = cc there in
        let keys : i.key % 2 ^ 32 ≡ a % 2 ^ 32 =
          sym l'.same_addr
          ∙ ap (λ (z : Breakpoint). z.addr % 2 ^ 32) e'
          ∙ ap (λ (z : ℕ). z % 2 ^ 32) (sym same)
          ∙ sym (ap (λ (z : Breakpoint). z.addr % 2 ^ 32) e)
          ∙ l.same_addr in
        let pointers : some x ≡ some q =
          sym i.held ∙ find_congr arch (dict_of proc) i.key a t.keyed keys ∙ held in
        let one : some b ≡ some st = sym alive ∙ ap s.heap (cc (sym pointers)) ∙ i.alive in cc one

    count_up-IsCode :
        (s : Core p.Kernel) (proc : Process) (a q : ℕ) (b : Breakpoint)
        → FitsWord arch
        → IsCode arch p pid m orig s proc
        → ptr_at proc a ≡ some q
        → s.heap q ≡ some b
        → length b.orig_value ≡ arch.breakpoint_length
        → pid ≢ 0
        → (b.enabled ≡ 0
            → (x : ℕ) (st : Breakpoint) → IsArmed s proc x st
            → Apart arch p pid m b.addr st.addr)
        → Returns (count_up arch p s pid q) (λ s'. IsCode arch p pid m orig s' proc)
    unfolding count_up switch_on
    count_up-IsCode s proc a q b f c held alive len live_pid clear =
        let b' : Breakpoint = record b { enabled = b.enabled + 1 } in
        elim (Bool-cases (b.enabled == 0)) [
          | inl bare ↦
              let none_yet : b.enabled ≡ 0 = (==_iff b.enabled 0).0 bare in
              let on : (b'.enabled == 1 && not (pid == 0)) ≡ true =
                rw (none_yet, ==_ne pid 0 live_pid) refl in
              let e = enable_breakpoint arch p pid s.kernel b' in
              let sets = enable_breakpoint-Sets arch p pid m s.kernel b' f len in
              (
                switch_on arch p s pid q b',
                rw (count_up, deref_live s q b alive, ◌>>=◌, on),
                switched_on-IsCode arch p pid m s (switch_on arch p s pid q b') proc q e.1 refl orig
                    a b b' c held alive none_yet refl (λ z. omega (arith, sets.same_count, z))
                    (clear none_yet) sets,
              )
          | inr more ↦
              let off : (b'.enabled == 1 && not (pid == 0)) ≡ false = ground arith in
              (
                write s q b',
                rw (count_up, deref_live s q b alive, ◌>>=◌, off),
                recount-IsCode arch p pid m s (write s q b') proc q b' refl orig a b c held alive
                    (λ z. ground arith) (λ z. omega (arith, z)) refl refl refl,
              )
        ]

    pub insert_breakpoint-IsCode :
        (s : Core p.Kernel) (proc : Process) (a : ℕ)
        → FitsWord arch
        → IsStore arch s proc
        → IsCode arch p pid m orig s proc
        → proc.pid ≡ pid
        → pid ≢ 0
        → IsClear s proc a
        → Returns (insert_breakpoint arch p s proc a) (λ r. IsCode arch p pid m orig r.0 r.1)
    unfolding insert_breakpoint
    insert_breakpoint-IsCode s proc a f t c same_pid live_pid clear =
        let r = find_or_add arch p s proc a in
        let added = find_or_add-Added arch p s proc a t in
        let l = added.store.live a r.2 added.held in
        let b = l.struct in
        let place : b.addr ≡ placed s proc a = added.place b l.alive in
        let apart : b.enabled ≡ 0
            → (x : ℕ) (st : Breakpoint) → IsArmed r.0 r.1 x st
            → Apart arch p pid m b.addr st.addr =
          λ bare x st i.
            subst (λ z. Apart arch p pid m z st.addr) (sym place)
              (clear x st (added.set_before x st i) λ z.
                let same : b ≡ st =
                  alone r.0 r.1 a r.2 x b st added.store added.held l.alive i (place ∙ z) in
                i.wanted (ap (λ (w : Breakpoint). w.enabled) (sym same) ∙ bare)) in
        let (s', run, c') =
          subst (λ n. Returns (count_up arch p r.0 n r.2) (λ s'. IsCode arch p pid m orig s' r.1))
            (sym same_pid)
            (count_up-IsCode r.0 r.1 a r.2 b f (added-IsCode s proc a t c) added.held l.alive
              l.same_length live_pid apart) in
        ((s', r.1), rw (insert_breakpoint, run), c')

    count_down-IsCode :
        (s : Core p.Kernel) (proc : Process) (a q n : ℕ) (b : Breakpoint)
        → FitsWord arch
        → IsCode arch p pid m orig s proc
        → ptr_at proc a ≡ some q
        → s.heap q ≡ some b
        → b.enabled ≡ suc n
        → Returns (count_down arch p s pid q b (suc n)) (λ s'. IsCode arch p pid m orig s' proc)
    unfolding count_down
    count_down-IsCode s proc a q n b f c held alive now =
        let b' : Breakpoint = record b { enabled = n } in
        let s₁ : Core p.Kernel = write s q b' in
        let off : Core p.Kernel = record s₁ {
          kernel = disable_breakpoint arch p pid s.kernel b';
        } in
        elim (Bool-cases (n == 0)) [
          | inl last ↦ (
            off,
            rw last,
            switched_off-IsCode arch p pid m s off proc q b' refl orig a b f c held alive
                (λ z. omega (arith, z, now)) ((==_iff n 0).0 last) refl refl refl,
          )
          | inr more ↦ (
            s₁,
            rw more,
            recount-IsCode arch p pid m s s₁ proc q b' refl orig a b c held alive
                (λ z. omega (arith, z, now)) (λ z. ground (arith, z)) refl refl refl,
          )
        ]

    pub delete_breakpoint-IsCode :
        (s : Core p.Kernel) (proc : Process) (a n : ℕ)
        → FitsWord arch
        → IsStore arch s proc
        → IsCode arch p pid m orig s proc
        → proc.pid ≡ pid
        → count s proc a ≡ suc n
        → Returns (delete_breakpoint arch p s proc a) (λ s'. IsCode arch p pid m orig s' proc)
    unfolding delete_breakpoint
    delete_breakpoint-IsCode s proc a n f t c same_pid e = elim (Option-cases (ptr_at proc a)) [
      | inl none_there ↦ absurd (ground arith)
      | inr (q, held) ↦
          let l = t.live a q held in
          let (d, has) = has_table arch p proc a q held in
          let now : l.struct.enabled ≡ suc n = ground (arith, l.alive) in
          let (s', run, c') =
            subst
              (λ n'.
                Returns (count_down arch p s n' q l.struct (suc n))
                  (λ s'. IsCode arch p pid m orig s' proc))
              (sym same_pid) (count_down-IsCode s proc a q n l.struct f c held l.alive now) in
          (
            s',
            rw (
              delete_breakpoint,
              found_at arch p proc d a has,
              held,
              ◌>>=◌,
              deref_live s q l.struct l.alive,
              now,
              run,
            ),
            c',
          )
    ]
