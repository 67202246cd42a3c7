-- ===== src/Processes/Removal.antt =====
-- Removing a process from the list.
use utrace.Common.{ℕ, ◌+◌, ◌≤◌, ◌≡◌, ◌≢◌, refl, List, [], ◌∷◌, ◌==◌, if◌then◌else◌, arith}
use utrace.Run.{ok}
use utrace.Tracee.{Process}
use utrace.Processes.{unlink, remove_proc}

-- How often a struct stands in the list.
unfoldable pub listed : ℕ → List Process → ℕ
listed proc [] = 0
listed proc (q ∷ qs) = if q.address == proc then 1 + listed proc qs else listed proc qs

unlink_absent : (proc : ℕ) (qs : List Process) → listed proc (unlink proc qs) ≡ 0
unfolding listed unlink
unlink_absent proc [] = refl
unlink_absent proc (q ∷ qs) = ground (arith, unlink_absent proc qs)

unlink_others :
    (proc other : ℕ) (qs : List Process)
    → other ≢ proc
    → listed other (unlink proc qs) ≡ listed other qs
unfolding listed unlink
unlink_others proc other [] n = refl
unlink_others proc other (q ∷ qs) n = ground (arith, unlink_others proc other qs n)

-- From a list that is not empty and holds the process at most once, remove_proc ends without a
-- fault, the process is not listed any more and every other process is listed as often as before
pub remove_proc_lem :
    (proc : ℕ) (q : Process) (qs : List Process)
    → listed proc (q ∷ qs) ≤ 1
    → (rest : List Process) × (remove_proc proc (q ∷ qs) ≡ ok rest)
      × (listed proc rest ≡ 0)
      × ((other : ℕ) → other ≢ proc → listed other rest ≡ listed other (q ∷ qs))
unfolding remove_proc listed
remove_proc_lem proc q qs h = (
  (if q.address == proc then qs else q ∷ unlink proc qs),
  refl,
  ground (arith, unlink_absent proc qs),
  λ other n. ground (arith, unlink_others proc other qs n),
)
