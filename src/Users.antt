-- ===== src/Users.antt =====
-- `change_uid` of utrace-0.1/execute_program.c: the calls by which the child takes its user. The
-- answers of the system come from outside.
use utrace.Common.{
  ℕ, ◌≡◌, ◌⊎◌, true, false, Bool, Bool-cases, inl, inr, not, ◌||◌, List, [], ◌∷◌, Option, none,
  some, ◌==◌, if◌then◌else◌,
}
use utrace.Run.{Run, ok, fault, exit_failure, ◌>>=◌}

pub record Passwd : Type 0 where
  pub pw_uid : ℕ
  pub pw_gid : ℕ

pub record Stat : Type 0 where
  pub setuid : Bool
  pub setgid : Bool
  pub st_uid : ℕ
  pub st_gid : ℕ

-- What the system answers: `getpwnam`, `initgroups`, `stat`, and whether a change is granted.
pub record System : Type 0 where
  pub uid : ℕ
  pub euid : ℕ
  pub gid : ℕ
  pub getpwnam : List ℕ → Option Passwd
  pub initgroups : List ℕ → ℕ → Bool
  pub stat : List ℕ → Option Stat
  pub grants : ℕ → ℕ → Bool

-- The calls that were granted.
pub data Change : Type 0 where
  groups : List ℕ → ℕ → Change
  setregid : (rgid egid : ℕ) → Change
  setreuid : (ruid euid : ℕ) → Change

module _ (sys : System) where
  -- `run_uid`, `run_gid` and the calls so far.
  unfoldable pub run_ids : Option (List ℕ) → Run (ℕ × ℕ × List Change)
  run_ids none = ok (sys.uid, sys.gid, [])
  run_ids (some name) =
      if not (sys.uid == 0) || not (sys.euid == 0)
      then fault exit_failure
      else elim (sys.getpwnam name) [
        | none ↦ fault exit_failure
        | some pent ↦
            if sys.initgroups name pent.pw_gid
            then ok (pent.pw_uid, pent.pw_gid, groups name pent.pw_gid ∷ [])
            else fault exit_failure
      ]

  -- The effective ids: those of the file's owner where its mode says so.
  abbrev pub effective_uid : ℕ → Option Stat → ℕ
  effective_uid run none = run
  effective_uid run (some st) = if st.setuid then st.st_uid else run

  abbrev pub effective_gid : ℕ → Option Stat → ℕ
  effective_gid run none = run
  effective_gid run (some st) = if st.setgid then st.st_gid else run

  unfoldable pub set_ids : List ℕ → ℕ × ℕ × List Change → Run (List Change)
  set_ids filename (uid, gid, calls) =
      let egid = effective_gid gid (sys.stat filename) in
      let euid = effective_uid uid (sys.stat filename) in
      if sys.grants gid egid
      then (if sys.grants uid euid
          then ok (setreuid uid euid ∷ setregid gid egid ∷ calls)
          else fault exit_failure)
      else fault exit_failure

  abbrev pub is_some : Option (List ℕ) → Bool
  is_some none = false
  is_some (some x) = true

  unfoldable pub change_uid : (opt_u : Option (List ℕ)) (filename : List ℕ) → Run (List Change)
  unfolding run_ids set_ids
  change_uid opt_u filename = do
    ids ← run_ids opt_u
    if is_some opt_u || sys.euid == 0 then set_ids filename ids else ok (ids.2)

  -- With -u and a user that is known, change_uid leaves with exit(1), or it has set the groups,
  -- the group and the user, in this order, to those of the user, the effective ones to the owner
  -- of the program where its mode says so
  pub change_uid_user :
      (name filename : List ℕ) (pent : Passwd)
      → sys.getpwnam name ≡ some pent
      → (change_uid (some name) filename ≡ fault exit_failure)
        ⊎ (change_uid (some name) filename
            ≡ ok (
                setreuid pent.pw_uid (effective_uid pent.pw_uid (sys.stat filename))
                ∷ setregid pent.pw_gid (effective_gid pent.pw_gid (sys.stat filename))
                ∷ groups name pent.pw_gid
                ∷ []))
  unfolding change_uid run_ids set_ids
  change_uid_user name filename pent known =
      elim (Bool-cases (not (sys.uid == 0) || not (sys.euid == 0))) [
        | inl not_root ↦ inl (simp (not_root, ◌>>=◌))
        | inr root ↦ elim (Bool-cases (sys.initgroups name pent.pw_gid)) [
          | inr refused ↦ inl (simp (root, known, refused, ◌>>=◌))
          | inl joined ↦
              elim (Bool-cases
                (sys.grants pent.pw_gid (effective_gid pent.pw_gid (sys.stat filename)))) [
                  | inr no_group ↦ inl (simp (root, known, joined, no_group, ◌>>=◌))
                  | inl group ↦
                      elim (Bool-cases
                        (sys.grants pent.pw_uid (effective_uid pent.pw_uid (sys.stat filename)))) [
                          | inr no_user ↦ inl (simp (root, known, joined, group, no_user, ◌>>=◌))
                          | inl user ↦ inr (simp (root, known, joined, group, user, ◌>>=◌))
                        ]
                ]
        ]
      ]
