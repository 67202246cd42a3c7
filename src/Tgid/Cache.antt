-- ===== src/Tgid/Cache.antt =====
-- The cache of utrace-0.1/sysdeps/linux-gnu/proc.c: its answers, and the entry that it gives up.
use utrace.Common.{
  ℕ, zero, suc, ◌+◌, ◌<◌, ◌≡◌, ◌≢◌, ◌⊎◌, inl, inr, List, [], ◌∷◌, Bool-cases, ==_iff, ==_ne,
  ==_refl, lt→ltb, if◌then◌else◌, ◌≤◌, Bool, true, false, ltb, ◌==◌, ◌∙◌, sym, Option, set, length,
  refl, ap, arith, replicate,
}
use utrace.Tgid.{
  Pid2TgidEntry, zero_entry, get_scan, pid2tgid_cache_get, PutScan, present, free_at, evict,
  put_scan, put_entry, put_at, pid2tgid_cache_put, pid2tgid_cache_flush, pid2tgid, tgid_of_status,
}

-- Every entry in use has the process that `truth` names for its thread.
abbrev pub IsSound : (truth : ℕ → ℕ) → List Pid2TgidEntry → Type 0
IsSound truth [] = Unit
IsSound truth (e ∷ es) = (e.pid ≢ 0 → e.tgid ≡ truth e.pid) × IsSound truth es

==_false : (n : ℕ) → (n == 0) ≡ false → n ≢ 0
==_false n h e = ground arith

module _ (truth : ℕ → ℕ) where
  set-IsSound :
      (cache : List Pid2TgidEntry) (i : ℕ) (e : Pid2TgidEntry)
      → IsSound truth cache
      → e.tgid ≡ truth e.pid
      → IsSound truth (set cache i e)
  set-IsSound [] i e s h = s
  set-IsSound (x ∷ xs) zero e s h = (λ n. h, s.1)
  set-IsSound (x ∷ xs) (suc i) e s h = (s.0, set-IsSound xs i e s.1 h)

  get_scan-IsSound :
      (pid : ℕ) (cache : List Pid2TgidEntry)
      → pid ≢ 0
      → IsSound truth cache
      → ((get_scan pid cache).0 ≡ 0 ⊎ (get_scan pid cache).0 ≡ truth pid)
        × IsSound truth (get_scan pid cache).1
  unfolding get_scan
  get_scan-IsSound pid [] n s = (inl refl, s)
  get_scan-IsSound pid (e ∷ es) n s = elim (Bool-cases (e.pid == pid)) [
    | inl y ↦
        let same : e.pid ≡ pid = (==_iff e.pid pid).0 y in
        rw y (inr (s.0 (λ z. n (sym same ∙ z)) ∙ ap truth same), s)
    | inr z ↦ let (answer, sound) = get_scan-IsSound pid es n s.1 in rw z (answer, (s.0, sound))
  ]

  cache_get-IsSound :
      (pid : ℕ) (cache : List Pid2TgidEntry)
      → IsSound truth cache
      → ((pid2tgid_cache_get pid cache).0 ≡ 0 ⊎ (pid2tgid_cache_get pid cache).0 ≡ truth pid)
        × IsSound truth (pid2tgid_cache_get pid cache).1
  unfolding pid2tgid_cache_get
  cache_get-IsSound pid cache s = elim (Bool-cases (pid == 0)) [
    | inl y ↦ rw y (inl refl, s)
    | inr z ↦ rw z (get_scan-IsSound pid cache (λ e. ==_false pid z e) s)
  ]

  put_at-IsSound :
      (pid tgid : ℕ) (cache : List Pid2TgidEntry) (r : PutScan)
      → IsSound truth cache
      → tgid ≡ truth pid
      → IsSound truth (put_at pid tgid cache r)
  put_at-IsSound pid tgid cache present s h = s
  put_at-IsSound pid tgid cache (free_at i) s h = set-IsSound cache i _ s h
  put_at-IsSound pid tgid cache (evict i) s h = set-IsSound cache i _ s h

  cache_put-IsSound :
      (pid tgid : ℕ) (cache : List Pid2TgidEntry)
      → IsSound truth cache
      → tgid ≡ truth pid
      → IsSound truth (pid2tgid_cache_put pid tgid cache)
  unfolding pid2tgid_cache_put
  cache_put-IsSound pid tgid cache s h = elim (Bool-cases (pid == 0)) [
    | inl y ↦ rw y s
    | inr z ↦ rw z (put_at-IsSound pid tgid cache _ s h)
  ]

  -- Where the status of every thread names its process and the cache holds nothing else, pid2tgid
  -- answers the process of the thread, and the cache holds nothing else after it
  pub pid2tgid-IsSound :
      (read_status : ℕ → Option (List ℕ)) (pid : ℕ) (cache : List Pid2TgidEntry)
      → ((q : ℕ) → tgid_of_status (read_status q) ≡ truth q)
      → IsSound truth cache
      → ((pid2tgid read_status pid cache).0 ≡ truth pid)
        × IsSound truth (pid2tgid read_status pid cache).1
  unfolding pid2tgid
  pid2tgid-IsSound read_status pid cache h s =
      let (answer, counted) = cache_get-IsSound pid cache s in
      elim (Bool-cases ((pid2tgid_cache_get pid cache).0 == 0)) [
        | inl y ↦ rw y (elim (Bool-cases (tgid_of_status (read_status pid) == 0)) [
          | inl y' ↦ rw y' (h pid, counted)
          | inr z' ↦ rw z' (h pid, cache_put-IsSound pid _ _ counted (h pid))
        ])
        | inr z ↦ rw z (elim answer [ inl e ↦ absurd (==_false _ z e) | inr e ↦ (e, counted) ])
      ]

  replicate-IsSound : (n : ℕ) → IsSound truth (replicate n zero_entry)
  unfolding replicate
  replicate-IsSound zero = tt
  replicate-IsSound (suc n) = (λ h. absurd (h refl), replicate-IsSound n)

  pub flush-IsSound : (cache : List Pid2TgidEntry) → IsSound truth (pid2tgid_cache_flush cache)
  unfolding pid2tgid_cache_flush
  flush-IsSound cache = replicate-IsSound 10

-- No entry is of this thread.
abbrev pub IsAbsent : ℕ → List Pid2TgidEntry → Type 0
IsAbsent pid [] = Unit
IsAbsent pid (e ∷ es) = (e.pid ≢ pid) × IsAbsent pid es

-- Every entry is of some other thread, and has been asked for less than 2 ^ 32 - 1 times.
abbrev pub IsBusy : ℕ → List Pid2TgidEntry → Type 0
IsBusy pid [] = Unit
IsBusy pid (e ∷ es) = (e.pid ≢ 0) × (e.pid ≢ pid) × (e.ref_count < 4294967295) × IsBusy pid es

-- The slot that the scan ends at is one of the array, or the index it came with.
InRange : ℕ → ℕ → ℕ → PutScan → Type 0
InRange i idx n present = ⊥
InRange i idx n (free_at k) = (i ≤ k) × (k < i + n)
InRange i idx n (evict k) = (k ≡ idx) ⊎ ((i ≤ k) × (k < i + n))

InRange-step :
    (i idx n : ℕ) (lower : Bool) (r : PutScan)
    → InRange (i + 1) (if lower then i else idx) n r
    → InRange i idx (suc n) r
unfolding InRange
InRange-step i idx n lower present h = h
InRange-step i idx n lower (free_at k) h = ground arith
InRange-step i idx n true (evict k) h = ground arith
InRange-step i idx n false (evict k) h = ground arith

put_scan-InRange :
    (pid r i idx : ℕ) (es : List Pid2TgidEntry)
    → IsAbsent pid es
    → InRange i idx (length es) (put_scan pid r i idx es)
unfolding put_scan InRange
put_scan-InRange pid r i idx [] a = inl refl
put_scan-InRange pid r i idx (e ∷ es) a =
    let rest = put_scan-InRange pid r (i + 1) (if ltb e.ref_count r then i else idx) es a.1 in
    let moved = InRange-step i idx (length es) (ltb e.ref_count r) _ rest in
    rw (==_ne e.pid pid a.0) (elim (Bool-cases (e.pid == 0)) [
      | inl y ↦ rw y (omega arith, omega arith)
      | inr z ↦ rw z moved
    ])

get_scan-set :
    (pid : ℕ) (es : List Pid2TgidEntry) (k : ℕ) (e : Pid2TgidEntry)
    → IsAbsent pid es
    → k < length es
    → e.pid ≡ pid
    → (get_scan pid (set es k e)).0 ≡ e.tgid
unfolding get_scan
get_scan-set pid [] k e a h same = absurd (omega arith)
get_scan-set pid (x ∷ es) zero e a h same = rw (same, ==_refl pid) refl
get_scan-set pid (x ∷ es) (suc k) e a h same =
    rw (==_ne x.pid pid a.0) (get_scan-set pid es k e a.1 (omega arith) same)

put_scan_busy :
    (pid i idx : ℕ) (e : Pid2TgidEntry) (es : List Pid2TgidEntry)
    → IsBusy pid (e ∷ es)
    → put_scan pid 4294967295 i idx (e ∷ es) ≡ evict (i + length es)
unfolding put_scan
put_scan_busy pid i idx e [] b =
    rw (==_ne e.pid pid b.1, ==_ne e.pid 0 b.0, lt→ltb e.ref_count 4294967295 b.2)
      (ap evict (omega arith))
put_scan_busy pid i idx e (e' ∷ es) b =
    rw
      (
        ==_ne e.pid pid b.1,
        ==_ne e.pid 0 b.0,
        put_scan_busy pid (i + 1) (if ltb e.ref_count 4294967295 then i else idx) e' es b.3,
      )
      (ap evict (omega arith))

-- In a cache that is not empty and has no entry of the thread, with a nonzero id, what
-- pid2tgid_cache_put stores is what pid2tgid_cache_get finds next
pub cache_get-put :
    (pid tgid : ℕ) (cache : List Pid2TgidEntry)
    → pid ≢ 0
    → 0 < length cache
    → IsAbsent pid cache
    → (pid2tgid_cache_get pid (pid2tgid_cache_put pid tgid cache)).0 ≡ tgid
unfolding pid2tgid_cache_get pid2tgid_cache_put InRange
cache_get-put pid tgid cache n l a =
    rw (==_ne pid 0 n) (at_scan _ (put_scan-InRange pid 4294967295 0 0 cache a))
  where
    at_scan :
        (r : PutScan)
        → InRange 0 0 (length cache) r
        → (get_scan pid (put_at pid tgid cache r)).0 ≡ tgid
    at_scan present h = absurd h
    at_scan (free_at k) h = get_scan-set pid cache k _ a (omega arith) refl
    at_scan (evict k) h = get_scan-set pid cache k _ a (ground arith) refl

-- Where every entry of the cache is of another thread and was asked for less than 2 ^ 32 - 1
-- times, pid2tgid_cache_put for a nonzero id gives up the last entry, whatever the counts are, and
-- the new pair inherits the count of the old one
pub cache_put_full :
    (pid tgid : ℕ) (e : Pid2TgidEntry) (es : List Pid2TgidEntry)
    → pid ≢ 0
    → IsBusy pid (e ∷ es)
    → pid2tgid_cache_put pid tgid (e ∷ es) ≡ put_entry (e ∷ es) (length es) pid tgid
unfolding pid2tgid_cache_put
cache_put_full pid tgid e es n b =
    rw (==_ne pid 0 n, put_scan_busy pid 0 0 e es b)
      (ap (λ i. put_entry (e ∷ es) i pid tgid) (omega arith))
