-- ===== src/Tgid.antt =====
-- From a thread id to its process: `pid2tgid`, its cache and `parse_tgid_str` of
-- utrace-0.1/sysdeps/linux-gnu/proc.c. The cache is the list of its `PID2TGID_CACHE_SIZE` entries;
-- `read_status` is what `kill` and `read` of /proc/<pid>/status yield: the text up to its null, a
-- failure, or, for a thread that is gone, whatever the buffer holds.
pub mod Cache
pub mod Status
use utrace.Common.{
  ℕ, zero, suc, ◌+◌, ◌-◌, ◌*◌, Bool, true, false, not, ◌&&◌, ◌||◌, List, [], ◌∷◌, ◌++◌, Option,
  none, some, ◌==◌, if◌then◌else◌, ltb, leb, get_or, set, length, replicate,
}

pub record Pid2TgidEntry : Type 0 where
  pub pid : ℕ
  pub tgid : ℕ
  pub ref_count : ℕ

abbrev pub zero_entry : Pid2TgidEntry
zero_entry = record { pid = 0; tgid = 0; ref_count = 0 }

abbrev pub pid2tgid_cache_size : ℕ
pid2tgid_cache_size = 10

-- The loop of `pid2tgid_cache_get`: the answer, 0 where there is none, and the counts after it. A
-- count wraps at 2 ^ 64, which no run reaches.
unfoldable pub get_scan : ℕ → List Pid2TgidEntry → ℕ × List Pid2TgidEntry
get_scan pid [] = (0, [])
get_scan pid (e ∷ es) =
    let (tgid, rest) = get_scan pid es in
    if e.pid == pid
    then (e.tgid, record e { ref_count = e.ref_count + 1 } ∷ es)
    else (tgid, e ∷ rest)

unfoldable pub pid2tgid_cache_get : ℕ → List Pid2TgidEntry → ℕ × List Pid2TgidEntry
unfolding get_scan
pid2tgid_cache_get pid cache = if pid == 0 then (0, cache) else get_scan pid cache

-- Where the loop of `pid2tgid_cache_put` ends: at an entry of the thread, at a free one, or behind
-- the array with `idx`.
pub data PutScan : Type 0 where
  present : PutScan
  free_at : ℕ → PutScan
  evict : ℕ → PutScan

unfoldable pub put_scan : ℕ → ℕ → ℕ → ℕ → List Pid2TgidEntry → PutScan
put_scan pid ref_count i idx [] = evict idx
put_scan pid ref_count i idx (e ∷ es) =
    let next = put_scan pid ref_count (i + 1) (if ltb e.ref_count ref_count then i else idx) es in
    if e.pid == pid then present else (if e.pid == 0 then free_at i else next)

-- The `ref_count` of the entry stays as it was.
abbrev pub put_entry : List Pid2TgidEntry → ℕ → ℕ → ℕ → List Pid2TgidEntry
put_entry cache i pid tgid =
    set cache i (record (get_or cache i zero_entry) { pid = pid; tgid = tgid })

abbrev pub put_at : ℕ → ℕ → List Pid2TgidEntry → PutScan → List Pid2TgidEntry
put_at pid tgid cache present = cache
put_at pid tgid cache (free_at i) = put_entry cache i pid tgid
put_at pid tgid cache (evict i) = put_entry cache i pid tgid

unfoldable pub pid2tgid_cache_put : ℕ → ℕ → List Pid2TgidEntry → List Pid2TgidEntry
unfolding put_scan
pid2tgid_cache_put pid tgid cache =
    if pid == 0 then cache else put_at pid tgid cache (put_scan pid 4294967295 0 0 cache)

unfoldable pub pid2tgid_cache_flush : List Pid2TgidEntry → List Pid2TgidEntry
pid2tgid_cache_flush cache = replicate pid2tgid_cache_size zero_entry

-- `!strncmp(str, key, strlen(key))`, with the rest of the string.
unfoldable pub strip_prefix : List ℕ → List ℕ → Option (List ℕ)
strip_prefix [] s = some s
strip_prefix (c ∷ cs) [] = none
strip_prefix (c ∷ cs) (d ∷ ds) = let rest = strip_prefix cs ds in if c == d then rest else none

-- `strstr(proc_str, key)`, moved on by `strlen(key)`.
unfoldable pub after_key : List ℕ → List ℕ → Option (List ℕ)
unfolding strip_prefix
after_key key [] = strip_prefix key []
after_key key (c ∷ cs) =
    let later = after_key key cs in
    elim (strip_prefix key (c ∷ cs)) [ none ↦ later | some rest ↦ some rest ]

abbrev pub is_digit : ℕ → Bool
is_digit c = leb 48 c && leb c 57

-- "move to digits section": to the first digit or the end of the line.
unfoldable pub skip_to_digits : List ℕ → List ℕ
skip_to_digits [] = []
skip_to_digits (c ∷ cs) =
    let rest = skip_to_digits cs in if not (c == 10) && not (is_digit c) then rest else c ∷ cs

-- The digits go into `buf[10]`, of which `used` are taken; the result is what `lp` passed, or none
-- where `lp - buf > sizeof(buf) - 1` ends the function.
unfoldable pub copy_digits : ℕ → List ℕ → Option (List ℕ)
copy_digits used [] = some []
copy_digits used (c ∷ cs) =
    let rest = copy_digits (used + 1) cs in
    if is_digit c
    then (if ltb 9 (used + 1) then none else elim rest [ none ↦ none | some ds ↦ some (c ∷ ds) ])
    else some []

-- `atoi` on digits
unfoldable pub atoi : ℕ → List ℕ → ℕ
atoi acc [] = acc
atoi acc (c ∷ cs) = atoi (acc * 10 + (c - 48)) cs

-- "Tgid:"
abbrev pub tgid_key : List ℕ
tgid_key = 84 ∷ 103 ∷ 105 ∷ 100 ∷ 58 ∷ []

-- The test `(*p > '9') && (*p < '0')` never holds.
unfoldable pub parse_tgid_str : List ℕ → ℕ
unfolding after_key skip_to_digits copy_digits atoi
parse_tgid_str proc_str = elim (after_key tgid_key proc_str) [
  | none ↦ 0
  | some rest ↦ elim (copy_digits 0 (skip_to_digits rest)) [ none ↦ 0 | some ds ↦ atoi 0 ds ]
]

-- What `pid2tgid` reads: a failed `open` or `read`, or the text in the buffer.
abbrev pub tgid_of_status : Option (List ℕ) → ℕ
tgid_of_status none = 0
tgid_of_status (some text) = parse_tgid_str text

unfoldable pub pid2tgid :
    (read_status : ℕ → Option (List ℕ)) → ℕ → List Pid2TgidEntry → ℕ × List Pid2TgidEntry
unfolding pid2tgid_cache_get pid2tgid_cache_put parse_tgid_str
pid2tgid read_status pid cache =
    let (cached, counted) = pid2tgid_cache_get pid cache in
    let tgid = tgid_of_status (read_status pid) in
    if not (cached == 0)
    then (cached, counted)
    else (tgid, if not (tgid == 0) then pid2tgid_cache_put pid tgid counted else counted)
