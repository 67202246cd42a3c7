-- ===== src/Tests/Tgids.antt =====
-- Runs of the code that finds the process of a thread.
use utrace.Common.{ℕ, ◌≡◌, refl, arith, List, [], ◌∷◌, Option, some}
use utrace.Tgid.{
  Pid2TgidEntry, zero_entry, pid2tgid_cache_get, pid2tgid_cache_put, pid2tgid, parse_tgid_str,
  put_entry, tgid_of_status,
}
use utrace.Tgid.Cache.{pid2tgid-IsSound}
use utrace.Tgid.Status.{parse_tgid_str_lem, parse_tgid_str_long, status_text}

-- "x\nTgid:\t57\n" of every thread
abbrev status : ℕ → Option (List ℕ)
status pid = some (status_text (120 ∷ 10 ∷ []) 53 (55 ∷ []) [] (10 ∷ []))

abbrev known : Pid2TgidEntry
known = record { pid = 58; tgid = 57; ref_count = 3 }

abbrev other : Pid2TgidEntry
other = record { pid = 61; tgid = 57; ref_count = 1 }

pid2tgid-IsSound_example : (pid2tgid status 60 (known ∷ zero_entry ∷ [])).0 ≡ 57
unfolding parse_tgid_str
pid2tgid-IsSound_example =
    (pid2tgid-IsSound (λ q. 57) status 60 (known ∷ zero_entry ∷ []) (λ q. refl)
      ((λ n. refl), ((λ n. absurd (n refl)), tt))).0

parse_tgid_str_lem_example :
    parse_tgid_str (status_text (120 ∷ 10 ∷ []) 53 (55 ∷ []) [] (10 ∷ [])) ≡ 57
unfolding utrace.Tgid.strip_prefix utrace.Tgid.Status.place_value
parse_tgid_str_lem_example =
    parse_tgid_str_lem (120 ∷ 10 ∷ []) 53 (55 ∷ []) [] (refl, (refl, tt)) (refl, (refl, tt))
      (omega arith)

abbrev zeros : List ℕ
zeros = 48 ∷ 48 ∷ 48 ∷ 48 ∷ 48 ∷ 48 ∷ 48 ∷ 48 ∷ 48 ∷ []
