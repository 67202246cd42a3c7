-- ===== src/Tests/Layouts.antt =====
-- Beginnings of lines.
use utrace.Common.{◌≡◌, arith, [], ◌∷◌, ◌++◌, some}
use utrace.Common.Int.{pos}
use utrace.Tracee.{Timeval}
use utrace.Layout.{display_char}
use utrace.Layout.Characters.{read_back, read_back-display_char}

abbrev earlier : Timeval
earlier = record { tv_sec = 3; tv_usec = 900000 }

abbrev later : Timeval
later = record { tv_sec = 5; tv_usec = 100000 }

read_back-display_char_example :
    read_back (display_char (pos 200) ++ (33 ∷ [])) ≡ some (200, 33 ∷ [])
read_back-display_char_example = read_back-display_char 200 (33 ∷ []) (omega arith)
