-- ===== src/Path/Tests.antt =====
-- The lookup of a file in a directory, in a filesystem where every name is found.
use lboot.Base.{ℕ, ◌+◌, ◌≡◌, arith, List, [], ◌∷◌, Bool, true, false, Option, none, some, length}
use lboot.Path.{findfile}
use lboot.Path.Components.{Component, name_end, name_char, join, resolve, findfile-join}

abbrev find_any : ℕ → Option ℕ → List ℕ → Option ℕ × ℕ
find_any s dir name = (some (length name), s)

abbrev count_close : ℕ → ℕ → ℕ
count_close s dir = s + 1

abbrev any_directory : ℕ → Bool
any_directory h = true

abbrev etc : Component
etc = record { first = 65; others = []; plain = name_char 65 [] (omega arith) name_end }

abbrev cfg : Component
cfg = record { first = 66; others = []; plain = name_char 66 [] (omega arith) name_end }

findfile-join_example :
    (findfile find_any count_close any_directory 0 none (join etc (cfg ∷ []))
      ≡ resolve find_any count_close any_directory 0 none false etc (cfg ∷ []))
    × (findfile find_any count_close any_directory 0 none (47 ∷ join etc (cfg ∷ []))
        ≡ resolve find_any count_close any_directory 0 none false etc (cfg ∷ []))
findfile-join_example = findfile-join find_any count_close any_directory 0 none etc (cfg ∷ [])
