-- ===== src/Path.antt =====
-- src/storage/fs/fs.c: `fs_findfile`. The driver's `find` and the `close` of a handle are
-- parameters, over a state of the filesystem; a path is its characters without the final NUL.
use lboot.Base.{
  ℕ, zero, suc, ◌+◌, List, [], ◌∷◌, Bool, true, false, not, Option, none, some, ◌==◌, if◌then◌else◌,
  length, Outcome, returns, no_fuel,
}
pub mod Components
mod Tests

-- `fs_findfile` returns 0 with the handle written, 0 with the handle not written, or -1.
pub data Lookup (H : Type 0) : Type 0 where
  found : H → Lookup H
  unwritten : Lookup H
  not_found : Lookup H

-- The component up to the first separator, and the path after that separator, if there is one.
unfoldable pub split : List ℕ → List ℕ × Option (List ℕ)
split [] = ([], none)
split (c ∷ cs) = let rest = split cs in if c == 47 then ([], some cs) else (c ∷ rest.0, rest.1)

module _ {S H : Type 0} (find : S → Option H → List ℕ → Option H × S) (close : S → H → S)
    (is_directory : H → Bool) where
  -- `dir` is closed if it is the handle of the function itself, `&tdir1`.
  unfoldable pub close_own : S → Option H → Bool → S
  close_own s none own = s
  close_own s (some dir) own = if own then close s dir else s

  -- The end of the search, for what the driver finds.
  unfoldable pub last_step : Option H → Bool → Option H × S → Lookup H × S
  unfolding close_own
  last_step dir own (none, s) = (not_found, s)
  last_step dir own (some file, s) = (found file, close_own s dir own)

  -- A directory on the way, and the search from it on.
  unfoldable pub enter :
      Option H
      → Bool
      → Option H × S
      → (S → Option H → Outcome (Lookup H × S))
      → Outcome (Lookup H × S)
  unfolding close_own
  enter dir own (none, s) go_on = returns (not_found, s)
  enter dir own (some sub, s) go_on =
      if not (is_directory sub)
      then returns (not_found, s)
      else go_on (close_own s dir own) (some sub)

  -- Whether a separator was found.
  unfoldable pub after_split :
      Option (List ℕ) → Lookup H × S → (List ℕ → Outcome (Lookup H × S)) → Outcome (Lookup H × S)
  after_split none result go_on = returns result
  after_split (some path) result go_on = go_on path

  -- The `while(*cpath)` loop.
  unfoldable pub walk_path : ℕ → S → Option H → Bool → List ℕ → Outcome (Lookup H × S)
  unfolding close_own last_step enter after_split
  walk_path zero s dir own path = no_fuel
  walk_path (suc fuel) s dir own [] = returns (unwritten, close_own s dir own)
  walk_path (suc fuel) s dir own (c ∷ cs) =
      let (name, rest) = split (c ∷ cs) in
      after_split rest (last_step dir own (find s dir name))
        (λ path. enter dir own (find s dir name) (λ s' sub. walk_path fuel s' sub true path))

  -- What is left of the path must not be empty; each pass takes a character of it at least.
  unfoldable pub from_start : S → Option H → List ℕ → Outcome (Lookup H × S)
  unfolding walk_path
  from_start s dir [] = returns (not_found, s)
  from_start s dir (c ∷ cs) = walk_path (suc (length (c ∷ cs))) s dir false (c ∷ cs)

  -- A path that starts with a separator starts at the root.
  unfoldable pub findfile : S → Option H → List ℕ → Outcome (Lookup H × S)
  unfolding from_start
  findfile s dir [] = returns (not_found, s)
  findfile s dir (c ∷ cs) = if c == 47 then from_start s none cs else from_start s dir (c ∷ cs)
