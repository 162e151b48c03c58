-- ===== src/Alloc/Free.antt =====
-- src/mm/alloc.c: `_do_free` and `free`.
use lboot.Base.{
  ℕ, ◌+◌, List, [], ◌∷◌, Bool, true, false, ◌&&◌, not, Option, none, some, ltb, ◌==◌, if◌then◌else◌,
  set, u32, Status, ok, failed, Outcome, returns, panics,
}
use lboot.Alloc.Entries.{Entry, Heap}

-- What the walk of `_do_free` has found, as indices with the entries there.
pub record Near : Type 0 where
  pub pre : Option (ℕ × Entry)
  pub ent : Option (ℕ × Entry)
  pub post : Option (ℕ × Entry)

-- `post == NULL`, or the entry lies before it
unfoldable pub closer : Option (ℕ × Entry) → Entry → Bool
closer none e = true
closer (some (j, p)) e = ltb e.addr p.addr

abbrev pub is_none {ℓ} : {A : Type ℓ} → Option A → Bool
is_none none = true
is_none (some _) = false

unfoldable pub look : ℕ → ℕ → Entry → Near → Near
unfolding closer
look addr i e s =
    if not e.valid
    then s
    else if e.used
    then (if is_none s.ent && e.addr == addr then record s { ent = some (i, e) } else s)
    else if is_none s.pre && u32 (e.addr + e.size) == addr
    then record s { pre = some (i, e) }
    else if ltb addr e.addr && closer s.post e
    then record s { post = some (i, e) }
    else s

unfoldable pub look_all : ℕ → ℕ → List Entry → Near → Near
look_all addr i [] s = s
look_all addr i (e ∷ es) s = look_all addr (i + 1) es (look addr i e s)

abbrev pub near_none : Near
near_none = record { pre = none; ent = none; post = none }

-- `pre->flags = 0` (and `post->flags = 0`)
abbrev pub cleared : Entry → Entry
cleared e = record e { valid = false; used = false }

unfoldable pub join_pre : Option (ℕ × Entry) → List Entry → Entry → List Entry × Entry
join_pre none es e = (es, e)
join_pre (some (i, p)) es e =
    (set es i (cleared p), record e { addr = p.addr; size = u32 (e.size + p.size) })

unfoldable pub join_post : Option (ℕ × Entry) → List Entry → Entry → List Entry × Entry
join_post none es e = (es, e)
join_post (some (i, p)) es e =
    if u32 (e.addr + e.size) == p.addr
    then (set es i (cleared p), record e { size = u32 (e.size + p.size) })
    else (es, e)

-- The end of `_do_free`.
unfoldable pub release : Heap → Near → Option (ℕ × Entry) → Status × Heap
unfolding join_pre join_post
release h s none = (failed, h)
release h s (some (i, e)) =
    let (es, e') = join_pre s.pre h.entries e in
    let (es', e'') = join_post s.post es e' in
    (ok, record h { entries = set es' i (record e'' { used = false }) })

unfoldable pub do_free : Heap → ℕ → Status × Heap
do_free h addr = let s = look_all addr 0 h.entries near_none in release h s s.ent

unfoldable pub free : Heap → ℕ → Outcome Heap
free h ptr = let (s, h') = do_free h ptr in elim s [ ok ↦ returns h' | failed ↦ panics ]
