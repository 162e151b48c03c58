-- ===== src/Alloc/Merged.antt =====
-- The entry that `_do_free` leaves in place of the one that it gives up.
use lboot.Base.{
  ℕ, zero, suc, ◌+◌, ◌≤◌, ◌<◌, ◌^◌, ◌≡◌, ◌≢◌, refl, sym, ◌∙◌, subst, arith, List, [], ◌∷◌, true,
  false, Option, none, some, get_elem?, length, if_split, ◌==◌, u32, Status, ok, failed,
  get_elem?-set_self,
}
use lboot.Alloc.Entries.{Entry, Heap}
use lboot.Alloc.Slots.{AllInBounds, InBounds-get}
use lboot.Alloc.Free.{Near, look_all, near_none, join_pre, join_post, release, do_free}
use lboot.Alloc.Release.{Free, Held}
use lboot.Alloc.Near.{PreOk, PostOk, EntOk, NearOk, found-NearOk, found-ent_none, found-pre_none}
use lboot.Alloc.Behind.{AtMost, look_all_takes}
use lboot.Alloc.Freed.{Freed, with_pre, with_post, post_kept, release-Freed}

-- The entry that stands for the one given up: it is free and holds all of it, and begins with a free
-- entry that ended where it starts, where there was one. Where a free entry started at its end, it
-- was not empty, and none started inside of it, it ends with a free entry that started there.
pub record Merged (h : Heap) (i : ℕ) (e : Entry) (k : Heap) : Type 0 where
  pub entry : Entry
  pub there : get_elem? k.entries i ≡ some entry
  pub free : (entry.valid ≡ true) × (entry.used ≡ false)
  pub holds : (entry.addr ≤ e.addr) × (e.addr + e.size ≤ entry.addr + entry.size)
  pub before :
      (j : ℕ) (p : Entry)
      → Free h.entries j p
      → p.addr + p.size ≡ e.addr
      → (n : ℕ) × (q : Entry) × Free h.entries n q
        × (q.addr + q.size ≡ e.addr)
        × (entry.addr ≡ q.addr)
  pub behind :
      (j : ℕ) (p : Entry)
      → Free h.entries j p
      → 0 < e.size
      → p.addr ≡ e.addr + e.size
      → ((n : ℕ) (q : Entry) → Free h.entries n q → e.addr < q.addr → e.addr + e.size ≤ q.addr)
      → (n : ℕ) × (q : Entry) × Free h.entries n q
        × (q.addr ≡ e.addr + e.size)
        × (entry.addr + entry.size ≡ q.addr + q.size)

join_post-addr :
    (o : Option (ℕ × Entry)) (es : List Entry) (e : Entry) → (join_post o es e).1.addr ≡ e.addr
unfolding join_post
join_post-addr none es e = refl
join_post-addr (some (j, p)) es e =
    if_split (λ (r : List Entry × Entry). r.1.addr ≡ e.addr) (u32 (e.addr + e.size) == p.addr)
      (λ q. refl) (λ q. refl)

found_index : (es : List Entry) (i : ℕ) {e : Entry} → get_elem? es i ≡ some e → i < length es
found_index [] i h = cc
found_index (x ∷ xs) zero h = omega arith
found_index (x ∷ xs) (suc i) h = omega (arith, found_index xs i h)

before_joined :
    (h : Heap) (e : Entry) (o : Option (ℕ × Entry))
    → AllInBounds h.entries
    → PreOk e.addr h.entries o
    → (o ≡ none
        → (j : ℕ) (p : Entry) → get_elem? h.entries j ≡ some p
        → p.valid ≡ true
        → p.used ≡ false
        → u32 (p.addr + p.size) ≢ e.addr)
    → (j : ℕ) (p : Entry) → Free h.entries j p
    → p.addr + p.size ≡ e.addr
    → (n : ℕ) × (q : Entry) × Free h.entries n q
      × (q.addr + q.size ≡ e.addr)
      × ((join_pre o h.entries e).1.addr ≡ q.addr)
unfolding join_pre
before_joined h e none a good absent j p f at =
    let bound = InBounds-get h.entries j a f.there f.valid in
    absurd (absent refl j p f.there f.valid f.unused (omega (arith, bound, at)))
before_joined h e (some (n, q)) a good absent j p f at =
    let bound = InBounds-get h.entries n a good.0.there good.0.valid in
    (n, q, good.0, omega (arith, bound, good.1), refl)

join_pre-end :
    (h : Heap) (e : Entry) (o : Option (ℕ × Entry))
    → AllInBounds h.entries
    → e.addr + e.size < 2 ^ 32
    → PreOk e.addr h.entries o
    → (let e1 = (join_pre o h.entries e).1 in e1.addr + e1.size ≡ e.addr + e.size)
unfolding join_pre
join_pre-end h e none a small good = refl
join_pre-end h e (some (n, q)) a small good =
    let bound = InBounds-get h.entries n a good.0.there good.0.valid in
    ground (arith, bound, good.1, small)

join_post-end :
    (es : List Entry) (e p : Entry) (n : ℕ)
    → e.addr + e.size ≡ p.addr
    → p.addr + p.size < 2 ^ 32
    → (let e2 = (join_post (some (n, p)) es e).1 in e2.addr + e2.size ≡ p.addr + p.size)
unfolding join_post
join_post-end es e p n at small =
    if_split (λ (r : List Entry × Entry). r.1.addr + r.1.size ≡ p.addr + p.size)
      (u32 (e.addr + e.size) == p.addr) (λ q. omega arith) (λ q. absurd (ground arith))

behind_joined :
    (h : Heap) (e e1 : Entry) (es : List Entry) (o : Option (ℕ × Entry)) (b : ℕ)
    → AllInBounds h.entries
    → PostOk e.addr h.entries o
    → e1.addr + e1.size ≡ e.addr + e.size
    → AtMost o b
    → b ≡ e.addr + e.size
    → ((n : ℕ) (q : Entry) → Free h.entries n q → e.addr < q.addr → e.addr + e.size ≤ q.addr)
    → (n : ℕ) × (q : Entry) × Free h.entries n q
      × (q.addr ≡ e.addr + e.size)
      × (let e2 = (join_post o es e1).1 in e2.addr + e2.size ≡ q.addr + q.size)
behind_joined h e e1 es none b a good end most at clear = absurd most
behind_joined h e e1 es (some (n, q)) b a good end most at clear =
    let bound = InBounds-get h.entries n a good.0.there good.0.valid in
    let here : q.addr ≡ e.addr + e.size = omega (arith, most, at, clear n q good.0 good.1) in
    (n, q, good.0, here, join_post-end es e1 q n (end ∙ sym here) (omega (arith, bound)))

-- The walk's entry behind starts no later than any free one.
abbrev Nearest : Heap → ℕ → Option (ℕ × Entry) → Type 0
Nearest h addr o =
    (j : ℕ) (q : Entry)
    → Free h.entries j q
    → addr < q.addr
    → u32 (q.addr + q.size) ≢ addr
    → AtMost o q.addr

release-Merged :
    (h : Heap) (i : ℕ) (e : Entry) (s : Near)
    → AllInBounds h.entries
    → Held h.entries i e
    → NearOk e.addr h.entries s
    → (s.pre ≡ none
        → (j : ℕ) (p : Entry) → get_elem? h.entries j ≡ some p
        → p.valid ≡ true
        → p.used ≡ false
        → u32 (p.addr + p.size) ≢ e.addr)
    → Nearest h e.addr s.post
    → Merged h i e (release h s (some (i, e))).1
unfolding release
release-Merged h i e s a t near absent nearest =
    let j = with_pre i h.entries e a t s.pre near.pre_ok in
    let held : Held (join_pre s.pre h.entries e).0 i e = record {
      there = j.there ∙ t.there;
      valid = t.valid;
      used = t.used;
    } in
    let k =
      with_post i _ _ e j.bounds (j.kept.0 ∙ t.valid) j.in_bounds held s.post e.addr
        (post_kept h.entries e s.pre s.post a near.pre_ok near.post_ok) in
    let last = found_index _ i (k.there ∙ held.there) in
    record {
      entry = _;
      there = get_elem?-set_self _ i _ last;
      free = (k.kept.0 ∙ j.kept.0 ∙ t.valid, refl);
      holds = (omega (arith, j.holds, k.holds), omega (arith, j.holds, k.holds));
      before = λ n p f at.
          (let found = before_joined h e s.pre a near.pre_ok absent n p f at in
            (found.0, found.1, found.2, found.3, join_post-addr s.post _ _ ∙ found.4));
      behind = λ n p f some_byte at clear.
          (let bound = InBounds-get h.entries n a f.there f.valid in
            let own = InBounds-get h.entries i a t.there t.valid in
            behind_joined h e _ _ s.post p.addr a near.post_ok
              (join_pre-end h e s.pre a (omega (arith, own)) near.pre_ok)
              (nearest n p f (omega (arith, some_byte, at)) (omega (arith, bound, some_byte, at)))
              at clear);
    }

-- `_do_free` either finds no used entry at the address, fails and changes nothing, or gives up
-- one that stands there.
pub data FreeResult (h : Heap) (addr : ℕ) : Status → Heap → Type 0 where
  unknown :
      ((j : ℕ) (e : Entry)
        → get_elem? h.entries j ≡ some e
        → e.valid ≡ true
        → e.used ≡ true
        → e.addr ≢ addr)
      → FreeResult h addr failed h
  given_up :
      {k : Heap} (i : ℕ) (e : Entry)
      → Held h.entries i e
      → e.addr ≡ addr
      → Freed h e k
      → Merged h i e k
      → FreeResult h addr ok k

release-FreeResult :
    (h : Heap) (addr : ℕ) (s : Near) (o : Option (ℕ × Entry))
    → AllInBounds h.entries
    → NearOk addr h.entries s
    → EntOk addr h.entries o
    → (o ≡ none
        → (j : ℕ) (e : Entry) → get_elem? h.entries j ≡ some e
        → e.valid ≡ true
        → e.used ≡ true
        → e.addr ≢ addr)
    → (s.pre ≡ none
        → (j : ℕ) (p : Entry) → get_elem? h.entries j ≡ some p
        → p.valid ≡ true
        → p.used ≡ false
        → u32 (p.addr + p.size) ≢ addr)
    → Nearest h addr s.post
    → FreeResult h addr (release h s o).0 (release h s o).1
unfolding release
release-FreeResult h addr s none a near found absent first nearest = unknown (absent refl)
release-FreeResult h addr s (some (i, e)) a near found absent first nearest =
    given_up i e found.0 found.1
      (release-Freed h i e s a found.0 (subst (λ b. NearOk b h.entries s) (sym found.1) near))
      (release-Merged h i e s a found.0 (subst (λ b. NearOk b h.entries s) (sym found.1) near)
        (λ none_found j p g v u q. first none_found j p g v u (q ∙ found.1))
        (subst (λ b. Nearest h b s.post) (sym found.1) nearest))

pub do_free-FreeResult :
    (h : Heap) (addr : ℕ)
    → AllInBounds h.entries
    → FreeResult h addr (do_free h addr).0 (do_free h addr).1
unfolding do_free
do_free-FreeResult h addr a =
    let s = look_all addr 0 h.entries near_none in
    let near = found-NearOk addr h.entries in
    release-FreeResult h addr s s.ent a near near.ent_ok (found-ent_none addr h.entries)
      (found-pre_none addr h.entries)
      (λ j q f lt ne. look_all_takes addr 0 h.entries near_none j q f.there f.valid f.unused lt ne)
