-- ===== src/Alloc/Release.antt =====
-- The end of `_do_free`: how a freed entry is joined with its free neighbours.
use lboot.Base.{
  ℕ, ◌+◌, ◌≤◌, ◌<◌, ◌^◌, ◌≡◌, ◌≢◌, refl, sym, ap, ◌∙◌, arith, List, true, false, some, ◌==◌,
  get_elem?, set, inl, inr, Bool-cases, u32, get_elem?-set_ne,
}
use lboot.Alloc.Entries.{Entry}
use lboot.Alloc.Cover.{total, slot, cover, use_cover, bytes, total-set}
use lboot.Alloc.Slots.{AllInBounds, InBounds-get, AllInBounds-set}
use lboot.Alloc.Free.{cleared, join_pre, join_post}

-- A neighbour: a free entry of the table that ends where `e` starts, or starts where it ends.
pub record Free (es : List Entry) (j : ℕ) (p : Entry) : Type 0 where
  pub there : get_elem? es j ≡ some p
  pub valid : p.valid ≡ true
  pub unused : p.used ≡ false

pub record Held (es : List Entry) (i : ℕ) (e : Entry) : Type 0 where
  pub there : get_elem? es i ≡ some e
  pub valid : e.valid ≡ true
  pub used : e.used ≡ true

pub index-ne : (es : List Entry) (i j : ℕ) {e p : Entry} → Held es i e → Free es j p → j ≢ i
index-ne es i j {e} {p} a b q =
    let same : some p ≡ some e = sym b.there ∙ ap (get_elem? es) q ∙ a.there in
    ground (arith, a.used, b.unused)

-- The freed entry at index `i` stands for `e'` in place of `e`, with its neighbours taken out of
-- the table: what is covered and how many bytes there are stay, and no used entry changes.
pub record Joined (i : ℕ) (es : List Entry) (e : Entry) (es' : List Entry) (e' : Entry)
    : Type 0 where
  pub covers : (x : ℕ) → total (cover x) es' + cover x e' ≡ total (cover x) es + cover x e
  pub uses : (x : ℕ) → total (use_cover x) es' ≡ total (use_cover x) es
  pub same_bytes : total bytes es' + bytes e' ≡ total bytes es + bytes e
  pub slots : total slot es ≤ total slot es'
  pub bounds : AllInBounds es'
  pub in_bounds : e'.addr + e'.size + 2 ^ 15 < 2 ^ 32
  pub there : get_elem? es' i ≡ get_elem? es i
  pub kept : (e'.valid ≡ e.valid) × (e'.used ≡ e.used)
  pub holds : (e'.addr ≤ e.addr) × (e.addr + e.size ≤ e'.addr + e'.size)

module _ (i j : ℕ) (es : List Entry) (e p : Entry) (a : AllInBounds es) (v : e.valid ≡ true)
    (b : e.addr + e.size + 2 ^ 15 < 2 ^ 32) (f : Free es j p) (ne : j ≢ i) where
  p_bounds : p.addr + p.size + 2 ^ 15 < 2 ^ 32
  p_bounds = InBounds-get es j a f.there f.valid

  clear : (w : Entry → ℕ) → total w (set es j (cleared p)) + w p ≡ total w es + w (cleared p)
  clear w = total-set w es j p (cleared p) f.there

  pub join_pre-Joined :
      p.addr + p.size ≡ e.addr
      → Joined i es e (join_pre (some (j, p)) es e).0 (join_pre (some (j, p)) es e).1
  unfolding join_pre
  join_pre-Joined q = record {
    covers = λ x. ground (arith, clear (cover x), p_bounds, f.valid);
    uses = λ x. ground (arith, clear (use_cover x), f.unused);
    same_bytes = ground (arith, clear bytes, p_bounds, f.valid);
    slots = ground (arith, clear slot, f.valid);
    bounds = AllInBounds-set es j (cleared p) a (λ h. cc);
    in_bounds = ground (arith, p_bounds);
    there = get_elem?-set_ne es (cleared p) ne;
    kept = (refl, refl);
    holds = (ground (arith, p_bounds), ground (arith, p_bounds));
  }

  pub join_post-Joined :
      Joined i es e (join_post (some (j, p)) es e).0 (join_post (some (j, p)) es e).1
  unfolding join_post
  join_post-Joined = elim (Bool-cases (u32 (e.addr + e.size) == p.addr)) [
    | inl q ↦ rw q (record {
      covers = λ x. ground (arith, clear (cover x), p_bounds, f.valid);
      uses = λ x. ground (arith, clear (use_cover x), f.unused);
      same_bytes = ground (arith, clear bytes, p_bounds, f.valid);
      slots = ground (arith, clear slot, f.valid);
      bounds = AllInBounds-set es j (cleared p) a (λ h. cc);
      in_bounds = ground (arith, p_bounds);
      there = get_elem?-set_ne es (cleared p) ne;
      kept = (refl, refl);
      holds = (ground arith, ground (arith, p_bounds));
    })
    | inr q ↦ rw q (stay a b)
  ]
    where
      stay : AllInBounds es → e.addr + e.size + 2 ^ 15 < 2 ^ 32 → Joined i es e es e
      stay a b = record {
        covers = λ x. refl;
        uses = λ x. refl;
        same_bytes = refl;
        slots = omega arith;
        bounds = a;
        in_bounds = b;
        there = refl;
        kept = (refl, refl);
        holds = (omega arith, omega arith);
      }
