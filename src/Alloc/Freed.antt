-- ===== src/Alloc/Freed.antt =====
-- What `_do_free` does to the heap.
use lboot.Base.{
  ℕ, ◌+◌, ◌≤◌, ◌<◌, ◌^◌, ◌≡◌, ◌≢◌, refl, sym, ap, ◌∙◌, arith, List, true, false, Option, none, some,
  get_elem?, set, get_elem?-set_ne,
}
use lboot.Alloc.Entries.{Entry, Heap}
use lboot.Alloc.Cover.{total, slot, cover, use_cover, bytes, total-set}
use lboot.Alloc.Slots.{AllInBounds, InBounds-get, AllInBounds-set}
use lboot.Alloc.Free.{Near, cleared, join_pre, join_post, release}
use lboot.Alloc.Request.{inside}
use lboot.Alloc.Release.{Held, Joined, index-ne, join_pre-Joined, join_post-Joined}
use lboot.Alloc.Near.{PreOk, PostOk, NearOk}

-- A used entry is given up: every address is covered as before, and just those of the entry have
-- one used entry less.
pub record Freed (h : Heap) (e : Entry) (k : Heap) : Type 0 where
  pub bounds : AllInBounds k.entries
  pub covers : (x : ℕ) → total (cover x) k.entries ≡ total (cover x) h.entries
  pub uses :
      (x : ℕ)
      → total (use_cover x) k.entries + inside e.addr e.size x ≡ total (use_cover x) h.entries
  pub same_bytes : total bytes k.entries ≡ total bytes h.entries
  pub slots : total slot h.entries ≤ total slot k.entries
  pub chain : k.blocks ≡ h.blocks

module _ (i : ℕ) where
  Joined-refl :
      (es : List Entry) (e : Entry)
      → AllInBounds es
      → e.addr + e.size + 2 ^ 15 < 2 ^ 32
      → Joined i es e es e
  Joined-refl es e a b = record {
    covers = λ x. refl;
    uses = λ x. refl;
    same_bytes = refl;
    slots = omega arith;
    bounds = a;
    in_bounds = b;
    there = refl;
    kept = (refl, refl);
    holds = (omega arith, omega arith);
  }

  module _ (es : List Entry) (e : Entry) (a : AllInBounds es) (t : Held es i e) where
    e_bounds : e.addr + e.size + 2 ^ 15 < 2 ^ 32
    e_bounds = InBounds-get es i a t.there t.valid

    pub with_pre :
        (o : Option (ℕ × Entry))
        → PreOk e.addr es o
        → Joined i es e (join_pre o es e).0 (join_pre o es e).1
    with_pre none good = unfold join_pre in Joined-refl es e a e_bounds
    with_pre (some (j, p)) good =
        let p_bounds = InBounds-get es j a good.0.there good.0.valid in
        join_pre-Joined i j es e p a t.valid e_bounds good.0 (index-ne es i j t good.0)
          (ground (arith, p_bounds, good.1))

  pub with_post :
      (es : List Entry) (e e0 : Entry)
      → AllInBounds es
      → e.valid ≡ true
      → e.addr + e.size + 2 ^ 15 < 2 ^ 32
      → Held es i e0
      → (o : Option (ℕ × Entry)) (b : ℕ) → PostOk b es o
      → Joined i es e (join_post o es e).0 (join_post o es e).1
  with_post es e e0 a v b t none n good = unfold join_post in Joined-refl es e a b
  with_post es e e0 a v b t (some (j, p)) n good =
      join_post-Joined i j es e p a v b good.0 (index-ne es i j t good.0)

-- The entry behind is still there when the one before has been cleared.
pub post_kept :
    (es : List Entry) (e : Entry) (pre post : Option (ℕ × Entry))
    → AllInBounds es
    → PreOk e.addr es pre
    → PostOk e.addr es post
    → PostOk e.addr (join_pre pre es e).0 post
unfolding join_pre
post_kept es e none post a x y = y
post_kept es e (some (i, p)) none a x y = tt
post_kept es e (some (i, p)) (some (j, q)) a x y = (
  record {
    there = get_elem?-set_ne es (cleared p) apart ∙ y.0.there;
    valid = y.0.valid;
    unused = y.0.unused;
  },
  y.1,
)
  where
    apart : i ≢ j
    apart n =
        let same : some p ≡ some q = sym x.0.there ∙ ap (get_elem? es) n ∙ y.0.there in
        let b = InBounds-get es i a x.0.there x.0.valid in ground (arith, b, x.1, y.1)

settle :
    (h : Heap) (i : ℕ) (e e₁ e₂ : Entry) (es₁ es₂ : List Entry)
    → Held h.entries i e
    → Joined i h.entries e es₁ e₁
    → Joined i es₁ e₁ es₂ e₂
    → Freed h e (record h { entries = set es₂ i (record e₂ { used = false }) })
settle h i e e₁ e₂ es₁ es₂ t a b =
    let put = λ (w : Entry → ℕ).
      total-set w es₂ i e (record e₂ { used = false }) (b.there ∙ a.there ∙ t.there) in
    record {
      bounds = AllInBounds-set es₂ i _ b.bounds (λ _. b.in_bounds);
      covers = λ x. omega (arith, put (cover x), a.covers x, b.covers x);
      uses = λ x. ground (arith, put (use_cover x), a.uses x, b.uses x, t.valid, t.used);
      same_bytes = omega (arith, put bytes, a.same_bytes, b.same_bytes);
      slots = ground (arith, put slot, a.slots, b.slots, a.kept, b.kept, t.valid);
      chain = refl;
    }

pub release-Freed :
    (h : Heap) (i : ℕ) (e : Entry) (s : Near)
    → AllInBounds h.entries
    → Held h.entries i e
    → NearOk e.addr h.entries s
    → Freed h e (release h s (some (i, e))).1
unfolding release
release-Freed h i e s a t near =
    let j = with_pre i h.entries e a t s.pre near.pre_ok in
    let held : Held (join_pre s.pre h.entries e).0 i e = record {
      there = j.there ∙ t.there;
      valid = t.valid;
      used = t.used;
    } in
    settle h i e _ _ _ _ t j (
      with_post i _ _ e j.bounds (j.kept.0 ∙ t.valid) j.in_bounds held s.post e.addr
        (post_kept h.entries e s.pre s.post a near.pre_ok near.post_ok))
