-- ===== src/Alloc/Carve.antt =====
-- The end of `_find_free`: how the chosen entry is split.
use lboot.Base.{
  ℕ, ◌+◌, ◌-◌, ◌≤◌, ◌≡◌, refl, ap, ap₂, ◌∙◌, subst, arith, List, true, false, some, set, get_elem?,
  inl, inr, Bool-cases, Option-cases, returns, >>=-eq-returns, sub_u32, ◌==◌, u32,
}
use lboot.Alloc.Entries.{Entry, Heap, free_entry, used_entry, fill_slot, add_alloc}
use lboot.Alloc.Cover.{total, slot, OfValid, total-set, total-fill_slot}
use lboot.Alloc.Slots.{
  InBounds, AllInBounds, InBounds-get, AllInBounds-set, AllInBounds-fill_slot, get_elem?-fill_slot,
  slots-fill_slot,
}
use lboot.Alloc.Find.{Choice, carve_front, remaining, carve_rest, carve}

-- The choice names a free entry of the heap in which the request fits.
pub record Fits (es : List Entry) (c : Choice) (sz : ℕ) : Type 0 where
  pub there : get_elem? es c.index ≡ some c.entry
  pub valid : c.entry.valid ≡ true
  pub unused : c.entry.used ≡ false
  pub after : c.entry.addr ≤ c.start
  pub before : c.start + sz ≤ c.entry.addr + c.entry.size

-- What is left of the entry before and behind the request.
abbrev pub front : Choice → Entry
front c = free_entry c.entry.addr (c.start - c.entry.addr)

abbrev pub back : Choice → ℕ → Entry
back c sz = free_entry (c.start + sz) (c.entry.addr + c.entry.size - (c.start + sz))

abbrev pub OfBytes : (Entry → ℕ) → Type 0
OfBytes w = (e : Entry) → e.size ≡ 0 → w e ≡ 0

pub add_alloc-returns :
    (h : Heap) (al : Entry) {h' : Heap}
    → add_alloc h al ≡ returns h'
    → (es : List Entry) × (fill_slot h.entries al ≡ some es) × (h' ≡ record h { entries = es })
unfolding add_alloc
add_alloc-returns h al q = elim (Option-cases (fill_slot h.entries al)) [
  | inl n ↦ ground arith
  | inr (es, n) ↦ (es, n, ground arith)
]

-- What `_add_alloc` does to a heap.
pub record Added (h : Heap) (al : Entry) (h' : Heap) : Type 0 where
  pub sums : (w : Entry → ℕ) → OfValid w → total w h'.entries ≡ total w h.entries + w al
  pub bounds : AllInBounds h.entries → InBounds al → AllInBounds h'.entries
  pub keeps :
      (i : ℕ) (e : Entry)
      → get_elem? h.entries i ≡ some e
      → e.valid ≡ true
      → get_elem? h'.entries i ≡ some e
  pub slots : al.valid ≡ true → total slot h'.entries + 1 ≡ total slot h.entries
  pub chain : h'.blocks ≡ h.blocks

pub add_alloc-Added :
    (h : Heap) (al : Entry) {h' : Heap} → add_alloc h al ≡ returns h' → Added h al h'
add_alloc-Added h al q =
    let (es, f, e) = add_alloc-returns h al q in
    rw e (record {
      sums = λ w z. total-fill_slot w h.entries al z f;
      bounds = λ a b. AllInBounds-fill_slot h.entries al a b f;
      keeps = λ i e g v. get_elem?-fill_slot h.entries al i f g v;
      slots = λ v. slots-fill_slot h.entries al v f;
      chain = refl;
    })

pub record Carved (h : Heap) (c : Choice) (sz : ℕ) (h' : Heap) : Type 0 where
  pub sums :
      (w : Entry → ℕ)
      → OfValid w
      → OfBytes w
      → total w h'.entries + w c.entry
        ≡ total w h.entries + w (front c) + w (used_entry c.start sz) + w (back c sz)
  pub bounds : AllInBounds h'.entries
  pub chain : h'.blocks ≡ h.blocks
  pub slots : total slot h.entries ≤ total slot h'.entries + 2

-- The heap once the part before the request has been split off.
pub record Fronted (h : Heap) (c : Choice) (h' : Heap) : Type 0 where
  sums :
      (w : Entry → ℕ) → OfValid w → OfBytes w → total w h'.entries ≡ total w h.entries + w (front c)
  bounds : AllInBounds h'.entries
  pub there : get_elem? h'.entries c.index ≡ some c.entry
  chain : h'.blocks ≡ h.blocks
  pub slots : total slot h.entries ≤ total slot h'.entries + 1

module _ (h : Heap) (c : Choice) (sz : ℕ) (f : Fits h.entries c sz)
    (a : AllInBounds h.entries) where
  chosen-InBounds : InBounds c.entry
  chosen-InBounds = InBounds-get h.entries c.index a f.there

  no_front : c.entry.addr ≡ c.start → Fronted h c h
  no_front e = record {
    sums = λ w z y. ground (arith, y (front c));
    bounds = a;
    there = f.there;
    chain = refl;
    slots = omega arith;
  }

  front-sub_u32 : free_entry c.entry.addr (sub_u32 c.start c.entry.addr) ≡ front c
  front-sub_u32 = ap (free_entry c.entry.addr) (ground (arith, chosen-InBounds))

  new_front :
      {h' : Heap}
      → add_alloc h (free_entry c.entry.addr (sub_u32 c.start c.entry.addr)) ≡ returns h'
      → Fronted h c h'
  new_front q =
      let d = add_alloc-Added h (front c) (rw front-sub_u32 at q) in
      record {
        sums = λ w z y. d.sums w z;
        bounds = d.bounds a (λ _. ground (arith, chosen-InBounds));
        there = d.keeps c.index c.entry f.there f.valid;
        chain = d.chain;
        slots = omega (arith, d.slots refl);
      }

  module _ {h' : Heap} (g : Fronted h c h') where
    -- The rest of the entry is just what was asked for.
    whole :
        c.start + sz ≡ c.entry.addr + c.entry.size
        → Carved h c sz (record h' { entries = set h'.entries c.index (used_entry c.start sz) })
    whole e = record {
      sums = λ w z y. ground (
        arith,
        total-set w h'.entries c.index c.entry (used_entry c.start sz) g.there,
        g.sums w z y,
        y (back c sz),
      );
      bounds = AllInBounds-set h'.entries c.index _ g.bounds (λ _. ground (arith, chosen-InBounds));
      chain = g.chain;
      slots = ground (
        arith,
        f.valid,
        g.slots,
        total-set slot h'.entries c.index c.entry (used_entry c.start sz) g.there,
      );
    }

    -- The rest is larger.
    parted :
        {k : Heap}
        → add_alloc
            (record h' { entries = set h'.entries c.index (back c sz) })
            (used_entry c.start sz)
          ≡ returns k
        → Carved h c sz k
    parted q =
        let d =
          add_alloc-Added (record h' { entries = set h'.entries c.index (back c sz) })
            (used_entry c.start sz) q in
        record {
          sums = λ w z y. ground (
            arith,
            total-set w h'.entries c.index c.entry (back c sz) g.there,
            g.sums w z y,
            d.sums w z,
          );
          bounds =
              d.bounds
                (AllInBounds-set h'.entries c.index _ g.bounds
                  (λ _. ground (arith, chosen-InBounds)))
                (λ _. ground (arith, chosen-InBounds));
          chain = d.chain ∙ g.chain;
          slots = ground (
            arith,
            f.valid,
            g.slots,
            d.slots refl,
            total-set slot h'.entries c.index c.entry (back c sz) g.there,
          );
        }

  remaining_lem : c.start + remaining c ≡ c.entry.addr + c.entry.size
  unfolding remaining
  remaining_lem = ground (arith, chosen-InBounds)

  back-remaining : free_entry (u32 (c.start + sz)) (sub_u32 (remaining c) sz) ≡ back c sz
  back-remaining =
      ap₂ free_entry (ground (arith, chosen-InBounds, f.before))
        (ground (arith, chosen-InBounds, remaining_lem))

  pub carve_front-Fronted : {h' : Heap} → carve_front h c ≡ returns h' → Fronted h c h'
  unfolding carve_front
  carve_front-Fronted {h'} q = elim (Bool-cases (c.entry.addr == c.start)) [
    | inl e ↦
        let same : h ≡ h' = ground arith in
        subst (λ k. Fronted h c k) same (no_front (ground arith))
    | inr e ↦ new_front (rw e at q)
  ]

  carve_rest-Carved :
      {h' : Heap} {r : ℕ} {k : Heap}
      → Fronted h c h'
      → carve_rest h' c (remaining c) sz ≡ returns (r, k)
      → (r ≡ c.start) × Carved h c sz k
  unfolding carve_rest
  carve_rest-Carved {h'} {r} {k} g q = elim (Bool-cases (remaining c == sz)) [
    | inl e ↦
        let taken = record h' { entries = set h'.entries c.index (used_entry c.start sz) } in
        let same : taken ≡ k = ground arith in
        (ground arith, subst (λ m. Carved h c sz m) same (whole g (ground (arith, remaining_lem))))
    | inr e ↦
        let (k', first, second) =
          >>=-eq-returns
            (add_alloc
              (record h' {
                entries =
                    set h'.entries c.index
                      (free_entry (u32 (c.start + sz)) (sub_u32 (remaining c) sz));
              })
              (used_entry c.start sz))
            (λ m. returns (c.start, m)) (rw e at q) in
        let same : k' ≡ k = ground arith in
        (ground arith, subst (λ m. Carved h c sz m) same (parted g (rw back-remaining at first)))
  ]

  -- What `_find_free` does with its choice: the request starts where it was to start, and the
  -- entry's bytes are those of its three parts.
  pub carve-Carved :
      {r : ℕ} {k : Heap} → carve h c sz ≡ returns (r, k) → (r ≡ c.start) × Carved h c sz k
  unfolding carve
  carve-Carved {r} {k} q =
      let (h', first, second) =
        >>=-eq-returns (carve_front h c) (λ h'. carve_rest h' c (remaining c) sz) q in
      carve_rest-Carved (carve_front-Fronted first) second
