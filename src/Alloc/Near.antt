-- ===== src/Alloc/Near.antt =====
-- The walk of `_do_free`: what it finds.
use lboot.Base.{
  ℕ, zero, suc, ◌+◌, ◌<◌, ◌≡◌, ◌≢◌, ◌&&◌, ap, ◌∙◌, subst, arith, List, [], ◌∷◌, true, false, Option,
  none, some, ltb, ◌==◌, get_elem?, inl, inr, Bool-cases, u32,
}
use lboot.Alloc.Entries.{Entry}
use lboot.Alloc.Free.{Near, closer, look, look_all, near_none, is_none}
use lboot.Alloc.Release.{Free, Held}

module _ (addr : ℕ) where
  abbrev pub PreOk : List Entry → Option (ℕ × Entry) → Type 0
  PreOk es none = Unit {0}
  PreOk es (some (j, p)) = Free es j p × (u32 (p.addr + p.size) ≡ addr)

  abbrev pub EntOk : List Entry → Option (ℕ × Entry) → Type 0
  EntOk es none = Unit {0}
  EntOk es (some (i, e)) = Held es i e × (e.addr ≡ addr)

  abbrev pub PostOk : List Entry → Option (ℕ × Entry) → Type 0
  PostOk es none = Unit {0}
  PostOk es (some (j, p)) = Free es j p × (addr < p.addr)

  pub record NearOk (es : List Entry) (s : Near) : Type 0 where
    pub pre_ok : PreOk es s.pre
    pub ent_ok : EntOk es s.ent
    pub post_ok : PostOk es s.post

  look-NearOk :
      (es : List Entry) (i : ℕ) (e : Entry) (s : Near)
      → get_elem? es i ≡ some e
      → NearOk es s
      → NearOk es (look addr i e s)
  unfolding look
  look-NearOk es i e s g o = elim (Bool-cases e.valid) [
    | inr v ↦ same s (ground arith) o
    | inl v ↦ elim (Bool-cases e.used) [
      | inl u ↦ elim (Bool-cases (is_none s.ent && e.addr == addr)) [
        | inl q ↦
            same (record s { ent = some (i, e) }) (ground arith)
              (record {
                pre_ok = o.pre_ok;
                ent_ok = (record { there = g; valid = v; used = u }, ground arith);
                post_ok = o.post_ok;
              })
        | inr q ↦ same s (ground arith) o
      ]
      | inr u ↦ elim (Bool-cases (is_none s.pre && u32 (e.addr + e.size) == addr)) [
        | inl q ↦
            same (record s { pre = some (i, e) }) (ground arith)
              (record {
                pre_ok = (record { there = g; valid = v; unused = u }, ground arith);
                ent_ok = o.ent_ok;
                post_ok = o.post_ok;
              })
        | inr q ↦ elim (Bool-cases (ltb addr e.addr && closer s.post e)) [
          | inl r ↦
              same (record s { post = some (i, e) }) (ground arith)
                (record {
                  pre_ok = o.pre_ok;
                  ent_ok = o.ent_ok;
                  post_ok = (record { there = g; valid = v; unused = u }, ground arith);
                })
          | inr r ↦ same s (ground arith) o
        ]
      ]
    ]
  ]
    where
      same : (t : Near) → look addr i e s ≡ t → NearOk es t → NearOk es (look addr i e s)
      same t q k = rw q k

  abbrev Suffix : List Entry → ℕ → List Entry → Type 0
  Suffix all i es = (j : ℕ) → get_elem? all (i + j) ≡ get_elem? es j

  look_all-NearOk :
      (all : List Entry) (i : ℕ) (es : List Entry) (s : Near)
      → Suffix all i es
      → NearOk all s
      → NearOk all (look_all addr i es s)
  unfolding look_all
  look_all-NearOk all i [] s h o = o
  look_all-NearOk all i (e ∷ es) s h o =
      look_all-NearOk all (i + 1) es (look addr i e s)
        (λ j. ap (get_elem? all) {x = i + 1 + j} {y = i + suc j} (omega arith) ∙ h (suc j))
        (look-NearOk all i e s (ap (get_elem? all) {x = i} {y = i + 0} (omega arith) ∙ h 0) o)

  -- All that the walk finds is as the code takes it to be.
  pub found-NearOk : (es : List Entry) → NearOk es (look_all addr 0 es near_none)
  found-NearOk es =
      look_all-NearOk es 0 es near_none (λ j. ap (get_elem? es) (omega arith))
        (record { pre_ok = tt; ent_ok = tt; post_ok = tt })

  -- Where the walk has set no such field in the end, no entry was one to set it.
  look_all-unset :
      (field : Near → Option (ℕ × Entry)) (P : Entry → Type 0)
      → ((i : ℕ) (e : Entry) (s : Near) → field (look addr i e s) ≡ none → (field s ≡ none) × P e)
      → (i : ℕ) (es : List Entry) (s : Near) → field (look_all addr i es s) ≡ none
      → (field s ≡ none) × ((j : ℕ) (e : Entry) → get_elem? es j ≡ some e → P e)
  unfolding look_all
  look_all-unset field P step i [] s q = (q, λ j e g. cc)
  look_all-unset field P step i (e ∷ es) s q =
      let (later, rest) = look_all-unset field P step (i + 1) es (look addr i e s) q in
      let (before, here) = step i e s later in (before, λ j d g. unset j d g here rest)
    where
      unset :
          (j : ℕ) (d : Entry)
          → get_elem? (e ∷ es) j ≡ some d
          → P e
          → ((j : ℕ) (d : Entry) → get_elem? es j ≡ some d → P d)
          → P d
      unset zero d g here rest = let same : e ≡ d = ground arith in subst P same here
      unset (suc j) d g here rest = rest j d g

  look-ent_none :
      (i : ℕ) (e : Entry) (s : Near)
      → (look addr i e s).ent ≡ none
      → (s.ent ≡ none) × (e.valid ≡ true → e.used ≡ true → e.addr ≢ addr)
  unfolding look
  look-ent_none i e s q = (ground arith, ground arith)

  look-pre_none :
      (i : ℕ) (e : Entry) (s : Near)
      → (look addr i e s).pre ≡ none
      → (s.pre ≡ none) × (e.valid ≡ true → e.used ≡ false → u32 (e.addr + e.size) ≢ addr)
  unfolding look
  look-pre_none i e s q = (ground arith, ground arith)

  -- If it finds no entry, no used entry stands at the address.
  pub found-ent_none :
      (es : List Entry)
      → (look_all addr 0 es near_none).ent ≡ none
      → (j : ℕ) (e : Entry) → get_elem? es j ≡ some e
      → e.valid ≡ true
      → e.used ≡ true
      → e.addr ≢ addr
  found-ent_none es q =
      (look_all-unset (λ s. s.ent) (λ e. e.valid ≡ true → e.used ≡ true → e.addr ≢ addr)
        look-ent_none 0 es near_none q).1

  -- If it finds no entry before it, no free entry ends at the address.
  pub found-pre_none :
      (es : List Entry)
      → (look_all addr 0 es near_none).pre ≡ none
      → (j : ℕ) (e : Entry) → get_elem? es j ≡ some e
      → e.valid ≡ true
      → e.used ≡ false
      → u32 (e.addr + e.size) ≢ addr
  found-pre_none es q =
      (look_all-unset (λ s. s.pre)
        (λ e. e.valid ≡ true → e.used ≡ false → u32 (e.addr + e.size) ≢ addr) look-pre_none 0 es
        near_none q).1
