-- ===== src/Alloc/Behind.antt =====
-- The walk of `_do_free`: the free entry behind the one that is given up.
use lboot.Base.{
  ℕ, zero, suc, ◌+◌, ◌≤◌, ◌<◌, ◌≡◌, ◌≢◌, ◌&&◌, ap, sym, ◌∙◌, subst, arith, List, [], ◌∷◌, true,
  false, not, Option, none, some, ltb, ◌==◌, get_elem?, if_split, u32,
}
use lboot.Alloc.Entries.{Entry}
use lboot.Alloc.Free.{Near, closer, look, look_all, is_none}

-- An entry that starts at the address or before it.
abbrev pub AtMost : Option (ℕ × Entry) → ℕ → Type 0
AtMost none b = ⊥
AtMost (some (j, p)) b = p.addr ≤ b

closer-AtMost :
    (o : Option (ℕ × Entry)) (e : Entry) (b : ℕ) → AtMost o b → closer o e ≡ true → e.addr ≤ b
unfolding closer
closer-AtMost none e b h q = absurd h
closer-AtMost (some (j, p)) e b h q = ground (arith, h, q)

closer-false : (o : Option (ℕ × Entry)) (e : Entry) → closer o e ≡ false → AtMost o e.addr
unfolding closer
closer-false none e q = cc
closer-false (some (j, p)) e q = ground (arith, q)

module _ (addr : ℕ) where
  -- Once such an entry is found, the walk has one that starts no later.
  look-AtMost :
      (i : ℕ) (e : Entry) (s : Near) (b : ℕ) → AtMost s.post b → AtMost (look addr i e s).post b
  unfolding look
  look-AtMost i e s b h =
      let Kept = λ (t : Near). AtMost t.post b in
      if_split Kept (not e.valid) (λ _. h)
        (λ _.
          if_split Kept e.used
            (λ _. if_split Kept (is_none s.ent && e.addr == addr) (λ _. h) (λ _. h))
            (λ _.
              if_split Kept (is_none s.pre && u32 (e.addr + e.size) == addr) (λ _. h)
                (λ _.
                  if_split Kept (ltb addr e.addr && closer s.post e)
                    (λ q. closer-AtMost s.post e b h (ground (arith, q))) (λ _. h))))

  look_takes :
      (i : ℕ) (e : Entry) (s : Near)
      → e.valid ≡ true
      → e.used ≡ false
      → addr < e.addr
      → u32 (e.addr + e.size) ≢ addr
      → AtMost (look addr i e s).post e.addr
  unfolding look
  look_takes i e s v u lt ne =
      let Taken = λ (t : Near). AtMost t.post e.addr in
      if_split Taken (not e.valid) (λ q. absurd (ground (arith, q, v)))
        (λ _.
          if_split Taken e.used (λ q. absurd (ground (arith, q, u)))
            (λ _.
              if_split Taken (is_none s.pre && u32 (e.addr + e.size) == addr)
                (λ q. absurd (ground (arith, q, ne)))
                (λ _.
                  if_split Taken (ltb addr e.addr && closer s.post e) (λ q. omega arith)
                    (λ q. closer-false s.post e (ground (arith, q, lt))))))

  look_all-AtMost :
      (i : ℕ) (es : List Entry) (s : Near) (b : ℕ)
      → AtMost s.post b
      → AtMost (look_all addr i es s).post b
  unfolding look_all
  look_all-AtMost i [] s b h = h
  look_all-AtMost i (e ∷ es) s b h =
      look_all-AtMost (i + 1) es (look addr i e s) b (look-AtMost i e s b h)

  -- The walk finds an entry behind the address that starts no later than any free one there.
  pub look_all_takes :
      (i : ℕ) (es : List Entry) (s : Near) (j : ℕ) (q : Entry)
      → get_elem? es j ≡ some q
      → q.valid ≡ true
      → q.used ≡ false
      → addr < q.addr
      → u32 (q.addr + q.size) ≢ addr
      → AtMost (look_all addr i es s).post q.addr
  unfolding look_all
  look_all_takes i [] s j q g v u lt ne = cc
  look_all_takes i (e ∷ es) s zero q g v u lt ne =
      let same : q ≡ e = ground arith in
      look_all-AtMost (i + 1) es (look addr i e s) q.addr (
        subst (λ d. AtMost (look addr i e s).post d.addr) (sym same)
          (look_takes i e s (ap (λ d. d.valid) (sym same) ∙ v) (ap (λ d. d.used) (sym same) ∙ u)
            (subst (λ d. addr < d.addr) same lt)
            (λ h. ne (ap (λ d. u32 (d.addr + d.size)) same ∙ h))))
  look_all_takes i (e ∷ es) s (suc j) q g v u lt ne =
      look_all_takes (i + 1) es (look addr i e s) j q g v u lt ne
