-- ===== src/Path/Components.antt =====
-- A path is looked up component by component.
use lboot.Base.{
  ℕ, zero, suc, ◌<◌, ◌≡◌, ◌≢◌, ap, fun_ext, refl, List, [], ◌∷◌, ◌++◌, Bool, true, false, Option,
  none, some, ◌==◌, length, length-append, arith, Outcome, returns,
}
use lboot.Path.{Lookup, split, last_step, enter, walk_path, from_start, after_split, findfile}

-- The characters of a component: no separator.
pub data Name : List ℕ → Type 0 where
  name_end : Name []
  name_char : (c : ℕ) (cs : List ℕ) → c ≢ 47 → Name cs → Name (c ∷ cs)

-- A component has at least one character.
pub record Component : Type 0 where
  pub first : ℕ
  pub others : List ℕ
  pub plain : Name (first ∷ others)

abbrev pub text : Component → List ℕ
text n = n.first ∷ n.others

-- The components with separators between them: `n` and then `ns`.
unfoldable pub join : Component → List Component → List ℕ
join n [] = text n
join n (m ∷ ns) = text n ++ (47 ∷ join m ns)

split-Name : (cs : List ℕ) → Name cs → split cs ≡ (cs, none)
unfolding split
split-Name [] p = refl
split-Name (c ∷ cs) (name_char _ _ other p) =
    let no : (c == 47) ≡ false = ground (arith, other) in rw (no, split-Name cs p) refl

split-append : (cs rest : List ℕ) → Name cs → split (cs ++ (47 ∷ rest)) ≡ (cs, some rest)
unfolding split
split-append [] rest p = refl
split-append (c ∷ cs) rest (name_char _ _ other p) =
    let no : (c == 47) ≡ false = ground (arith, other) in rw (no, split-append cs rest p) refl

module _ {S H : Type 0} (find : S → Option H → List ℕ → Option H × S) (close : S → H → S)
    (is_directory : H → Bool) where
  -- The lookup of the components `n` and then `ns` from a directory: each component but the last
  -- must be a directory, which is closed when the next one is found; `own` says whether the
  -- directory it starts from is to be closed as well.
  unfoldable pub resolve : S → Option H → Bool → Component → List Component → Outcome (Lookup H × S)
  unfolding last_step enter
  resolve s dir own n [] = returns (last_step find close is_directory dir own (find s dir (text n)))
  resolve s dir own n (m ∷ ns) =
      enter find close is_directory dir own (find s dir (text n))
        (λ s' sub. resolve s' sub true m ns)

  walk_path-join :
      (fuel : ℕ) (s : S) (dir : Option H) (own : Bool) (n : Component) (ns : List Component)
      → length (join n ns) < fuel
      → walk_path find close is_directory fuel s dir own (join n ns) ≡ resolve s dir own n ns
  unfolding walk_path join resolve after_split
  walk_path-join zero s dir own n ns enough = absurd (omega arith)
  walk_path-join (suc fuel) s dir own n [] enough = rw (split-Name (text n) n.plain) refl
  walk_path-join (suc fuel) s dir own n (m ∷ ns) enough =
      let size = length-append (text n) (47 ∷ join m ns) in
      rw (split-append (text n) (join m ns) n.plain) (
        ap (enter find close is_directory dir own (find s dir (text n))) (
          fun_ext (λ s'.
            fun_ext (λ sub. walk_path-join fuel s' sub true m ns (omega (arith, size, enough))))))

  from_start-join :
      (s : S) (dir : Option H) (n : Component) (ns : List Component)
      → from_start find close is_directory s dir (join n ns) ≡ resolve s dir false n ns
  unfolding from_start join
  from_start-join s dir n [] =
      walk_path-join (suc (length (join n []))) s dir false n [] (omega arith)
  from_start-join s dir n (m ∷ ns) =
      walk_path-join (suc (length (join n (m ∷ ns)))) s dir false n (m ∷ ns) (omega arith)

  -- A path of components is looked up component by component, from the root if it starts with a
  -- separator and from the directory given if it does not, and the search ends.
  pub findfile-join :
      (s : S) (dir : Option H) (n : Component) (ns : List Component)
      → (findfile find close is_directory s dir (join n ns) ≡ resolve s dir false n ns)
        × (findfile find close is_directory s dir (47 ∷ join n ns) ≡ resolve s none false n ns)
  unfolding findfile join resolve
  findfile-join s dir n ns = (relative ns, from_start-join s none n ns)
    where
      plain_first : (c : ℕ) (cs : List ℕ) → Name (c ∷ cs) → (c == 47) ≡ false
      plain_first c cs (name_char _ _ other p) = ground (arith, other)

      not_root : (n.first == 47) ≡ false
      not_root = plain_first n.first n.others n.plain

      relative :
          (ns : List Component)
          → findfile find close is_directory s dir (join n ns) ≡ resolve s dir false n ns
      relative [] = rw not_root (from_start-join s dir n [])
      relative (m ∷ ns) = rw not_root (from_start-join s dir n (m ∷ ns))
