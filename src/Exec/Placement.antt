-- ===== src/Exec/Placement.antt =====
-- Where `_exec_load_modules` puts the modules.
use lboot.Base.{
  ℕ, ◌+◌, ◌^◌, ◌≤◌, ◌<◌, ◌≡◌, ◌∙◌, ap, refl, List, [], ◌∷◌, map, Option, some, length, get_or, u32,
  arith, inl,
}
use lboot.Exec.Elf.{store}
use lboot.Exec.Segment.{store_in, store_out}
use lboot.Exec.Modules.{Module, align, keep, opened, load_modules}

abbrev pub Files : Type 0
Files = List ℕ → Option (List ℕ)

-- The files of the modules can be read; `room` is their sizes and eight bytes for each.
pub data Opens (files : Files) : List Module → ℕ → Type 0 where
  no_files : Opens files [] 0
  file :
      (m : Module) (ms : List Module) (bytes : List ℕ) (room : ℕ)
      → files m.path ≡ some bytes
      → Opens files ms room
      → Opens files (m ∷ ms) (8 + length bytes + room)

-- The modules lie in memory from `addr` on, one after the other, each with the bytes of its file.
pub data Placed (files : Files) (memory : ℕ → ℕ) : ℕ → List Module → Type 0 where
  none_left : (addr : ℕ) → Placed files memory addr []
  placed :
      (addr : ℕ) (m : Module) (ms : List Module) (bytes : List ℕ)
      → addr ≤ m.addr
      → files m.path ≡ some bytes
      → m.size ≡ length bytes
      → ((k : ℕ) → k < length bytes → memory (m.addr + k) ≡ get_or bytes k 0)
      → Placed files memory (m.addr + m.size) ms
      → Placed files memory addr (m ∷ ms)

pub record AllPlaced (files : Files) (addr : ℕ) (ms : List Module) (memory : ℕ → ℕ)
    (out : Option (List Module × (ℕ → ℕ))) : Type 0 where
  pub modules : List Module
  pub after : ℕ → ℕ
  pub run : out ≡ some (modules, after)
  pub in_order : Placed files after addr modules
  pub same_paths : map (λ m. m.path) modules ≡ map (λ m. m.path) ms
  pub below : (a : ℕ) → a < addr → after a ≡ memory a

align_bounds : (p : ℕ) → p + 8 < 2 ^ 32 → (p ≤ align p 8) × (align p 8 ≤ p + 8)
unfolding align
align_bounds p h = ground arith

-- If the files of all modules can be read, and with eight bytes for each module they fit below
-- 4 GiB from `addr` on, the modules are loaded from `addr` on, in the order of the configuration
-- and without overlap, each with its file's bytes in memory and its address and size recorded.
-- Memory below `addr` is as it was.
pub load_modules-AllPlaced :
    (files : Files) (addr : ℕ) (ms : List Module) (memory : ℕ → ℕ) (room : ℕ)
    → Opens files ms room
    → addr + room < 2 ^ 32
    → AllPlaced files addr ms memory (load_modules files addr ms memory)
unfolding load_modules keep
load_modules-AllPlaced files addr _ memory _ no_files fits = record {
  modules = [];
  after = memory;
  run = refl;
  in_order = none_left addr;
  same_paths = refl;
  below = λ a h. refl;
}
load_modules-AllPlaced files addr _ memory _ (file m ms bytes room reads rest) fits =
    let bounds = align_bounds addr (omega (arith, fits)) in
    let start = align addr 8 in
    let next : u32 (start + length bytes) ≡ start + length bytes = omega (arith, bounds.1, fits) in
    let memory' = store memory start bytes in
    let r =
      load_modules-AllPlaced files (start + length bytes) ms memory' room rest
        (omega (arith, bounds.1, fits)) in
    record {
      modules = record m { addr = start; size = length bytes } ∷ r.modules;
      after = r.after;
      run =
          ap
            (λ o. opened o (λ b.
              keep m start (length b)
                (load_modules files (u32 (start + length b)) ms (store memory start b))))
            reads
          ∙ ap (λ a. keep m start (length bytes) (load_modules files a ms memory')) next
          ∙ ap (keep m start (length bytes)) r.run;
      in_order =
          placed addr (record m { addr = start; size = length bytes }) r.modules bytes bounds.0
            reads refl
            (λ k lt.
              r.below (start + k) (omega (arith, lt))
              ∙ store_in memory start bytes (start + k) k refl lt)
            r.in_order;
      same_paths = ap (λ t. m.path ∷ t) r.same_paths;
      below = λ a h.
          r.below a (omega (arith, h, bounds.0))
          ∙ store_out memory start bytes a (inl (omega (arith, h, bounds.0)));
    }
