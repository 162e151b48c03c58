-- ===== src/Multiboot/Parse.antt =====
-- src/exec/multiboot.c: `multiboot2_parse`, over the requests of the kernel's header.
use lboot.Base.{
  ℕ, zero, suc, ◌+◌, ◌*◌, ◌/◌, List, [], ◌∷◌, ◌++◌, Bool, ◌&&◌, ◌||◌, not, ltb, ◌==◌, if◌then◌else◌,
  Option, some, none, drop, bit_and, u32, sub_u32, Outcome, returns, no_fuel, ◌>>=◌,
}
use lboot.Exec.Elf.{le16_at, le32_at}
use lboot.Multiboot.{
  MultibootHead, ConfigData, Bios, BootTag, cmdline_tag, bootloader_tag, mmap_tag, bootloader_name,
  poptag_modules, poptag_meminfo, mmap_loop, poptag_acpi, acpiold_at, acpinew_at, pad_to_8,
  boot_info,
}

-- What the machine offers to the parse, and the fuel for its memory map.
pub record BootMachine : Type 0 where
  pub config : ConfigData
  pub bios : Bios
  pub memory : ℕ → ℕ
  pub map_fuel : ℕ

-- The tags that a request is answered with; none is `goto mboot2_parse_error`.
unfoldable pub answer_request : BootMachine → ℕ → Outcome (Option (List BootTag))
answer_request m request =
    if request == 1
    then returns
        (some (elim m.config.kernel_cmdline [ none ↦ [] | some str ↦ cmdline_tag str ∷ [] ]))
    else if request == 2
    then returns (some (bootloader_tag bootloader_name ∷ []))
    else if request == 3
    then returns (some (poptag_modules m.config.modules))
    else if request == 4
    then returns (elim (poptag_meminfo m.bios) [ none ↦ none | some t ↦ some (t ∷ []) ])
    else if request == 6
    then (mmap_loop m.bios m.map_fuel 0 >>= λ es. returns (some (mmap_tag es ∷ [])))
    else if request == 14
    then returns (some (poptag_acpi acpiold_at m.memory))
    else if request == 15
    then returns (some (poptag_acpi acpinew_at m.memory))
    else returns none

-- The tags so far, with those of one more answer, and what follows if it is no error.
unfoldable pub with_answer :
    Option (List BootTag)
    → (List BootTag → Outcome (Option (List BootTag)))
    → Outcome (Option (List BootTag))
with_answer none next = returns none
with_answer (some ts) next = next ts

-- The loop over `reqs`, by the requests left.
unfoldable pub requests : BootMachine → ℕ → List ℕ → List BootTag → Outcome (Option (List BootTag))
requests m zero words done = returns (some done)
requests m (suc n) words done = answer_request m (le32_at words 0) >>= λ answer.
    with_answer answer (λ ts. requests m n (drop 4 words) (done ++ ts))

-- The switch on the type of a header tag, at the bytes of the tag.
unfoldable pub header_tag : BootMachine → List ℕ → List BootTag → Outcome (Option (List BootTag))
header_tag m htag done =
    if le16_at htag 0 == 1
    then requests m (sub_u32 (le32_at htag 4) 8 / 4) (drop 8 htag) done
    else if bit_and (le16_at htag 2) 1 == 0
    then returns none
    else returns (some done)

-- The loop over the header's tags, on fuel: the offset of `htag` from `head`, and the bytes there.
-- `head + head->header_length` is 16 bytes for each byte of the length.
unfoldable pub header_tags :
    BootMachine → ℕ → ℕ → ℕ → List ℕ → List BootTag → Outcome (Option (List BootTag))
header_tags m zero end off htag done = no_fuel
header_tags m (suc fuel) end off htag done =
    let size = le32_at htag 4 in
    let step = size + pad_to_8 size in
    let finished = not (ltb off end) || (le16_at htag 0 == 0) in
    let next =
      (header_tag m htag done >>= λ answer.
      with_answer answer (λ ts. header_tags m fuel end (off + step) (drop step htag) ts)) in
    if finished then returns (some done) else next

-- The tests on the header's fields; 0xE85250D6 is MULTIBOOT2_HEAD_MAGIC.
unfoldable pub head_ok : MultibootHead → Bool
head_ok head =
    (head.magic == 0xE85250D6)
    && (head.architecture == 0)
    && (u32 (head.magic + head.architecture + head.header_length + head.checksum) == 0)

-- The bytes of `mboot2`; none is NULL.
unfoldable pub multiboot2_parse : BootMachine → ℕ → MultibootHead → Outcome (Option (List ℕ))
multiboot2_parse m fuel head =
    if head_ok head
    then (header_tags m fuel (head.header_length * 16) 16 head.tags [] >>= λ answer.
        returns (elim answer [ none ↦ none | some ts ↦ some (boot_info ts) ]))
    else returns none
