-- ===== src/Multiboot/Tests.antt =====
-- A kernel that asks for its command line, its modules and the memory, and headers that are refused.
use lboot.Base.{
  ℕ, ◌-◌, ◌^◌, ◌≡◌, refl, List, [], ◌∷◌, if◌then◌else◌, ◌==◌, some, none, returns, no_fuel,
}
use lboot.Multiboot.{
  MultibootHead, Bios, BootTag, cmdline_tag, module_tag, meminfo_tag, mmap_tag, le32_bytes,
  pad_to_8,
}
use lboot.Multiboot.Parse.{
  BootMachine, answer_request, with_answer, requests, header_tag, header_tags,
}
use lboot.Multiboot.Answers.{Answers, words_of, request_tags}

-- Two regions: one free, and one of a type that is not known.
abbrev pc : Bios
pc = record {
  memory_size = none;
  extended_size = some 64512;
  system_map = λ ebx.
      if ebx == 0
      then some (record { base_addr = 0; size = 0x9FC00; type = 1 }, 1)
      else some (record { base_addr = 0xF0000; size = 0x10000; type = 9 }, 0);
}

abbrev machine : BootMachine
machine = record {
  config = record {
    kernel_cmdline = some (107 ∷ []);
    modules = record { module_name = 109 ∷ []; module_addr = 0x200000; module_size = 64 } ∷ [];
  };
  bios = pc;
  memory = λ a. 0;
  map_fuel = 4;
}

abbrev asked : List ℕ
asked = 1 ∷ 3 ∷ 4 ∷ 6 ∷ []

abbrev answered : List BootTag
answered =
    cmdline_tag (107 ∷ [])
    ∷ module_tag 0x200000 0x200040 (109 ∷ [])
    ∷ meminfo_tag 640 64512
    ∷ mmap_tag (
        record { base_addr = 0; size = 0x9FC00; type = 1 }
        ∷ record { base_addr = 0xF0000; size = 0x10000; type = 0 }
        ∷ [])
    ∷ []

abbrev kernel : MultibootHead
kernel = record {
  magic = 0xE85250D6;
  architecture = 0;
  header_length = 48;
  checksum = 2 ^ 32 - 0xE85250D6 - 48;
  tags = request_tags asked;
}

-- A header tag of size 0 is its own successor: the loop over the tags does not end.
header_tag_stuck : header_tags machine 9 768 16 (5 ∷ 0 ∷ 1 ∷ 0 ∷ 0 ∷ 0 ∷ 0 ∷ 0 ∷ []) [] ≡ no_fuel
unfolding header_tags header_tag with_answer pad_to_8
header_tag_stuck = refl

-- A request that is not known ends the parse with nothing.
request_refused : requests machine 2 (words_of (1 ∷ 8 ∷ [])) [] ≡ returns none
unfolding requests answer_request with_answer words_of le32_bytes
request_refused = refl
