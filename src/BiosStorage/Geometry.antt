-- ===== src/BiosStorage/Geometry.antt =====
-- The sectors that the driver asks the BIOS for are those of the bytes asked of the driver.
use lboot.Base.{ℕ, suc, ◌+◌, ◌-◌, ◌*◌, ◌≡◌, ◌≢◌, List, none, some, Option, Outcome, returns}
use lboot.Fat.Disk.{bytes_at}
use lboot.BiosStorage.{Bios, BiosData}

abbrev pub floppy : BiosData
floppy = record { bios_id = 0; sectors_per_track = 18; n_heads = 2 }

-- Drive 0 with a disk in it: of three reads of a sector in a row one succeeds, and then it gives
-- the bytes of that sector, counted from 1 on each of the two sides of a track.
pub record Drive (disk : ℕ → ℕ) (bios : Bios) : Type 0 where
  pub right :
      (call track head sector : ℕ) (bytes : List ℕ)
      → bios call 0 track head sector ≡ some bytes
      → bytes ≡ bytes_at disk (((track * 2 + head) * 18 + (sector - 1)) * 512) 512
  pub responds :
      (call track head sector : ℕ)
      → bios call 0 track head sector ≡ none
      → bios (suc call) 0 track head sector ≡ none
      → bios (suc (suc call)) 0 track head sector ≢ none

pub record Got (bytes : List ℕ) (out : Outcome (Option (List ℕ) × ℕ)) : Type 0 where
  pub call : ℕ
  pub run : out ≡ returns (some bytes, call)
