-- ===== src/BiosStorage.antt =====
-- src/storage/bios.c: reads of a floppy disk through the BIOS.
-- INT 0x13 is a parameter: from the number of the call, the drive, the track, the head and the sector
-- to the bytes read, or `none` where the BIOS sets the carry flag. Its reset call has no result.
use lboot.Base.{
  ℕ, zero, suc, ◌+◌, ◌-◌, ◌*◌, ◌/◌, ◌%◌, ◌^◌, List, [], ◌++◌, ◌||◌, not, Option, none, some, ◌==◌,
  ltb, if◌then◌else◌, u8, u16, Outcome, returns, panics, no_fuel, ◌>>=◌,
}
pub mod Geometry
mod Tests

abbrev pub Bios : Type 0
Bios = ℕ → ℕ → ℕ → ℕ → ℕ → Option (List ℕ)

pub record BiosData : Type 0 where
  pub bios_id : ℕ
  pub sectors_per_track : ℕ
  pub n_heads : ℕ

-- Only floppy disks, of 1.44 MB, are supported. The number of the drive stays the 0 that `_bios_data`
-- starts with.
unfoldable pub storage_bios_init : ℕ → Option BiosData
storage_bios_init bios_dev =
    if ltb bios_dev 0x80
    then some (record { bios_id = 0; sectors_per_track = 18; n_heads = 2 })
    else none

-- What a call of the BIOS gives, or the outcome of the attempts after it.
unfoldable pub retry : Option (List ℕ) → ℕ → Option (List ℕ) × ℕ → Option (List ℕ) × ℕ
retry (some bytes) call rest = (some bytes, call)
retry none call rest = rest

-- The `while(--attempts)` loop: the sector, and the number of the next call.
unfoldable pub try_read : Bios → ℕ → ℕ → ℕ → ℕ → ℕ → ℕ → Option (List ℕ) × ℕ
try_read bios zero drive call track head sector = (none, call)
try_read bios (suc attempts) drive call track head sector =
    retry (bios call drive track head sector) (suc call)
      (try_read bios attempts drive (suc call) track head sector)

-- The loop counts down from 4 before its test, so it makes three attempts.
unfoldable pub floppy_read_sector : Bios → BiosData → ℕ → ℕ → ℕ → Outcome (Option (List ℕ) × ℕ)
floppy_read_sector bios bdata call buff offset =
    let lba = offset / 512 in
    let track = u16 (lba / bdata.sectors_per_track) in
    let sector = u8 (lba % bdata.sectors_per_track + 1) in
    let head = u8 (track % bdata.n_heads) in
    if ltb 0xffff buff
    then panics
    else returns (try_read bios 3 bdata.bios_id call (u8 (track / bdata.n_heads)) head sector)

-- The loop over the sectors from `pos` on: what they hold, or `none` at a sector that fails.
unfoldable pub read_sectors :
    Bios → BiosData → ℕ → ℕ → ℕ → ℕ → ℕ → ℕ → Outcome (Option (List ℕ) × ℕ)
read_sectors bios bdata zero call buff offset pos size = no_fuel
read_sectors bios bdata (suc fuel) call buff offset pos size =
    if ltb pos size
    then (floppy_read_sector bios bdata call (buff + pos) (offset + pos) >>= λ r.
        let rest = read_sectors bios bdata fuel r.1 buff offset (pos + 512) size in
        elim r.0 [
          | none ↦ returns (none, r.1)
          | some sector ↦ rest >>= λ t. elim t.0 [
            | none ↦ returns (none, t.1)
            | some sectors ↦ returns (some (sector ++ sectors), t.1)
          ]
        ])
    else returns (some [], call)

-- `_read`, for an offset that is not negative.
unfoldable pub read : Bios → BiosData → ℕ → ℕ → ℕ → ℕ → Outcome (Option (List ℕ) × ℕ)
read bios bdata call buff offset size =
    if not (offset % 512 == 0) || not (size % 512 == 0)
    then panics
    else if ltb bdata.bios_id 0x80
    then read_sectors bios bdata (suc size) call buff offset 0 size
    else returns (none, call)
