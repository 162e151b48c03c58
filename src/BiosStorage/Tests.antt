-- ===== src/BiosStorage/Tests.antt =====
-- A drive that fails every other call.
use lboot.Base.{ℕ, ◌+◌, ◌-◌, ◌*◌, ◌%◌, none, some, if◌then◌else◌, ◌==◌}
use lboot.Fat.Disk.{bytes_at}
use lboot.BiosStorage.{Bios}

abbrev counting : ℕ → ℕ
counting a = a % 256

abbrev flaky : Bios
flaky call drive track head sector =
    if call % 2 == 1
    then some (bytes_at counting (((track * 2 + head) * 18 + (sector - 1)) * 512) 512)
    else none
