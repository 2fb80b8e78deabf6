-- ===== src/Ota/Loop.antt =====
-- src/ota.cpp, `otaLoopTask`: what the main loop makes of a pending commit or abort. The reset ends
-- the program; the model says that it is reached, and what the session and the flash are then.
pub mod Update
use teg.Prelude.{Bool, true, false, some, if◌then◌else◌}
use teg.Ota.Flash.{Memory}
use teg.Ota.Upload.{Ota, commit_failed}
use teg.Ota.Commit.{Device, ota_flash_commit}

-- Whether the board resets, the session, and the flash.
abbrev pub Task : Type 0
Task = Bool × Ota × Memory

unfoldable pub reboot_task : Ota → Memory → Task
reboot_task o m =
    if o.reboot_pending then (true, record o { reboot_pending = false }, m) else (false, o, m)

unfoldable pub ota_loop_task : Device → Ota → Memory → Task
ota_loop_task device o m =
    let (resets, flash) = ota_flash_commit device o.verified_size o.verified_crc m in
    let taken = record o { commit_pending = false } in
    if o.commit_pending
    then (if resets
        then (true, taken, flash)
        else reboot_task (record taken { last_error = some commit_failed }) flash)
    else reboot_task o m
