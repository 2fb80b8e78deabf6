-- ===== src/Ota/Upload.antt =====
-- src/ota.cpp: the upload session. Its static variables are the fields of `Ota`; the stream is the
-- list of bytes that arrive before it stalls; the staging flash is a memory that `Flash.replay`
-- changes. The watchdog, the log and the safe-state hook have no model, but for `active`.
pub mod Flash
pub mod Accept
use teg.Prelude.{
  ℕ, ◌+◌, Bool, true, false, not, ◌&&◌, ◌||◌, Option, none, some, List, [], ◌∷◌, ◌++◌, ltb, leb,
  ◌==◌, if◌then◌else◌, length, take,
}
use teg.Prelude.Words.{sub32, add32}
use teg.Ota.Flash.{FlashOp, erase_sector, Memory, replay, flash_base, buffer_base}
use teg.Ota.Ingest.{
  OtaIngest, OtaError, Step, stalled, rejected, ota_ingest_init, ota_ingest_crc, ota_ingest_finish,
  feed_all,
}
use teg.Ota.Verify.{Image, VerifyError, ota_verify_image, ota_verify_staged_crc}

-- `lastError`: the empty string is `none`.
pub data LastError : Type 0 where
  disabled length_required commit_failed : LastError
  ingest : OtaError → LastError

pub record Ota : Type 0 where
  pub ing : OtaIngest
  pub active : Bool
  pub verified : Bool
  pub verified_size : ℕ
  pub verified_crc : ℕ
  pub last_error : Option LastError
  pub commit_pending : Bool
  pub reboot_pending : Bool

abbrev pub initial : Ota
unfolding ota_ingest_init
initial = record {
  ing = ota_ingest_init;
  active = false;
  verified = false;
  verified_size = 0;
  verified_crc = 0;
  last_error = none;
  commit_pending = false;
  reboot_pending = false;
}

unfoldable pub ota_release_enabled : Bool
ota_release_enabled = true

unfoldable pub ota_image_size : Ota → ℕ
ota_image_size o =
    if o.verified
    then o.verified_size
    else if leb o.ing.min_addr o.ing.max_addr && ltb 0 o.ing.bytes_written
    then add32 (sub32 o.ing.max_addr flash_base) 1
    else 0

-- The read loop: it stops at the first byte that is refused, or when the stream stalls.
unfoldable pub receive : ℕ → List ℕ → Step
receive expected body =
    let (good, s, ops) = feed_all ota_ingest_init (take expected body) in
    if good && ltb (length body) expected
    then (false, record s { error = some stalled }, ops)
    else (good, s, ops)

-- `streamOk && otaIngestFinish(ing, hwOps)`
unfoldable pub receive_all : ℕ → List ℕ → Step
receive_all expected body =
    let got = receive expected body in
    let done = ota_ingest_finish got.1 in if got.0 then (done.0, done.1, got.2 ++ done.2) else got

abbrev pub staged_image : Memory → Image
staged_image m = λ i. m (buffer_base + i)

-- The two checks of the staged image, the second only if the first passes.
unfoldable pub verify_staged : Memory → OtaIngest → Option VerifyError
verify_staged m s =
    let size = add32 (sub32 s.max_addr flash_base) 1 in
    elim (ota_verify_image (staged_image m) s.min_addr s.max_addr s.bytes_written s.eof_seen) [
      | some e ↦ some e
      | none ↦ ota_verify_staged_crc (staged_image m) size (ota_ingest_crc s)
    ]

abbrev pub error_of : OtaIngest → Option LastError
error_of s = elim s.error [ none ↦ none | some e ↦ some (ingest e) ]

-- What is recorded once the stream has ended, with the memory after its flash calls.
unfoldable pub conclude : Memory → Ota → Bool → OtaIngest → Bool × Ota
conclude m o good s =
    if not good
    then (false, record o { ing = s; active = true; verified = false; last_error = error_of s })
    else (elim (verify_staged m s) [
      | some e ↦ (
        false,
        record o {
          ing = record s { error = some (rejected e) };
          active = true;
          verified = false;
          last_error = some (ingest (rejected e));
        },
      )
      | none ↦ (
        true,
        record o {
          ing = s;
          active = true;
          verified = true;
          verified_size = add32 (sub32 s.max_addr flash_base) 1;
          verified_crc = ota_ingest_crc s;
          last_error = error_of s;
        },
      )
    ])

-- The result, the session, and the flash calls.
unfoldable pub ota_ingest_stream : Memory → Ota → ℕ → List ℕ → Bool × Ota × List FlashOp
ota_ingest_stream m o expected body =
    let (good, s, ops) = receive_all expected body in
    let (result, o') = conclude (replay ops m) o good s in
    if not ota_release_enabled
    then (false, record o { last_error = some disabled }, [])
    else if expected == 0
    then (false, record o { last_error = some length_required }, [])
    else (result, o', ops)

unfoldable pub ota_request_commit : Ota → ℕ → Bool × Ota
ota_request_commit o confirm_size =
    if not ota_release_enabled || not o.verified || not (confirm_size == o.verified_size)
    then (false, o)
    else (true, record o { commit_pending = true })

-- The erased sector holds the magic that the boot ROM looks for.
unfoldable pub ota_request_abort : Ota → Ota × List FlashOp
ota_request_abort o =
    if not ota_release_enabled || not o.active
    then (o, [])
    else (record o { verified = false; reboot_pending = true }, erase_sector buffer_base ∷ [])
