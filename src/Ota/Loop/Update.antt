-- ===== src/Ota/Loop/Update.antt =====
-- The whole update: the upload, the request, and the commit by the main loop.
use teg.Prelude.{
  ℕ, ◌<◌, ◌≡◌, refl, ap, sym, ◌∙◌, Bool, true, false, List, ◌++◌, take, length, arith,
}
use teg.Ota.Crc.{crc32}
use teg.Ota.Flash.{FlashOp, Memory, apply_op, replay, flash_base, buffer_base}
use teg.Ota.Ingest.{ota_ingest_init, ota_ingest_finish, feed_all}
use teg.Ota.Ingest.Invariant.{written}
use teg.Ota.Ingest.Carried.{Delivers, ingest-Delivers}
use teg.Ota.Verify.{read_bytes}
use teg.Ota.Upload.{
  Ota, staged_image, ota_ingest_stream, receive, receive_all, conclude, ota_release_enabled,
  ota_request_commit,
}
use teg.Ota.Upload.Flash.{IsByteMemory, replay-IsByteMemory}
use teg.Ota.Upload.Accept.{IsVerified, Verdict, stream-Verdict}
use teg.Ota.Commit.{ota_flash_commit}
use teg.Ota.Commit.Works.{read_bytes-moved}
use teg.Ota.Commit.Installed.{IsInstalled, commit-IsInstalled}
use teg.Ota.Loop.{Task, ota_loop_task}

-- The board resets, and the bytes from the flash's base are those of the image.
pub record IsUpdated (img : List ℕ) (task : Task) : Type 0 where
  pub resets : task.0 ≡ true
  pub runs : read_bytes task.2 flash_base (length img) ≡ img

module _ (after : Memory) (o : Ota) (img : List ℕ) (bytes : IsByteMemory after)
    (v : IsVerified after o img) where
  same_bytes : read_bytes after buffer_base (length img) ≡ img
  same_bytes =
      read_bytes-moved after (staged_image after) buffer_base 0 (length img)
        (λ k lt. ap after (omega arith))
      ∙ v.staged

  committed :
      IsInstalled
        (length img)
        after
        (ota_flash_commit apply_op o.verified_size o.verified_crc after)
  committed =
      let same : o.verified_crc ≡ crc32 (read_bytes after buffer_base (length img)) =
        v.check ∙ ap crc32 (sym same_bytes) in
      rw (v.size, same) (commit-IsInstalled (length img) after bytes v.firmware.small)

  granted : ota_request_commit o o.verified_size ≡ (true, record o { commit_pending = true })
  unfolding ota_request_commit ota_release_enabled
  granted = ground (arith, v.flag)

  taken : ota_loop_task apply_op (record o { commit_pending = true }) after ≡ (
    true,
    record o { commit_pending = false },
    (ota_flash_commit apply_op o.verified_size o.verified_crc after).1,
  )
  unfolding ota_loop_task
  taken =
      let flag : (ota_flash_commit apply_op o.verified_size o.verified_crc after).0 ≡ true =
        committed.resets in
      rw flag refl

  loop-IsUpdated :
      IsUpdated img (ota_loop_task apply_op (ota_request_commit o o.verified_size).1 after)
  loop-IsUpdated =
      rw (granted, taken)
        (record {
          resets = refl;
          runs =
              read_bytes-moved (ota_flash_commit apply_op o.verified_size o.verified_crc after).1
                after flash_base buffer_base (length img) committed.image
              ∙ same_bytes;
        })

-- What an upload's result means for the board.
abbrev pub Updates : Memory → List ℕ → Bool × Ota × List FlashOp → Type 0
Updates m body (true, o, ops) =
    Delivers body (written ops)
    × IsVerified (replay ops m) o (written ops)
    × IsUpdated (written ops)
        (ota_loop_task apply_op (ota_request_commit o o.verified_size).1 (replay ops m))
Updates m body (false, o, ops) = (n : ℕ) → ota_request_commit o n ≡ (false, o)

Verdict-Updates :
    (m : Memory) (body : List ℕ) (x : Bool × Ota × List FlashOp)
    → IsByteMemory m
    → Verdict m x
    → (x.0 ≡ true → Delivers body (written x.2))
    → Updates m body x
Verdict-Updates m body (true, o, ops) bytes v d =
    (d refl, v, loop-IsUpdated (replay ops m) o (written ops) (replay-IsByteMemory ops m bytes) v)
Verdict-Updates m body (false, o, ops) bytes v d = v

-- An upload that succeeds was fed and finished.
stream-ways :
    (m : Memory) (o : Ota) (expected : ℕ) (body : List ℕ)
    → (ota_ingest_stream m o expected body).0 ≡ true
    → let got = feed_all ota_ingest_init (take expected body) in
      (got.0 ≡ true)
      × ((ota_ingest_finish got.1).0 ≡ true)
      × ((ota_ingest_stream m o expected body).2 ≡ got.2 ++ (ota_ingest_finish got.1).2)
unfolding ota_ingest_stream receive_all receive conclude ota_release_enabled
stream-ways m o expected body h = ground arith

stream-Delivers :
    (m : Memory) (o : Ota) (expected : ℕ) (body : List ℕ)
    → (ota_ingest_stream m o expected body).0 ≡ true
    → Delivers (take expected body) (written (ota_ingest_stream m o expected body).2)
stream-Delivers m o expected body h =
    let (fed, finished, same) = stream-ways m o expected body h in
    rw same (ingest-Delivers (take expected body) fed finished)

-- The whole update, over any contents of a flash that works, for an upload of a positive length: if
-- the upload succeeds, then the announced part of the body is lines of Intel HEX text, and the
-- payloads of their data records, one after the other, are what it has staged: a well-formed image
-- of this firmware with the size and CRC that the session remembers; a commit request with that size
-- and the main loop's next task reset the board with exactly this image at the flash's base; if it
-- fails, no commit request is granted, whatever was verified before.
pub update-Updates :
    (m : Memory) (o : Ota) (expected : ℕ) (body : List ℕ)
    → IsByteMemory m
    → 0 < expected
    → Updates m (take expected body) (ota_ingest_stream m o expected body)
update-Updates m o expected body bytes live =
    Verdict-Updates m (take expected body) (ota_ingest_stream m o expected body) bytes
      (stream-Verdict m o expected body bytes live) (stream-Delivers m o expected body)
