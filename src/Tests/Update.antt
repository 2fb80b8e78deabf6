-- ===== src/Tests/Update.antt =====
-- The firmware update path at concrete inputs.
use teg.Prelude.{ℕ, ◌≡◌, ◌↔◌, refl, inl, true, none, List, [], ◌∷◌, ◌++◌, bit_or, arith}
use teg.Ota.Hex.{HexParser, data_record, hex_parse_line}
use teg.Ota.Hex
use teg.Ota.Hex.Spec.{record_text}
use teg.Ota.Hex.RoundTrip.{parse-data_record}
use teg.Ota.Hex.Sound.{Outcome, parse_line-Outcome}
use teg.Ota.Hex.State.{Ended, after_eof}
use teg.Ota.Crc.{crc32}
use teg.Ota.Crc.Detect.{crc32-detects}
use teg.Ota.Flash.{Memory, apply_op, replay}
use teg.Ota.Ingest.{ota_ingest_init, feed_all}
use teg.Ota.Ingest.Invariant.{Good}
use teg.Ota.Ingest.Feed.{feed_all-Good, init-Staged}
use teg.Ota.Verify.{ota_verify_image}
use teg.Ota.Verify.Accept.{IsFirmware, verify_iff}
use teg.Ota.Upload.{ota_ingest_stream}
use teg.Ota.Upload
use teg.Ota.Upload.Flash.{stream-outside}
use teg.Ota.Verify.{read_bytes}
use teg.Ota.Commit.Installed.{IsInstalled, commit-IsInstalled}
use teg.Ota.Commit.{ota_flash_commit}
use teg.Ota.Commit.Copy.{Committed, commit-Committed}
use teg.Ota.Commit.Works.{apply_op-IsConfined}

abbrev blank : Memory
blank = λ x. 0xFF

-- ":0100000041BE" and the EOF record ":00000001FF", each with its line feed
abbrev body : List ℕ
body =
    b':' ∷ b'0' ∷ b'1' ∷ b'0' ∷ b'0' ∷ b'0' ∷ b'0' ∷ b'0' ∷ b'0' ∷ b'4' ∷ b'1' ∷ b'B' ∷ b'E' ∷ b'\n'
    ∷ b':' ∷ b'0' ∷ b'0' ∷ b'0' ∷ b'0' ∷ b'0' ∷ b'0' ∷ b'0' ∷ b'1' ∷ b'F' ∷ b'F' ∷ b'\n' ∷ []

stream-outside_example :
    replay (ota_ingest_stream blank Upload.initial 26 body).2 blank 0x60000000 ≡ blank 0x60000000
stream-outside_example = stream-outside blank Upload.initial 26 body 0x60000000 (inl (omega arith))

commit-Committed_example :
    Committed 3
      (crc32 (0xFF ∷ 0xFF ∷ 0xFF ∷ []))
      blank
      0x60400001
      (ota_flash_commit apply_op 3 (crc32 (0xFF ∷ 0xFF ∷ 0xFF ∷ [])) blank)
commit-Committed_example =
    commit-Committed apply_op apply_op-IsConfined 3 (crc32 (0xFF ∷ 0xFF ∷ 0xFF ∷ [])) blank
      0x60400001 (omega arith) (omega arith)

commit-IsInstalled_example :
    IsInstalled 3 blank (ota_flash_commit apply_op 3 (crc32 (read_bytes blank 0x60400000 3)) blank)
commit-IsInstalled_example = commit-IsInstalled 3 blank (λ x. omega arith) (omega arith)

verify_iff_example :
    (ota_verify_image blank 0x60000000 0x60003000 0x3001 true ≡ none)
    ↔ IsFirmware blank 0x60000000 0x60003000 0x3001 true
verify_iff_example =
    verify_iff blank (λ x. omega arith) 0x60000000 0x60003000 0x3001 true (omega arith)
      (omega arith)

feed_all-Good_example : Good blank [] (feed_all ota_ingest_init body)
feed_all-Good_example = feed_all-Good body blank ota_ingest_init [] (init-Staged blank)

parse_line-Outcome_example : Outcome Hex.initial body (hex_parse_line Hex.initial body)
parse_line-Outcome_example = parse_line-Outcome Hex.initial body

parse-data_record_example :
    hex_parse_line Hex.initial (record_text 16 0 (1 ∷ 2 ∷ []) ++ b' ' ∷ [])
    ≡ (data_record (bit_or 0 16) (1 ∷ 2 ∷ []), Hex.initial)
parse-data_record_example =
    parse-data_record Hex.initial 16 (1 ∷ 2 ∷ []) (b' ' ∷ []) refl (omega arith) (omega arith)
      (omega arith, (omega arith, tt)) (refl, tt)

abbrev ended : HexParser
ended = record Hex.initial { eof_seen = true }

after_eof_example :
    Ended body (hex_parse_line ended body).0 × ((hex_parse_line ended body).1 ≡ ended)
after_eof_example = after_eof ended body refl

crc32-detects_example : ◌≡◌ {A = ℕ} 3 3
crc32-detects_example =
    crc32-detects (1 ∷ []) (2 ∷ []) 3 3 (omega arith, tt) (omega arith, tt) (omega arith)
      (omega arith) refl
