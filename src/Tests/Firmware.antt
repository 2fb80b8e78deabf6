-- ===== src/Tests/Firmware.antt =====
-- A whole update: the text of an image that is accepted.
use teg.Prelude.{
  ℕ, zero, suc, ◌+◌, ◌≡◌, refl, true, none, List, [], ◌∷◌, ◌++◌, arith, replicate, take, drop,
}
use teg.Ota.Hex.{
  hex_nibble, hex_byte_at, skip_space, read_pairs, interpret, check_record, parse_body,
  parse_record, hex_parse_line,
}
use teg.Ota.Hex.Spec.{hex_digit, hex_text, total, record_body, checksum, record_bytes, record_text}
use teg.Ota.Crc.{crc_bit, crc_bits, crc32_update}
use teg.Ota.Flash.{Memory, apply_op, replay}
use teg.Ota.Ingest.{
  ota_ingest_init, ota_sector_erased, ota_mark_erased, erase_loop, stage_data, ota_handle_data,
  c_string, handle_result, end_line, ota_feed_byte, finish_checks, ota_ingest_finish, feed_all,
}
use teg.Ota.Verify.{
  project_marker, ota_read_u32, matches_at, find_marker, verify_boot_data, verify_headers,
  ota_verify_image,
}
use teg.Ota.Upload.{ota_ingest_stream, receive, receive_all, staged_image}
use teg.Ota.Upload
use teg.Ota.Upload.Accept.{stream-succeeds}
use teg.Ota.Loop.Update.{Updates, update-Updates}

abbrev blank : Memory
blank = λ x. 0xFF

abbrev image : List ℕ
image =
    (0x46 ∷ 0x43 ∷ 0x46 ∷ 0x42 ∷ [])
    ++ project_marker
    ++ replicate 59 0
    ++ (0x00 ∷ 0x00 ∷ 0x80 ∷ 0x00 ∷ [])
    ++ replicate 4012 0
    ++ (0xD1 ∷ 0x00 ∷ 0x20 ∷ 0x40 ∷ 0x01 ∷ 0x14 ∷ 0x00 ∷ 0x60 ∷ [])
    ++ replicate 8 0
    ++ (0x20 ∷ 0x10 ∷ 0x00 ∷ 0x60 ∷ 0x00 ∷ 0x10 ∷ 0x00 ∷ 0x60 ∷ [])
    ++ replicate 8 0
    ++ (0x00 ∷ 0x00 ∷ 0x00 ∷ 0x60 ∷ 0x00 ∷ 0x21 ∷ 0x00 ∷ 0x00 ∷ [])
    ++ replicate 4312 0

abbrev records : ℕ → ℕ → List ℕ → List ℕ
records zero offset bytes = []
records (suc n) offset bytes =
    record_text offset 0 (take 192 bytes) ++ b'\n' ∷ records n (offset + 192) (drop 192 bytes)

abbrev text : List ℕ
text =
    record_text 0 4 (0x60 ∷ 0x00 ∷ [])
    ++ b'\n' ∷ records 44 0 image
    ++ record_text 0 1 []
    ++ b'\n' ∷ []

stream_ended : (receive_all 17452 text).0 ≡ true
unfolding hex_nibble hex_byte_at skip_space read_pairs interpret check_record parse_body
    parse_record hex_parse_line hex_digit hex_text total record_body checksum record_bytes
    record_text crc_bit crc_bits crc32_update ota_ingest_init ota_sector_erased ota_mark_erased
    erase_loop stage_data ota_handle_data c_string handle_result end_line ota_feed_byte
    finish_checks ota_ingest_finish feed_all receive receive_all
stream_ended = refl

image_passes :
    ota_verify_image
      (staged_image (replay (receive_all 17452 text).2 blank))
      (receive_all 17452 text).1.min_addr
      (receive_all 17452 text).1.max_addr
      (receive_all 17452 text).1.bytes_written
      (receive_all 17452 text).1.eof_seen
    ≡ none
unfolding hex_nibble hex_byte_at skip_space read_pairs interpret check_record parse_body
    parse_record hex_parse_line hex_digit hex_text total record_body checksum record_bytes
    record_text crc_bit crc_bits crc32_update ota_ingest_init ota_sector_erased ota_mark_erased
    erase_loop stage_data ota_handle_data c_string handle_result end_line ota_feed_byte
    finish_checks ota_ingest_finish feed_all receive receive_all apply_op replay ota_read_u32
    matches_at find_marker verify_boot_data verify_headers ota_verify_image
image_passes = refl

upload_succeeds : (ota_ingest_stream blank Upload.initial 17452 text).0 ≡ true
upload_succeeds =
    stream-succeeds blank Upload.initial 17452 text (λ x. omega arith) (omega arith) stream_ended
      image_passes

update-Updates_example :
    Updates blank (take 17452 text) (ota_ingest_stream blank Upload.initial 17452 text)
update-Updates_example =
    update-Updates blank Upload.initial 17452 text (λ x. omega arith) (omega arith)
