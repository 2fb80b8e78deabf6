-- ===== src/Ota/Upload/Accept.antt =====
-- src/ota.cpp: what an upload that is accepted has staged, and which session may commit.
use teg.Prelude.{
  ℕ, suc, ◌+◌, ◌-◌, ◌<◌, ◌≡◌, refl, ap, ◌∙◌, inl, inr, Bool, true, false, Bool-cases, none, List,
  [], ◌∷◌, ==_refl, length, get_or, bit_xor, arith,
}
use teg.Prelude.Words.{add32, sub32}
use teg.Ota.Crc.{crc32}
use teg.Ota.Flash.{FlashOp, Memory, replay, flash_base, buffer_base}
use teg.Ota.Ingest.{OtaIngest, Step, ota_ingest_crc}
use teg.Ota.Ingest.Invariant.{written, Busy, Staged}
use teg.Ota.Verify.{Image, ota_verify_image, ota_verify_staged_crc, read_bytes}
use teg.Ota.Verify.Accept.{IsFirmware, verify_iff}
use teg.Ota.Upload.{
  Ota, receive_all, staged_image, verify_staged, conclude, ota_ingest_stream, ota_release_enabled,
  ota_request_commit,
}
use teg.Ota.Upload.Flash.{IsByteMemory, replay-IsByteMemory, receive_all-Good}

read_bytes_lem :
    (img : Image) (xs : List ℕ) (j : ℕ)
    → ((i : ℕ) → i < length xs → img (j + i) ≡ get_or xs i 0)
    → read_bytes img j (length xs) ≡ xs
unfolding read_bytes
read_bytes_lem img [] j h = refl
read_bytes_lem img (x ∷ xs) j h =
    let here : img j ≡ x = ap img (omega arith) ∙ h 0 (omega arith) in
    rw
      (here, read_bytes_lem img xs (j + 1) (λ i hi. ap img (omega arith) ∙ h (suc i) (omega arith)))

-- What a session with a verified image has in its staging buffer: the bytes `img`, which are a well
-- formed firmware image, with the size and the CRC that the session remembers.
pub record IsVerified (m : Memory) (o : Ota) (img : List ℕ) : Type 0 where
  pub flag : o.verified ≡ true
  pub size : o.verified_size ≡ length img
  pub check : o.verified_crc ≡ crc32 img
  pub staged : read_bytes (staged_image m) 0 (length img) ≡ img
  pub firmware :
      IsFirmware (staged_image m) o.ing.min_addr o.ing.max_addr (length img) o.ing.eof_seen

module _ (m : Memory) (s : OtaIngest) (img : List ℕ) (v : Staged m s img)
    (some_bytes : 0 < s.bytes_written) where
  busy : Busy m s img
  busy = elim (Bool-cases s.have_data) [
    | inl live ↦ v.busy live
    | inr idle ↦ absurd (omega (arith, ap length (v.idle idle).0, v.bytes_of))
  ]

  size_eq : add32 (sub32 s.max_addr flash_base) 1 ≡ s.max_addr + 1 - flash_base
  size_eq = omega (arith, busy.above, busy.next, busy.top, busy.fits, busy.nonempty)

  staged_bytes : s.min_addr ≡ flash_base → read_bytes (staged_image m) 0 (length img) ≡ img
  staged_bytes base =
      read_bytes_lem (staged_image m) img 0 (λ i hi. ap m (omega arith) ∙ busy.holds.held i hi)

  -- On a flash that stores what it is given, the read-back check cannot fail once the image check
  -- has passed.
  crc_passes :
      s.min_addr ≡ flash_base
      → ota_verify_staged_crc
          (staged_image m)
          (add32 (sub32 s.max_addr flash_base) 1)
          (ota_ingest_crc s)
        ≡ none
  unfolding ota_verify_staged_crc ota_ingest_crc crc32
  crc_passes base =
      let count : add32 (sub32 s.max_addr flash_base) 1 ≡ length img =
        omega (arith, size_eq, busy.above, busy.next, busy.top) in
      rw (count, staged_bytes base, v.crc_of, ==_refl)

-- The success path of `conclude` and of the stream.
conclude-success :
    (m : Memory) (o : Ota) (good : Bool) (s : OtaIngest) (o' : Ota)
    → conclude m o good s ≡ (true, o')
    → (good ≡ true)
      × (verify_staged m s ≡ none)
      × (o'.ing ≡ s)
      × (o'.verified ≡ true)
      × (o'.verified_size ≡ add32 (sub32 s.max_addr flash_base) 1)
      × (o'.verified_crc ≡ ota_ingest_crc s)
unfolding conclude
conclude-success m o good s o' e = ground arith

stream_true :
    (m : Memory) (o : Ota) (expected : ℕ) (body : List ℕ) (o' : Ota) (ops : List FlashOp)
    → ota_ingest_stream m o expected body ≡ (true, o', ops)
    → (ops ≡ (receive_all expected body).2)
      × (conclude
            (replay (receive_all expected body).2 m)
            o
            (receive_all expected body).0
            (receive_all expected body).1
          ≡ (true, o'))
unfolding ota_ingest_stream ota_release_enabled
stream_true m o expected body o' ops e = ground arith

verify_none :
    (m : Memory) (s : OtaIngest)
    → verify_staged m s ≡ none
    → ota_verify_image (staged_image m) s.min_addr s.max_addr s.bytes_written s.eof_seen ≡ none
unfolding verify_staged
verify_none m s e = ground arith

module _ (m : Memory) (o : Ota) (expected : ℕ) (body : List ℕ) (bytes : IsByteMemory m) where
  abbrev final : Step
  final = receive_all expected body

  abbrev after : Memory
  after = replay final.2 m

  pub stream-IsVerified :
      (o' : Ota) (ops : List FlashOp)
      → ota_ingest_stream m o expected body ≡ (true, o', ops)
      → IsVerified (replay ops m) o' (written ops)
  unfolding ota_ingest_crc crc32
  stream-IsVerified o' ops e =
      let (same_ops, c) = stream_true m o expected body o' ops e in
      let (good, passed, ing, flag, size, crc) = conclude-success after o final.0 final.1 o' c in
      let (g, f) = receive_all-Good m expected body in
      let v : Staged after final.1 (written final.2) = g.staged in
      let some_bytes : 0 < final.1.bytes_written = (f good).1 in
      let b : Busy after final.1 (written final.2) =
        busy after final.1 (written final.2) v some_bytes in
      let image = verify_none after final.1 passed in
      let firmware =
        (verify_iff (staged_image after)
            (λ i. replay-IsByteMemory final.2 m bytes (buffer_base + i)) final.1.min_addr
            final.1.max_addr final.1.bytes_written final.1.eof_seen
            (omega (arith, b.above, b.next, b.top, b.nonempty))
            (omega (arith, b.above, b.next, b.top, b.fits, b.nonempty))).0
          image in
      rw same_ops (record {
        flag = flag;
        size = omega (
          arith,
          size,
          size_eq after final.1 (written final.2) v some_bytes,
          firmware.at_base,
          b.next,
          b.top,
        );
        check = crc ∙ ap (λ t. bit_xor t 0xFFFFFFFF) v.crc_of;
        staged = staged_bytes after final.1 (written final.2) v some_bytes firmware.at_base;
        firmware = rw (ing, ← v.bytes_of) firmware;
      })

  -- No spurious refusal: once the stream has ended well and the image check has passed, the read-back
  -- CRC of a flash that stores what it is given matches, and the upload succeeds.
  pub stream-succeeds :
      0 < expected
      → final.0 ≡ true
      → ota_verify_image
          (staged_image after)
          final.1.min_addr
          final.1.max_addr
          final.1.bytes_written
          final.1.eof_seen
        ≡ none
      → (ota_ingest_stream m o expected body).0 ≡ true
  unfolding ota_ingest_stream conclude verify_staged ota_release_enabled
  stream-succeeds live good image =
      let (g, f) = receive_all-Good m expected body in
      let v : Staged after final.1 (written final.2) = g.staged in
      let some_bytes : 0 < final.1.bytes_written = (f good).1 in
      let b : Busy after final.1 (written final.2) =
        busy after final.1 (written final.2) v some_bytes in
      let firmware =
        (verify_iff (staged_image after)
            (λ i. replay-IsByteMemory final.2 m bytes (buffer_base + i)) final.1.min_addr
            final.1.max_addr final.1.bytes_written final.1.eof_seen
            (omega (arith, b.above, b.next, b.top, b.nonempty))
            (omega (arith, b.above, b.next, b.top, b.fits, b.nonempty))).0
          image in
      ground (arith, crc_passes after final.1 (written final.2) v some_bytes firmware.at_base)

failed-no_commit :
    (m : Memory) (o : Ota) (expected : ℕ) (body : List ℕ) (o' : Ota) (ops : List FlashOp)
    → 0 < expected
    → ota_ingest_stream m o expected body ≡ (false, o', ops)
    → (n : ℕ) → ota_request_commit o' n ≡ (false, o')
unfolding ota_ingest_stream ota_request_commit ota_release_enabled conclude
failed-no_commit m o expected body o' ops live e n = ground arith

-- What an upload's result means.
abbrev pub Verdict : Memory → Bool × Ota × List FlashOp → Type 0
Verdict m (true, o, ops) = IsVerified (replay ops m) o (written ops)
Verdict m (false, o, ops) = (n : ℕ) → ota_request_commit o n ≡ (false, o)

-- Every upload of a positive length, over any flash contents: if it succeeds, the staging buffer holds
-- exactly the bytes it wrote, they are a well-formed image of this firmware, and the session
-- remembers their size and CRC; if it fails, no commit request is granted, whatever was verified
-- before.
pub stream-Verdict :
    (m : Memory) (o : Ota) (expected : ℕ) (body : List ℕ)
    → IsByteMemory m
    → 0 < expected
    → Verdict m (ota_ingest_stream m o expected body)
stream-Verdict m o expected body bytes live = go (ota_ingest_stream m o expected body) refl
  where
    go : (x : Bool × Ota × List FlashOp) → ota_ingest_stream m o expected body ≡ x → Verdict m x
    go (true, o', ops) e = stream-IsVerified m o expected body bytes o' ops e
    go (false, o', ops) e = failed-no_commit m o expected body o' ops live e
