-- ===== src/Ota/Commit/Readback.antt =====
-- src/flash_ota.cpp, `flashCrc`: the read-back in chunks.
use teg.Prelude.{
  ℕ, zero, suc, ◌+◌, ◌-◌, ◌*◌, ◌/◌, ◌<◌, ◌≤◌, ◌≡◌, ◌⊎◌, inl, inr, refl, ap, sym, ◌∙◌, true, false,
  ◌∷◌, ◌++◌, ltb, bit_xor, arith,
}
use teg.Ota.Crc.{crc32_update, crc32}
use teg.Ota.Crc.Detect.{crc32_update-append}
use teg.Ota.Flash.{Memory}
use teg.Ota.Verify.{read_bytes}
use teg.Ota.Commit.{crc_chunks, flash_crc}

read_bytes-split :
    (m : Memory) (i a b n : ℕ)
    → n ≡ a + b
    → read_bytes m i n ≡ read_bytes m i a ++ read_bytes m (i + a) b
unfolding read_bytes
read_bytes-split m i zero b n e =
    let start : i + 0 ≡ i = omega arith in
    let same : n ≡ b = omega (arith, e) in rw (same, start) refl
read_bytes-split m i (suc a) b zero e = absurd (omega (arith, e))
read_bytes-split m i (suc a) b (suc n) e =
    let start : i + suc a ≡ i + 1 + a = omega arith in
    rw start (ap (λ t. m i ∷ t) (read_bytes-split m (i + 1) a b n (omega (arith, e))))

module _ (m : Memory) (addr len : ℕ) where
  crc_chunks_past : (rounds off crc : ℕ) → len ≤ off → crc_chunks rounds m addr len off crc ≡ crc
  unfolding crc_chunks
  crc_chunks_past zero off crc h = refl
  crc_chunks_past (suc rounds) off crc h =
      let past : ltb off len ≡ false = ground arith in rw past refl

  crc_chunks_last :
      (rounds off crc n : ℕ)
      → off + n ≡ len
      → n < 256
      → 0 < n
      → crc_chunks (suc rounds) m addr len off crc ≡ crc32_update crc (read_bytes m (addr + off) n)
  unfolding crc_chunks
  crc_chunks_last rounds off crc n e few some_left =
      let inside : ltb off len ≡ true = ground (arith, e) in
      let size : len - off ≡ n = omega (arith, e) in
      let short : ltb n 256 ≡ true = ground arith in
      rw (inside, size, short) (crc_chunks_past rounds (off + 256) _ (omega (arith, e)))

  crc_chunks_more :
      (rounds off crc : ℕ)
      → off + 256 ≤ len
      → crc_chunks (suc rounds) m addr len off crc
        ≡ crc_chunks rounds m addr len
            (off + 256)
            (crc32_update crc (read_bytes m (addr + off) 256))
  unfolding crc_chunks
  crc_chunks_more rounds off crc h =
      let inside : ltb off len ≡ true = ground arith in
      let long : ltb (len - off) 256 ≡ false = ground arith in rw (inside, long) refl

  -- A full chunk and the rest, given the rest.
  crc_chunks_join :
      (rounds off crc left rest : ℕ)
      → left ≡ 256 + rest
      → off + left ≡ len
      → crc_chunks rounds m addr len (off + 256) (crc32_update crc (read_bytes m (addr + off) 256))
        ≡ crc32_update
            (crc32_update crc (read_bytes m (addr + off) 256))
            (read_bytes m (addr + (off + 256)) rest)
      → crc_chunks (suc rounds) m addr len off crc
        ≡ crc32_update crc (read_bytes m (addr + off) left)
  crc_chunks_join rounds off crc left rest split e tail =
      let chunk = read_bytes m (addr + off) 256 in
      let start : addr + (off + 256) ≡ addr + off + 256 = omega arith in
      crc_chunks_more rounds off crc (omega (arith, e, split))
      ∙ tail
      ∙ sym (crc32_update-append crc chunk (read_bytes m (addr + (off + 256)) rest))
      ∙ ap (λ t. crc32_update crc (chunk ++ read_bytes m t rest)) start
      ∙ ap (crc32_update crc) (sym (read_bytes-split m (addr + off) 256 rest left split))

  -- The chunks from `off` on.
  crc_chunks_lem :
      (rounds off crc left : ℕ)
      → off + left ≡ len
      → left ≤ 256 * rounds
      → crc_chunks rounds m addr len off crc ≡ crc32_update crc (read_bytes m (addr + off) left)
  unfolding read_bytes crc32_update
  crc_chunks_lem rounds off crc zero e enough = crc_chunks_past rounds off crc (omega (arith, e))
  crc_chunks_lem zero off crc (suc left) e enough = absurd (omega arith)
  crc_chunks_lem (suc rounds) off crc (suc left) e enough =
      let which : (suc left < 256) ⊎ (256 ≤ suc left) = ground arith in
      elim which [
        | inl few ↦ crc_chunks_last rounds off crc (suc left) e few (omega arith)
        | inr many ↦ crc_chunks_join rounds off crc (suc left) (suc left - 256) (omega arith) e (
            crc_chunks_lem rounds (off + 256) (crc32_update crc (read_bytes m (addr + off) 256))
              (suc left - 256) (omega (arith, e)) (omega arith))
      ]

-- The chunked read-back is the CRC-32 of the bytes, whatever their number.
pub flash_crc_lem :
    (m : Memory) (addr len : ℕ) → flash_crc m addr len ≡ crc32 (read_bytes m addr len)
unfolding flash_crc crc32
flash_crc_lem m addr len =
    let e =
      crc_chunks_lem m addr len (len / 256 + 1) 0 0xFFFFFFFF len (omega arith) (omega arith) in
    let start : addr + 0 ≡ addr = omega arith in ap (λ t. bit_xor t 0xFFFFFFFF) (rw start at e)
