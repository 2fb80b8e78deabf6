-- ===== src/Ota/Commit/Pages.antt =====
-- src/flash_ota.cpp, `otaFlashCommit`: the copy on a flash that works, which erases to 0xFF and
-- programs the bits that are to be cleared. Here: one sector.
use teg.Prelude.{
  ℕ, zero, suc, ◌+◌, ◌-◌, ◌*◌, ◌<◌, ◌≤◌, ◌≡◌, refl, ap, sym, ◌∙◌, ◌⊎◌, inl, inr, false, ltb, leb,
  ◌==◌, ◌&&◌, if◌then◌else◌, Bool-cases, get_or, bit_and, ==_iff, ltb→lt, arith,
}
use teg.Prelude.Bits.{word_le}
use teg.Ota.Flash.{write, Memory, apply_op, flash_base, buffer_base, image_max}
use teg.Ota.Upload.Flash.{IsByteMemory, apply_op-IsByteMemory}
use teg.Ota.Ingest.Staged.{program_erased}
use teg.Ota.Verify.{ota_read_u32, read_bytes}
use teg.Ota.Commit.{words_not_erased, sector_not_erased, erase_if_needed, copy_pages}
use teg.Ota.Commit.Copy.{length-read_bytes}

-- A word of ones is four bytes of ones.
word-erased :
    (m : Memory) (a : ℕ)
    → IsByteMemory m
    → ota_read_u32 m a ≡ 0xFFFFFFFF
    → (m a ≡ 255) × (m (a + 1) ≡ 255) × (m (a + 2) ≡ 255) × (m (a + 3) ≡ 255)
unfolding ota_read_u32
word-erased m a b h =
    let w =
      word_le (m a) (m (a + 1)) (m (a + 2)) (m (a + 3)) (b a) (b (a + 1)) (b (a + 2)) (b (a + 3)) in
    let sum : m a + m (a + 1) * 256 + m (a + 2) * 65536 + m (a + 3) * 16777216 ≡ 4294967295 =
      sym w ∙ h in
    (
      omega (arith, sum, b a, b (a + 1), b (a + 2), b (a + 3)),
      omega (arith, sum, b a, b (a + 1), b (a + 2), b (a + 3)),
      omega (arith, sum, b a, b (a + 1), b (a + 2), b (a + 3)),
      omega (arith, sum, b a, b (a + 1), b (a + 2), b (a + 3)),
    )

word-at :
    (m : Memory) (a i : ℕ)
    → IsByteMemory m
    → ota_read_u32 m a ≡ 0xFFFFFFFF
    → i < 4
    → m (a + i) ≡ 255
word-at m a zero b h lt = ap m (omega arith) ∙ (word-erased m a b h).0
word-at m a (suc zero) b h lt = (word-erased m a b h).1
word-at m a (suc (suc zero)) b h lt = (word-erased m a b h).2
word-at m a (suc (suc (suc zero))) b h lt = (word-erased m a b h).3
word-at m a (suc (suc (suc (suc i)))) b h lt = absurd (omega arith)

words-erased :
    (rounds a i : ℕ) (m : Memory)
    → IsByteMemory m
    → words_not_erased rounds m a ≡ false
    → i < 4 * rounds
    → m (a + i) ≡ 255
unfolding words_not_erased
words-erased zero a i m b h lt = absurd (omega arith)
words-erased (suc rounds) a i m b h lt = elim (Bool-cases (ota_read_u32 m a == 0xFFFFFFFF)) [
  | inl e ↦
      let later : words_not_erased rounds m (a + 4) ≡ false = ground (arith, h, e) in
      let which : (i < 4) ⊎ (4 ≤ i) = ground arith in
      elim which [
        | inl near ↦ word-at m a i b ((==_iff (ota_read_u32 m a) 0xFFFFFFFF).0 e) near
        | inr far ↦ ap m (omega arith) ∙ words-erased rounds (a + 4) (i - 4) m b later (omega arith)
      ]
  | inr e ↦ absurd (ground (arith, h, e))
]

pub erase_if_needed-blank :
    (a i : ℕ) (m : Memory) → IsByteMemory m → i < 4096 → erase_if_needed apply_op a m (a + i) ≡ 255
unfolding erase_if_needed sector_not_erased apply_op
erase_if_needed-blank a i m b lt = elim (Bool-cases (words_not_erased 1024 m a)) [
  | inl e ↦ rw e (ground arith)
  | inr e ↦ rw e (words-erased 1024 a i m b e (omega arith))
]

get_or-read_bytes : (m : Memory) (i n k : ℕ) → k < n → get_or (read_bytes m i n) k 0 ≡ m (i + k)
unfolding read_bytes
get_or-read_bytes m i zero k h = absurd (omega arith)
get_or-read_bytes m i (suc n) zero h = ap m (omega arith)
get_or-read_bytes m i (suc n) (suc k) h =
    get_or-read_bytes m (i + 1) n k (omega arith) ∙ ap m (omega arith)

-- The bytes from `low` up to `high` are those that are staged for them.
unfoldable pub filled : ℕ → ℕ → Memory → Memory
filled low high m = λ x. if leb low x && ltb x high then m (x + 0x00400000) else m x

programmed :
    (m : Memory) (a n x : ℕ)
    → IsByteMemory m
    → m x ≡ 255
    → a ≤ x
    → x < a + n
    → bit_and (m x) (get_or (read_bytes m (a + 0x00400000) n) (x - a) 0) ≡ m (x + 0x00400000)
programmed m a n x b blank low high =
    let place : a + 0x00400000 + (x - a) ≡ x + 0x00400000 = omega arith in
    let byte = get_or-read_bytes m (a + 0x00400000) n (x - a) (omega arith) ∙ ap m place in
    rw (blank, byte) (program_erased (m (x + 0x00400000)) (b (x + 0x00400000)))

-- Programming a page that is blank.
page-filled :
    (m : Memory) (a n x : ℕ)
    → IsByteMemory m
    → ((y : ℕ) → a ≤ y → y < a + n → m y ≡ 255)
    → apply_op (write a (read_bytes m (a + 0x00400000) n)) m x ≡ filled a (a + n) m x
unfolding apply_op filled
page-filled m a n x b blank =
    rw (length-read_bytes m (a + 0x00400000) n) (elim (Bool-cases (leb a x && ltb x (a + n))) [
      | inl e ↦ rw e (
          programmed m a n x b (blank x (ground (arith, e)) (ground (arith, e))) (ground (arith, e))
            (ground (arith, e)))
      | inr e ↦ rw e refl
    ])

filled-empty : (low high x : ℕ) (m : Memory) → high ≤ low → filled low high m x ≡ m x
unfolding filled
filled-empty low high x m h = ground arith

pub filled-outside :
    (low high x : ℕ) (m : Memory) → (x < low) ⊎ (high ≤ x) → filled low high m x ≡ m x
unfolding filled
filled-outside low high x m h = ground arith

pub filled-inside :
    (low high x : ℕ) (m : Memory) → low ≤ x → x < high → filled low high m x ≡ m (x + 0x00400000)
unfolding filled
filled-inside low high x m h k = ground arith

-- A page and the pages behind it.
filled-join :
    (a n next high x : ℕ) (m m' : Memory)
    → a + n ≤ high
    → (a + n ≡ next) ⊎ ((a + n ≡ high) × (high ≤ next))
    → next ≤ a + 0x00400000
    → high ≤ a + 0x00400000
    → ((y : ℕ) → m' y ≡ filled a (a + n) m y)
    → filled next high m' x ≡ filled a high m x
unfolding filled
filled-join a n next high x m m' fits meets near far page =
    ground (arith, page x, page (x + 0x00400000))

pub copy_pages-filled :
    (rounds off sec_len p x : ℕ) (m : Memory)
    → IsByteMemory m
    → sec_len ≤ p + 256 * rounds
    → off + sec_len ≤ image_max
    → ((y : ℕ) → flash_base + off + p ≤ y → y < flash_base + off + sec_len → m y ≡ 255)
    → copy_pages apply_op rounds off sec_len p m x
      ≡ filled (flash_base + off + p) (flash_base + off + sec_len) m x
unfolding copy_pages
copy_pages-filled zero off sec_len p x m b enough fits blank =
    sym (filled-empty (flash_base + off + p) (flash_base + off + sec_len) x m (omega arith))
copy_pages-filled (suc rounds) off sec_len p x m b enough fits blank =
    elim (Bool-cases (ltb p sec_len)) [
      | inr e ↦ rw e (
          sym (
            filled-empty (flash_base + off + p) (flash_base + off + sec_len) x m
              (ground (arith, e))))
      | inl e ↦
          let start = flash_base + off + p in
          let end = flash_base + off + sec_len in
          let n = if ltb (sec_len - p) 256 then sec_len - p else 256 in
          let next = apply_op (write start (read_bytes m (buffer_base + off + p) n)) m in
          let inside = ltb→lt p sec_len e in
          let size : (n ≡ 256) ⊎ ((n ≡ sec_len - p) × (sec_len - p < 256)) = ground arith in
          let small : n ≤ sec_len - p = ground arith in
          let shift : buffer_base + off + p ≡ start + 0x00400000 = omega arith in
          let page : (y : ℕ) → next y ≡ filled start (start + n) m y = λ y.
            ap (λ s. apply_op (write start (read_bytes m s n)) m y) shift
            ∙ page-filled m start n y b (λ z low high. blank z low (omega (arith, high, small))) in
          let ahead : (y : ℕ) → flash_base + off + (p + 256) ≤ y → y < end → next y ≡ 255 =
            λ y low high.
              page y
              ∙ filled-outside start (start + n) y m (inr (ground (arith, size)))
              ∙ blank y (omega arith) high in
          let meets : (start + n ≡ flash_base + off + (p + 256))
              ⊎ ((start + n ≡ end) × (end ≤ flash_base + off + (p + 256))) =
            ground (arith, size) in
          rw e (
            copy_pages-filled rounds off sec_len (p + 256) x next
              (apply_op-IsByteMemory (write start (read_bytes m (buffer_base + off + p) n)) m b)
              (omega arith) fits ahead
            ∙ filled-join start n (flash_base + off + (p + 256)) end x m next (omega (arith, small))
                meets (omega arith) (omega arith) page)
    ]
