-- ===== src/Ota/Ingest/Staged.antt =====
-- src/ota_ingest.h, `otaHandleData`: what the staging flash holds after a record has been staged.
use native.Mathlib.Decide.{dec_lt}
use teg.Prelude.{
  ℕ, ◌+◌, ◌-◌, ◌/◌, ◌<◌, ◌≤◌, ◌≡◌, refl, ap, sym, ◌∙◌, ◌⊎◌, inl, inr, true, Bool-cases, List, [],
  ◌∷◌, ◌++◌, ◌==◌, ==_iff, length, length-append, get_or, All, All-get_or, get_or-append_left,
  get_or-append_right, bit_and, arith,
}
use teg.Prelude.Words.{IsU8}
use teg.Prelude.Range.{all_below, all_below-apply}
use teg.Ota.Flash.{
  FlashOp, write, Memory, apply_op, replay, replay-append, buffer_base, image_max, sector_size,
}
use teg.Ota.Ingest.{ota_sector_erased}
use teg.Ota.Ingest.Erase.{Erases, fresh_in}

-- Programming an erased byte stores it.
pub program_erased : (b : ℕ) → IsU8 b → bit_and 0xFF b ≡ b
unfolding all_below
program_erased b h = (==_iff _ b).0 (all_below-apply 256 (λ x. bit_and 0xFF x == x) b refl h)

-- The memory holds the image from offset `start` of the buffer on; the image's sectors are marked
-- erased; and what is erased behind the image is blank.
pub record Holds (e : List ℕ) (m : Memory) (start : ℕ) (img : List ℕ) : Type 0 where
  pub held : (i : ℕ) → i < length img → m (buffer_base + (start + i)) ≡ get_or img i 0
  pub kept : (i : ℕ) → i < length img → ota_sector_erased e ((start + i) / sector_size) ≡ true
  pub clean :
      (off : ℕ)
      → ota_sector_erased e (off / sector_size) ≡ true
      → start + length img ≤ off
      → m (buffer_base + off) ≡ 0xFF

write-outside :
    (m : Memory) (off : ℕ) (bs : List ℕ) (x : ℕ)
    → (x < off) ⊎ (off + length bs ≤ x)
    → apply_op (write (buffer_base + off) bs) m (buffer_base + x) ≡ m (buffer_base + x)
unfolding apply_op
write-outside m off bs x h = ground arith

write-inside :
    (m : Memory) (off : ℕ) (bs : List ℕ) (x : ℕ)
    → off ≤ x
    → x < off + length bs
    → apply_op (write (buffer_base + off) bs) m (buffer_base + x)
      ≡ bit_and (m (buffer_base + x)) (get_or bs (x - off) 0)
unfolding apply_op
write-inside m off bs x h k =
    let at : buffer_base + x - (buffer_base + off) ≡ x - off = omega arith in
    ground (arith, ap (λ t. get_or bs t 0) at)

module _ (e : List ℕ) (m : Memory) (start : ℕ) (img bs : List ℕ) (h : Holds e m start img)
    (fits : start + length img + length bs ≤ image_max) (some_bytes : 0 < length bs)
    (bytes : All IsU8 bs) (out : List ℕ × List FlashOp)
    (erases : Erases
      ((start + length img) / sector_size)
      ((start + length img + length bs - 1) / sector_size)
      e
      out) where
  abbrev off : ℕ
  off = start + length img

  abbrev erased_memory : Memory
  erased_memory = replay out.1 m

  -- The record's sectors are blank behind the image once the loop has run.
  blank :
      (x : ℕ)
      → off ≤ x
      → ota_sector_erased out.0 (x / sector_size) ≡ true
      → erased_memory (buffer_base + x) ≡ 0xFF
  blank x hx marked =
      elim (Bool-cases
        (fresh_in (off / sector_size) ((off + length bs - 1) / sector_size) e (x / sector_size))) [
          | inl fresh ↦ erases.memory m x ∙ rw fresh
          | inr old ↦
              erases.memory m x
              ∙ rw old (h.clean x (ground (arith, erases.marked (x / sector_size))) hx)
        ]

  -- The image's sectors are not erased again.
  untouched :
      (i : ℕ)
      → i < length img
      → erased_memory (buffer_base + (start + i)) ≡ m (buffer_base + (start + i))
  untouched i hi = ground (arith, erases.memory m (start + i), h.kept i hi)

  marked_new :
      (x : ℕ) → off ≤ x → x < off + length bs → ota_sector_erased out.0 (x / sector_size) ≡ true
  marked_new x hx hy = ground (arith, erases.marked (x / sector_size))

  marked_old : (i : ℕ) → i < length img → ota_sector_erased out.0 ((start + i) / sector_size) ≡ true
  marked_old i hi = ground (arith, erases.marked ((start + i) / sector_size), h.kept i hi)

  stored :
      (i : ℕ)
      → i < length (img ++ bs)
      → apply_op (write (buffer_base + off) bs) erased_memory (buffer_base + (start + i))
        ≡ get_or (img ++ bs) i 0
  stored i hi = elim (dec_lt i (length img)) [
    | yes old ↦
        write-outside erased_memory off bs (start + i) (inl (omega arith))
        ∙ untouched i old
        ∙ h.held i old
        ∙ sym (get_or-append_left img bs i 0 old)
    | no new ↦
        let within : start + i < off + length bs = omega (arith, length-append img bs) in
        write-inside erased_memory off bs (start + i) (omega arith) within
        ∙ ap (λ t. bit_and t (get_or bs (start + i - off) 0))
            (blank (start + i) (omega arith) (marked_new (start + i) (omega arith) within))
        ∙ program_erased _ (All-get_or IsU8 bs (start + i - off) 0 (omega arith) bytes)
        ∙ ap (λ t. get_or bs t 0) (omega arith)
        ∙ sym (get_or-append_right img bs i 0 (omega arith))
  ]

  pub Holds-stage :
      Holds out.0 (replay (out.1 ++ write (buffer_base + off) bs ∷ []) m) start (img ++ bs)
  unfolding replay
  Holds-stage = rw (replay-append out.1 (write (buffer_base + off) bs ∷ []) m) (record {
    held = stored;
    kept = λ i hi. elim (dec_lt i (length img)) [
      | yes old ↦ marked_old i old
      | no new ↦ marked_new (start + i) (omega arith) (omega (arith, length-append img bs))
    ];
    clean = λ x marked hx.
        write-outside erased_memory off bs x (inr (omega (arith, length-append img bs)))
        ∙ blank x (omega (arith, length-append img bs)) marked;
  })
