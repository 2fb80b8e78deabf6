-- ===== src/Ota/Ingest/Erase.antt =====
-- src/ota_ingest.h, the erase-on-demand loop and the sectors that it erases.
use teg.Prelude.{
  ℕ, zero, suc, ◌+◌, ◌*◌, ◌/◌, ◌%◌, ◌<◌, ◌≤◌, ◌≡◌, refl, ap, ◌∙◌, Bool, true, not, ◌&&◌, List, [],
  ◌∷◌, ◌++◌, leb, if◌then◌else◌, length, All, All-append, arith,
}
use teg.Ota.Flash.{
  FlashOp, erase_sector, write, Memory, replay, replay-append, buffer_base, image_max, sector_size,
  sector_count,
}
use teg.Ota.Ingest.{ota_sector_erased, ota_mark_erased, erase_loop}
use teg.Ota.Ingest.Bitmap.{length-mark, erased-mark}

-- An operation that stays inside the staging buffer: a whole sector of it, or at most 255 bytes.
abbrev pub InBuffer : FlashOp → Type 0
InBuffer (erase_sector a) =
    (buffer_base ≤ a) × (a + sector_size ≤ buffer_base + image_max) × (a % sector_size ≡ 0)
InBuffer (write a bs) =
    (buffer_base ≤ a) × (a + length bs ≤ buffer_base + image_max) × (length bs < 256)

abbrev pub in_range : ℕ → ℕ → ℕ → Bool
in_range sec last k = leb sec k && leb k last

abbrev pub fresh_in : ℕ → ℕ → List ℕ → ℕ → Bool
fresh_in sec last e k = in_range sec last k && not (ota_sector_erased e k)

-- What a run of the loop over the sectors from `sec` to `last` leaves behind.
pub record Erases (sec last : ℕ) (e : List ℕ) (out : List ℕ × List FlashOp) : Type 0 where
  pub size : length out.0 ≡ length e
  pub marked :
      (k : ℕ)
      → ota_sector_erased out.0 k ≡ (if in_range sec last k then true else ota_sector_erased e k)
  pub inside : All InBuffer out.1
  pub memory :
      (m : Memory) (off : ℕ)
      → replay out.1 m (buffer_base + off)
        ≡ (if fresh_in sec last e (off / sector_size) then 0xFF else m (buffer_base + off))

-- One round that goes on, with the state and the calls of the round.
abbrev round_bitmap : ℕ → List ℕ → List ℕ
round_bitmap sec e = if not (ota_sector_erased e sec) then ota_mark_erased e sec else e

abbrev round_ops : ℕ → List ℕ → List FlashOp
round_ops sec e =
    if not (ota_sector_erased e sec)
    then erase_sector (buffer_base + sec * sector_size) ∷ []
    else []

erase_loop-round :
    (n sec last : ℕ) (e : List ℕ)
    → sec ≤ last
    → sec < sector_count
    → erase_loop (suc n) sec last e ≡ (
      (erase_loop n (sec + 1) last (round_bitmap sec e)).0,
      round_ops sec e ++ (erase_loop n (sec + 1) last (round_bitmap sec e)).1,
    )
unfolding erase_loop
erase_loop-round n sec last e h k = ground arith

length-round : (sec : ℕ) (e : List ℕ) → length (round_bitmap sec e) ≡ length e
length-round sec e = ground (arith, length-mark e sec)

round-marked :
    (sec k : ℕ) (e : List ℕ)
    → sec / 8 < length e
    → ota_sector_erased (round_bitmap sec e) k
      ≡ (if in_range sec sec k then true else ota_sector_erased e k)
round-marked sec k e h = ground (arith, erased-mark e sec k h)

round-memory :
    (sec : ℕ) (e : List ℕ) (m : Memory) (off : ℕ)
    → replay (round_ops sec e) m (buffer_base + off)
      ≡ (if fresh_in sec sec e (off / sector_size) then 0xFF else m (buffer_base + off))
unfolding replay
round-memory sec e m off = ground arith

round-inside : (sec : ℕ) (e : List ℕ) → sec < sector_count → All InBuffer (round_ops sec e)
round-inside sec e h = ground arith

pub erase_loop-Erases :
    (n sec last : ℕ) (e : List ℕ)
    → sec + n ≡ last + 1
    → last < sector_count
    → length e ≡ 120
    → Erases sec last e (erase_loop n sec last e)
erase_loop-Erases zero sec last e hn hl he = record {
  size = unfold erase_loop in refl;
  marked = λ k. unfold erase_loop in ground arith;
  inside = unfold erase_loop in tt;
  memory = λ m off. unfold erase_loop replay in ground arith;
}
erase_loop-Erases (suc n) sec last e hn hl he =
    let ih : Erases (sec + 1) last (round_bitmap sec e)
        (erase_loop n (sec + 1) last (round_bitmap sec e)) =
      erase_loop-Erases n (sec + 1) last (round_bitmap sec e) (omega arith) hl
        (length-round sec e ∙ he) in
    rw (erase_loop-round n sec last e (omega arith) (omega arith)) (record {
      size = ih.size ∙ length-round sec e;
      marked = λ k. ground (arith, ih.marked k, round-marked sec k e (omega arith));
      inside = All-append InBuffer (round_ops sec e) _ (round-inside sec e (omega arith)) ih.inside;
      memory = λ m off.
          ap (λ f. f (buffer_base + off)) (replay-append (round_ops sec e) _ m)
          ∙ ih.memory (replay (round_ops sec e) m) off
          ∙ ground (
            arith,
            round-marked sec (off / sector_size) e (omega arith),
            round-memory sec e m off,
          );
    })
