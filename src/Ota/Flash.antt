-- ===== src/Ota/Flash.antt =====
-- The staging buffer of src/ota_ingest.h, and what its two flash callbacks do.
-- `OtaFlashOps` holds function pointers, so the model records the calls in order. `replay` is the
-- documented behaviour of the part behind them: an erase sets a sector to 0xFF, and a program
-- operation can only clear bits.
use teg.Prelude.{
  ℕ, ◌+◌, ◌-◌, ◌/◌, ◌≡◌, refl, List, [], ◌∷◌, ◌++◌, ltb, leb, ◌&&◌, if◌then◌else◌, length, get_or,
  bit_and,
}

abbrev pub flash_base : ℕ
flash_base = 0x60000000

abbrev pub buffer_base : ℕ
buffer_base = 0x60400000

abbrev pub image_max : ℕ
image_max = 0x003C0000

abbrev pub sector_size : ℕ
sector_size = 4096

abbrev pub sector_count : ℕ
sector_count = image_max / sector_size

pub data FlashOp : Type 0 where
  erase_sector : ℕ → FlashOp
  write : ℕ → List ℕ → FlashOp

abbrev pub Memory : Type 0
Memory = ℕ → ℕ

unfoldable pub apply_op : FlashOp → Memory → Memory
apply_op (erase_sector a) m = λ x. if leb a x && ltb x (a + sector_size) then 0xFF else m x
apply_op (write a bs) m =
    λ x. if leb a x && ltb x (a + length bs) then bit_and (m x) (get_or bs (x - a) 0) else m x

unfoldable pub replay : List FlashOp → Memory → Memory
unfolding apply_op
replay [] m = m
replay (op ∷ ops) m = replay ops (apply_op op m)

pub replay-append :
    (xs ys : List FlashOp) (m : Memory) → replay (xs ++ ys) m ≡ replay ys (replay xs m)
unfolding replay
replay-append [] ys m = refl
replay-append (x ∷ xs) ys m = replay-append xs ys (apply_op x m)
