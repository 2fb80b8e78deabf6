-- ===== src/Ota/Ingest/Invariant.antt =====
-- src/ota_ingest.h: the invariant of the whole machine.
use teg.Prelude.{
  ℕ, ◌+◌, ◌-◌, ◌<◌, ◌≤◌, ◌≡◌, refl, ap, sym, ◌∙◌, Bool, true, false, Option, some, List, [], ◌∷◌,
  ◌++◌, append-nil, append_assoc, length, All,
}
use teg.Prelude.Words.{IsU8}
use teg.Ota.Hex.{HexParser}
use teg.Ota.Hex.Sound.{IsValid}
use teg.Ota.Crc.{crc32_update}
use teg.Ota.Flash.{FlashOp, erase_sector, write, Memory, replay, flash_base, image_max}
use teg.Ota.Ingest.{OtaIngest, OtaError, Step, fail, ota_sector_erased}
use teg.Ota.Ingest.Erase.{InBuffer}
use teg.Ota.Ingest.Staged.{Holds}

-- The bytes that a list of calls writes, in order.
unfoldable pub written : List FlashOp → List ℕ
written [] = []
written (erase_sector a ∷ ops) = written ops
written (write a bs ∷ ops) = bs ++ written ops

pub written-append : (xs ys : List FlashOp) → written (xs ++ ys) ≡ written xs ++ written ys
unfolding written
written-append [] ys = refl
written-append (erase_sector a ∷ xs) ys = written-append xs ys
written-append (write a bs ∷ xs) ys =
    ap (λ t. bs ++ t) (written-append xs ys) ∙ sym (append_assoc bs (written xs) (written ys))

-- Once a record has been staged: the image `img` lies at `min_addr`, and the next record must
-- follow it.
pub record Busy (m : Memory) (s : OtaIngest) (img : List ℕ) : Type 0 where
  pub above : flash_base ≤ s.min_addr
  pub next : s.next_addr ≡ s.min_addr + length img
  pub top : s.max_addr + 1 ≡ s.next_addr
  pub nonempty : 0 < length img
  pub fits : s.min_addr - flash_base + length img ≤ image_max
  pub holds : Holds s.erased m (s.min_addr - flash_base) img

pub record Staged (m : Memory) (s : OtaIngest) (img : List ℕ) : Type 0 where
  pub hex_valid : IsValid s.hex
  pub bitmap : length s.erased ≡ 120
  pub crc_of : s.crc ≡ crc32_update 0xFFFFFFFF img
  pub bytes_of : s.bytes_written ≡ length img
  pub img_IsU8 : All IsU8 img
  pub idle :
      s.have_data ≡ false
      → (img ≡ []) × (s.max_addr ≡ 0) × ((k : ℕ) → ota_sector_erased s.erased k ≡ false)
  pub busy : s.have_data ≡ true → Busy m s img

-- The fields that the staging does not use are free.
pub reframe :
    {m : Memory} {s : OtaIngest} {img : List ℕ} (hex : HexParser) (line : List ℕ) (n : ℕ)
    (e : Option OtaError) (b : Bool)
    → IsValid hex
    → Staged m s img
    → Staged m (record s { hex = hex; line = line; line_count = n; error = e; eof_seen = b }) img
reframe hex line n e b h v = record {
  hex_valid = h;
  bitmap = v.bitmap;
  crc_of = v.crc_of;
  bytes_of = v.bytes_of;
  img_IsU8 = v.img_IsU8;
  idle = v.idle;
  busy = λ t. record {
    above = (v.busy t).above;
    next = (v.busy t).next;
    top = (v.busy t).top;
    nonempty = (v.busy t).nonempty;
    fits = (v.busy t).fits;
    holds = (v.busy t).holds;
  };
}

-- What one step leaves: its calls stay in the buffer, and the memory after them holds the image with
-- the bytes that it wrote behind it.
pub record Good (m : Memory) (img : List ℕ) (x : Step) : Type 0 where
  pub inside : All InBuffer x.2
  pub staged : Staged (replay x.2 m) x.1 (img ++ written x.2)

pub Good-quiet :
    {m : Memory} {s : OtaIngest} {img : List ℕ} (b : Bool) → Staged m s img → Good m img (b, s, [])
unfolding replay written
Good-quiet {img = img} b v = record { inside = tt; staged = rw (append-nil img) v }

pub Good-fail :
    {m : Memory} {s : OtaIngest} {img : List ℕ} (e : OtaError)
    → Staged m s img
    → Good m img (fail s e)
Good-fail {s = s} e v =
    Good-quiet false (reframe s.hex s.line s.line_count (some e) s.eof_seen v.hex_valid v)
