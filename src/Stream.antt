-- ===== src/Stream.antt =====
-- src/stream_ring.h: the two buffers of streamed waveform playback, shared by the capture interrupt
-- and the main loop. The interrupt runs to completion on a single core, so a call of `next` is one
-- step between two steps of the loop. Each word of `published` holds a sample count in its low 16
-- bits and the owner above; `buffers` is the memory that the caller owns.
pub mod Owner
pub mod Steps
use teg.Prelude.{ℕ, ◌+◌, Bool, true, false, not, ◌&&◌, leb, ◌==◌, if◌then◌else◌}
use teg.Prelude.Words.{u16, add32}

abbrev pub refill_requested : ℕ
refill_requested = 65536

abbrev pub filling : ℕ
filling = 131072

-- Samples are only moved, so a sample is any number.
pub record StreamRing : Type 0 where
  pub published0 : ℕ
  pub published1 : ℕ
  pub active : ℕ
  pub index : ℕ
  pub last_sample : ℕ
  pub underruns : ℕ

abbrev pub Buffers : Type 0
Buffers = ℕ → ℕ → ℕ

unfoldable pub reset : StreamRing
reset = record {
  published0 = 0;
  published1 = 0;
  active = 0;
  index = 0;
  last_sample = 0;
  underruns = 0;
}

abbrev pub published : StreamRing → ℕ → ℕ
published r k = if k == 0 then r.published0 else r.published1

abbrev pub publish : StreamRing → ℕ → ℕ → StreamRing
publish r k v = if k == 0 then record r { published0 = v } else record r { published1 = v }

-- `active ^ 1` on 0 and 1
abbrev pub flip : ℕ → ℕ
flip k = if k == 0 then 1 else 0

-- A compare-and-exchange: whether it succeeded, and the ring after it.
unfoldable pub compare_exchange : StreamRing → ℕ → ℕ → ℕ → Bool × StreamRing
compare_exchange r k expected desired =
    if published r k == expected then (true, publish r k desired) else (false, r)

unfoldable pub read_sample : StreamRing → Buffers → StreamRing × ℕ
read_sample r buffers =
    let v = buffers r.active r.index in (record r { last_sample = v; index = u16 (r.index + 1) }, v)

-- A published buffer that has been played to its end is handed back.
unfoldable pub hand_back : StreamRing → StreamRing
hand_back r =
    let valid = u16 (published r r.active) in
    if not (valid == 0) && leb valid r.index
    then record (publish r r.active refill_requested) { active = flip r.active; index = 0 }
    else r

-- With nothing to play in the active buffer: ask for it, and try the other one.
unfoldable pub starve : StreamRing → Buffers → StreamRing × ℕ
starve r buffers =
    let asked =
      if published r r.active == 0 then (compare_exchange r r.active 0 refill_requested).1 else r in
    let other = flip r.active in
    let other_state = published asked other in
    let asked_both =
      if other_state == 0 then (compare_exchange asked other 0 refill_requested).1 else asked in
    if not (u16 other_state == 0)
    then read_sample (record asked { active = other; index = 0 }) buffers
    else (record asked_both { underruns = add32 asked_both.underruns 1 }, asked_both.last_sample)

unfoldable pub next : StreamRing → Buffers → StreamRing × ℕ
next r buffers =
    let r' = hand_back r in
    if u16 (published r' r'.active) == 0 then starve r' buffers else read_sample r' buffers

unfoldable pub refill_needed : StreamRing → ℕ → Bool
refill_needed r k = published r k == refill_requested

unfoldable pub begin_refill : StreamRing → ℕ → Bool × StreamRing
begin_refill r k = compare_exchange r k refill_requested filling

unfoldable pub mark_filled : StreamRing → ℕ → ℕ → StreamRing
mark_filled r k n = publish r k n

unfoldable pub valid_count : StreamRing → ℕ → ℕ
valid_count r k = u16 (published r k)
