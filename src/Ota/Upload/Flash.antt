-- ===== src/Ota/Upload/Flash.antt =====
-- src/ota.cpp, `otaIngestStream`: what an upload may do to the flash.
use teg.Prelude.{
  ℕ, ◌+◌, ◌-◌, ◌<◌, ◌≤◌, ◌≡◌, refl, ◌∙◌, ◌⊎◌, inl, inr, Bool-cases, ◌&&◌, some, List, [], ◌∷◌, ltb,
  length, take, get_or, All, arith,
}
use teg.Prelude.Words.{IsU8}
use teg.Ota.Crc.Xor.{bit_and-le}
use teg.Ota.Flash.{FlashOp, erase_sector, write, Memory, apply_op, replay, buffer_base, image_max}
use teg.Ota.Ingest.{OtaIngest, Step, stalled, ota_ingest_init, ota_ingest_finish, feed_all}
use teg.Ota.Ingest.Erase.{InBuffer}
use teg.Ota.Ingest.Invariant.{Good, reframe}
use teg.Ota.Ingest.Feed.{feed_all-Good, init-Staged, Good-then}
use teg.Ota.Ingest.Finish.{Finished, finish-Good}
use teg.Ota.Upload.{Ota, receive, receive_all, ota_ingest_stream}

abbrev pub IsByteMemory : Memory → Type 0
IsByteMemory m = (x : ℕ) → IsU8 (m x)

pub apply_op-IsByteMemory :
    (op : FlashOp) (m : Memory) → IsByteMemory m → IsByteMemory (apply_op op m)
unfolding apply_op
apply_op-IsByteMemory (erase_sector a) m h x = ground (arith, h x)
apply_op-IsByteMemory (write a bs) m h x =
    ground (arith, h x, bit_and-le (m x) (get_or bs (x - a) 0))

pub replay-IsByteMemory :
    (ops : List FlashOp) (m : Memory) → IsByteMemory m → IsByteMemory (replay ops m)
unfolding replay
replay-IsByteMemory [] m h = h
replay-IsByteMemory (op ∷ ops) m h =
    replay-IsByteMemory ops (apply_op op m) (apply_op-IsByteMemory op m h)

abbrev pub OutsideBuffer : ℕ → Type 0
OutsideBuffer x = (x < buffer_base) ⊎ (buffer_base + image_max ≤ x)

apply_op-outside :
    (op : FlashOp) (m : Memory) (x : ℕ) → InBuffer op → OutsideBuffer x → apply_op op m x ≡ m x
unfolding apply_op
apply_op-outside (erase_sector a) m x h out = ground arith
apply_op-outside (write a bs) m x h out = ground arith

replay-outside :
    (ops : List FlashOp) (m : Memory) (x : ℕ)
    → All InBuffer ops
    → OutsideBuffer x
    → replay ops m x ≡ m x
unfolding replay
replay-outside [] m x h out = refl
replay-outside (op ∷ ops) m x h out =
    replay-outside ops (apply_op op m) x h.1 out ∙ apply_op-outside op m x h.0 out

receive-Good : (m : Memory) (expected : ℕ) (body : List ℕ) → Good m [] (receive expected body)
unfolding receive
receive-Good m expected body =
    let x : Step = feed_all ota_ingest_init (take expected body) in
    let g : Good m [] x = feed_all-Good (take expected body) m ota_ingest_init [] (init-Staged m) in
    let s : OtaIngest = x.1 in
    elim (Bool-cases (x.0 && ltb (length body) expected)) [
      | inl short ↦ rw short (record {
        inside = g.inside;
        staged =
            reframe s.hex s.line s.line_count (some stalled) s.eof_seen g.staged.hex_valid g.staged;
      })
      | inr full ↦ rw full (record { inside = g.inside; staged = g.staged })
    ]

-- The whole stream, its end included: the flash calls stay within the buffer, the flash holds what
-- the state describes, and success means that the EOF record and some data were seen.
pub receive_all-Good :
    (m : Memory) (expected : ℕ) (body : List ℕ)
    → Good m [] (receive_all expected body) × Finished (receive_all expected body)
unfolding receive_all
receive_all-Good m expected body =
    let x : Step = receive expected body in
    let g : Good m [] x = receive-Good m expected body in
    let y : Step = ota_ingest_finish x.1 in
    let f = finish-Good g.staged in
    elim (Bool-cases x.0) [
      | inl good ↦ rw good (Good-then y.0 g f.0, f.1)
      | inr bad ↦ rw bad (record { inside = g.inside; staged = g.staged }, λ e. absurd (cc))
    ]

stream-ops :
    (m : Memory) (o : Ota) (expected : ℕ) (body : List ℕ)
    → ((ota_ingest_stream m o expected body).2 ≡ [])
      ⊎ ((ota_ingest_stream m o expected body).2 ≡ (receive_all expected body).2)
unfolding ota_ingest_stream
stream-ops m o expected body = ground arith

-- No upload, valid or malicious, changes a byte of the flash outside the staging buffer: the running
-- firmware below it and the emulated EEPROM above it stay as they are.
pub stream-outside :
    (m : Memory) (o : Ota) (expected : ℕ) (body : List ℕ) (x : ℕ)
    → OutsideBuffer x
    → replay (ota_ingest_stream m o expected body).2 m x ≡ m x
stream-outside m o expected body x out = elim (stream-ops m o expected body) [
  | inl e ↦ rw e (unfold replay in refl)
  | inr e ↦ rw e (
      replay-outside (receive_all expected body).2 m x (receive_all-Good m expected body).0.inside
        out)
]
