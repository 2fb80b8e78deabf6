-- ===== src/Ota/Ingest/Finish.antt =====
-- src/ota_ingest.h, `otaIngestFinish`, and the machine from its start to its end.
use teg.Prelude.{ℕ, ◌<◌, ◌≡◌, ◌⊎◌, inl, inr, true, false, Option, some, List, [], arith}
use teg.Ota.Flash.{Memory}
use teg.Ota.Ingest.{
  OtaIngest, OtaError, Step, ota_feed_byte, finish_checks, finish_after, ota_ingest_finish,
  truncated, no_data,
}
use teg.Ota.Ingest.Invariant.{Staged, Good, Good-quiet, reframe}
use teg.Ota.Ingest.Feed.{feed_byte-Good}

finish_cases :
    (s : OtaIngest)
    → (finish_checks s ≡ (false, record s { error = some truncated }))
      ⊎ (finish_checks s ≡ (false, record s { error = some no_data }))
      ⊎ ((finish_checks s ≡ (true, s)) × (s.eof_seen ≡ true) × (0 < s.bytes_written))
unfolding finish_checks
finish_cases s = ground arith

-- A result `true` of the final checks means that the EOF record and some data were seen.
abbrev pub Finished : Step → Type 0
Finished x = x.0 ≡ true → (x.1.eof_seen ≡ true) × (0 < x.1.bytes_written)

finish_after-Good :
    {m : Memory} {img : List ℕ} (x : Step)
    → Good m img x
    → Good m img (finish_after x) × Finished (finish_after x)
finish_after-Good (false, s, ops) g = (g, λ e. absurd (cc))
finish_after-Good {m} {img} (true, s, ops) g = elim (finish_cases s) [
  | inl e ↦ rw e (quietly (some truncated), λ t. absurd (cc))
  | inr (inl e) ↦ rw e (quietly (some no_data), λ t. absurd (cc))
  | inr (inr (e, seen, some_bytes)) ↦
      rw e (record { inside = g.inside; staged = g.staged }, λ t. (seen, some_bytes))
]
  where
    quietly : (e : Option OtaError) → Good m img (false, record s { error = e }, ops)
    quietly e = record {
      inside = g.inside;
      staged = reframe s.hex s.line s.line_count e s.eof_seen g.staged.hex_valid g.staged;
    }

finish_paths :
    (s : OtaIngest)
    → (ota_ingest_finish s ≡ (false, s, []))
      ⊎ (ota_ingest_finish s ≡ finish_after (true, s, []))
      ⊎ (ota_ingest_finish s ≡ finish_after (ota_feed_byte s b'\n'))
unfolding ota_ingest_finish
finish_paths s = ground arith

-- The end of a stream keeps the invariant, and succeeds only after an EOF record and some data.
pub finish-Good :
    {m : Memory} {s : OtaIngest} {img : List ℕ}
    → Staged m s img
    → Good m img (ota_ingest_finish s) × Finished (ota_ingest_finish s)
finish-Good {m} {s} {img} v = elim (finish_paths s) [
  | inl e ↦ rw e (Good-quiet false v, λ t. absurd (cc))
  | inr (inl e) ↦ rw e (finish_after-Good (true, s, []) (Good-quiet true v))
  | inr (inr e) ↦ rw e (finish_after-Good (ota_feed_byte s b'\n') (feed_byte-Good b'\n' v))
]
