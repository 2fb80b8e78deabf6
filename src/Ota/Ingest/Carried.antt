-- ===== src/Ota/Ingest/Carried.antt =====
-- src/ota_ingest.h: what the lines of a body carry, said without the parser, and that the machine
-- writes just this.
use teg.Prelude.{
  ℕ, ◌+◌, ◌-◌, ◌/◌, ◌≡◌, ◌≢◌, refl, sym, ap, ◌∙◌, ◌⊎◌, inl, inr, true, false, Bool-cases, List, [],
  ◌∷◌, ◌++◌, append-nil, append_assoc, length, get_or, take, drop, All, All-append, arith,
}
use teg.Ota.Hex.{
  HexParser, HexResult, ok, data_record, eof, err_format, err_checksum, err_after_eof,
  hex_parse_line,
}
use teg.Prelude.Words.{sub32, u32}
use teg.Ota.Hex.Text.{IsBlank, IsText}
use teg.Ota.Hex.Sound.{IsRefused, Outcome, parse_line-Outcome}
use teg.Ota.Flash.{write, buffer_base, sector_size, flash_base}
use teg.Ota.Ingest.{
  OtaIngest, Step, ota_handle_data, stage_data, handle_result, end_line, c_string, ota_feed_byte,
  feed_all, erase_loop, ota_ingest_finish, finish_after, ota_ingest_init,
}
use teg.Ota.Ingest.Invariant.{written, written-append}
use teg.Ota.Ingest.Record.{written-erase_loop}

-- What a line carries: a data record its payload, a blank line and any other record nothing.
abbrev pub Line : List ℕ → List ℕ → Type 0
Line line payload =
    (All IsBlank line × (payload ≡ []))
    ⊎ ((bytes : List ℕ) × IsText line bytes × (get_or bytes 3 0 ≢ 0) × (payload ≡ []))
    ⊎ ((bytes : List ℕ) × IsText line bytes
        × (get_or bytes 3 0 ≡ 0)
        × (payload ≡ take (get_or bytes 0 0) (drop 4 bytes)))

-- What the lines of a text carry, in their order; each ends with a line feed, and counts up to its
-- first NUL.
pub data Carries : List ℕ → List ℕ → Type 0 where
  nothing : Carries [] []
  and_line :
      (text img line payload : List ℕ)
      → Carries text img
      → All (λ c. c ≢ b'\n') line
      → Line (c_string line) payload
      → Carries (text ++ (line ++ b'\n' ∷ [])) (img ++ payload)

abbrev payload_of : HexResult → List ℕ
payload_of (data_record a bs) = bs
payload_of _ = []

abbrev Accepted : HexResult → Type 0
Accepted ok = Unit {0}
Accepted (data_record a bs) = Unit {0}
Accepted eof = Unit {0}
Accepted _ = ⊥

IsRefused-apart : (r : HexResult) → IsRefused r → Accepted r → ⊥
IsRefused-apart ok h a = h
IsRefused-apart (data_record d bs) h a = h
IsRefused-apart eof h a = h
IsRefused-apart err_format h a = a
IsRefused-apart err_checksum h a = a
IsRefused-apart err_after_eof h a = a

Outcome-Line :
    (p : HexParser) (line : List ℕ) (x : HexResult × HexParser)
    → Outcome p line x
    → Accepted x.0
    → Line line (payload_of x.0)
Outcome-Line p line x (inl (refused, same)) a = absurd (IsRefused-apart x.0 refused a)
Outcome-Line p line x (inr (inl (blank, e))) a =
    inl (blank, ap (λ (t : HexResult × HexParser). payload_of t.0) e)
Outcome-Line p line x (inr (inr (len, bytes, r, live, i, text, first, answer))) a = elim answer [
  | inl (kind, e) ↦
      let load : payload_of x.0 ≡ take (get_or bytes 0 0) (drop 4 bytes) =
        ap (λ (t : HexResult × HexParser). payload_of t.0) e
        ∙ ap (λ k. take k (drop 4 bytes)) first in
      inr (inr (bytes, text, kind, load))
  | inr (inl (kind, none_left, e)) ↦
      inr (
        inl
          (bytes, text, omega (arith, kind), ap (λ (t : HexResult × HexParser). payload_of t.0) e))
  | inr (inr (inl (kind, two, e))) ↦
      inr (
        inl
          (bytes, text, omega (arith, kind), ap (λ (t : HexResult × HexParser). payload_of t.0) e))
  | inr (inr (inr (inl (kind, four, e)))) ↦
      inr (
        inl
          (bytes, text, omega (arith, kind), ap (λ (t : HexResult × HexParser). payload_of t.0) e))
  | inr (inr (inr (inr (inl (kind, e))))) ↦ inr (
      inl (bytes, text, ground (arith, kind), ap (λ (t : HexResult × HexParser). payload_of t.0) e))
  | inr (inr (inr (inr (inr (kind, e))))) ↦ absurd (rw e at a)
]

-- A step that goes on wrote what the answer carries, and leaves the line alone.
abbrev Wrote : OtaIngest → List ℕ → Step → Type 0
Wrote s bs x = x.0 ≡ true → (x.1.line ≡ s.line) × (written x.2 ≡ bs)

stage-Wrote :
    (s : OtaIngest) (addr : ℕ) (bs : List ℕ)
    → ((stage_data s addr bs).1.line ≡ s.line) × (written (stage_data s addr bs).2 ≡ bs)
unfolding stage_data written
stage-Wrote s addr bs =
    let off = sub32 addr flash_base in
    let first = off / sector_size in
    let last = (off + length bs - 1) / sector_size in
    let erasing = erase_loop (last + 1 - first) first last s.erased in
    (
      refl,
      written-append erasing.1 (write (buffer_base + off) bs ∷ [])
          ∙ rw (written-erase_loop (last + 1 - first) first last s.erased) (append-nil bs),
    )

handle_data-Wrote :
    (s : OtaIngest) (addr : ℕ) (bs : List ℕ) → Wrote s bs (ota_handle_data s addr bs)
unfolding ota_handle_data written
handle_data-Wrote s addr [] h = (refl, refl)
handle_data-Wrote s addr (b ∷ bs) h = ground (
  arith,
  stage-Wrote s addr (b ∷ bs),
  stage-Wrote (record s { have_data = true; min_addr = addr }) addr (b ∷ bs),
)

handle_result-Wrote :
    (s : OtaIngest) (r : HexResult)
    → (handle_result s r).0 ≡ true
    → Accepted r
      × ((handle_result s r).1.line ≡ s.line)
      × (written (handle_result s r).2 ≡ payload_of r)
unfolding handle_result written
handle_result-Wrote s ok h = (tt, refl, refl)
handle_result-Wrote s (data_record a bs) h = let w = handle_data-Wrote s a bs h in (tt, w.0, w.1)
handle_result-Wrote s eof h = (tt, refl, refl)
handle_result-Wrote s err_format h = absurd (let no_go : false ≡ true = h in cc)
handle_result-Wrote s err_checksum h = absurd (let no_go : false ≡ true = h in cc)
handle_result-Wrote s err_after_eof h = absurd (let no_go : false ≡ true = h in cc)

-- What the machine has taken in: whole lines, which carry the image, and the line it is in.
abbrev pub Taken : OtaIngest → List ℕ → List ℕ → Type 0
Taken s seen img =
    (text : List ℕ) × Carries text img × (seen ≡ text ++ s.line) × All (λ c. c ≢ b'\n') s.line

end_line-Carries :
    (s : OtaIngest) (seen img : List ℕ)
    → Taken s seen img
    → (end_line s).0 ≡ true
    → Carries (seen ++ b'\n' ∷ []) (img ++ written (end_line s).2) × ((end_line s).1.line ≡ [])
unfolding end_line
end_line-Carries s seen img (text, carried, cut, plain) h =
    let line = c_string s.line in
    let x = hex_parse_line s.hex line in
    let fresh : OtaIngest = record s {
      hex = x.1;
      line = [];
      line_count = u32 (s.line_count + 1);
    } in
    let (accepted, empty, wrote) = handle_result-Wrote fresh x.0 h in
    let carries = Outcome-Line s.hex line x (parse_line-Outcome s.hex line) accepted in
    let whole : seen ++ b'\n' ∷ [] ≡ text ++ (s.line ++ b'\n' ∷ []) =
      ap (λ t. t ++ b'\n' ∷ []) cut ∙ append_assoc text s.line (b'\n' ∷ []) in
    (rw (wrote, whole) (and_line text img s.line (payload_of x.0) carried plain carries), empty)

end_line-Taken :
    (s : OtaIngest) (seen img : List ℕ)
    → Taken s seen img
    → (end_line s).0 ≡ true
    → Taken (end_line s).1 (seen ++ b'\n' ∷ []) (img ++ written (end_line s).2)
end_line-Taken s seen img k h =
    let (carried, empty) = end_line-Carries s seen img k h in
    (
      seen ++ b'\n' ∷ [],
      carried,
      sym (append-nil (seen ++ b'\n' ∷ [])) ∙ ap (λ t. (seen ++ b'\n' ∷ []) ++ t) (sym empty),
      rw empty tt,
    )

feed_accepts :
    (s : OtaIngest) (c : ℕ)
    → ((c ≡ b'\n') × (ota_feed_byte s c ≡ end_line s))
      ⊎ ((c ≢ b'\n') × (ota_feed_byte s c ≡ (true, record s { line = s.line ++ c ∷ [] }, [])))
      ⊎ ((ota_feed_byte s c).0 ≡ false)
unfolding ota_feed_byte
feed_accepts s c = ground arith

pub feed_byte-Taken :
    (s : OtaIngest) (c : ℕ) (seen img : List ℕ)
    → Taken s seen img
    → (ota_feed_byte s c).0 ≡ true
    → Taken (ota_feed_byte s c).1 (seen ++ c ∷ []) (img ++ written (ota_feed_byte s c).2)
unfolding written
feed_byte-Taken s c seen img k h = elim (feed_accepts s c) [
  | inl (end, e) ↦ rw (e, end) (end_line-Taken s seen img k (rw e at h))
  | inr (inl (other, e)) ↦
      let (text, carried, cut, plain) = k in
      rw e (
        text,
        rw (append-nil img) carried,
        ap (λ t. t ++ c ∷ []) cut ∙ append_assoc text s.line (c ∷ []),
        All-append (λ d. d ≢ b'\n') s.line (c ∷ []) plain (other, tt),
      )
  | inr (inr e) ↦ absurd (let no_go : false ≡ true = sym e ∙ h in cc)
]

pub feed_all-Taken :
    (cs : List ℕ) (s : OtaIngest) (seen img : List ℕ)
    → Taken s seen img
    → (feed_all s cs).0 ≡ true
    → Taken (feed_all s cs).1 (seen ++ cs) (img ++ written (feed_all s cs).2)
unfolding feed_all written
feed_all-Taken [] s seen img k h = rw (append-nil seen, append-nil img) k
feed_all-Taken (c ∷ cs) s seen img k h = elim (Bool-cases (ota_feed_byte s c).0) [
  | inr bad ↦ absurd (let no_go : false ≡ true = rw bad at h in cc)
  | inl good ↦
      let step = ota_feed_byte s c in
      let more =
        feed_all-Taken cs step.1 (seen ++ c ∷ []) (img ++ written step.2)
          (feed_byte-Taken s c seen img k good) (rw good at h) in
      rw
        (
          good,
          written-append step.2 (feed_all step.1 cs).2,
          ← append_assoc img (written step.2) (written (feed_all step.1 cs).2),
          ← append_assoc seen (c ∷ []) cs,
        )
        more
]

-- The end of the body: a line feed may be missing behind its last line.
abbrev pub Delivers : List ℕ → List ℕ → Type 0
Delivers body img = Carries body img ⊎ Carries (body ++ b'\n' ∷ []) img

finish_ways :
    (s : OtaIngest)
    → ((ota_ingest_finish s).0 ≡ false)
      ⊎ ((s.line ≡ []) × (ota_ingest_finish s ≡ finish_after (true, s, [])))
      ⊎ (ota_ingest_finish s ≡ finish_after (ota_feed_byte s b'\n'))
unfolding ota_ingest_finish
finish_ways s = ground arith

finish_after-same :
    (x : Step) → (finish_after x).0 ≡ true → (x.0 ≡ true) × ((finish_after x).2 ≡ x.2)
finish_after-same (false, s, ops) h = absurd (let no_go : false ≡ true = h in cc)
finish_after-same (true, s, ops) h = (refl, refl)

pub finish-Delivers :
    (s : OtaIngest) (seen img : List ℕ)
    → Taken s seen img
    → (ota_ingest_finish s).0 ≡ true
    → Delivers seen (img ++ written (ota_ingest_finish s).2)
unfolding written
finish-Delivers s seen img k h = elim (finish_ways s) [
  | inl e ↦ absurd (let no_go : false ≡ true = sym e ∙ h in cc)
  | inr (inl (empty, e)) ↦
      let (text, carried, cut, plain) = k in
      let whole : seen ≡ text = cut ∙ ap (λ t. text ++ t) empty ∙ append-nil text in
      let same = finish_after-same (true, s, []) (rw e at h) in
      let wrote : img ++ written (ota_ingest_finish s).2 ≡ img =
        ap (λ (x : Step). img ++ written x.2) e
        ∙ ap (λ t. img ++ written t) same.1
        ∙ append-nil img in
      rw (wrote, whole) (inl carried)
  | inr (inr e) ↦
      let fed = finish_after-same (ota_feed_byte s b'\n') (rw e at h) in
      let wrote : img ++ written (ota_ingest_finish s).2
          ≡ img ++ written (ota_feed_byte s b'\n').2 =
        ap (λ (x : Step). img ++ written x.2) e ∙ ap (λ t. img ++ written t) fed.1 in
      elim (feed_accepts s b'\n') [
        | inl (end, f) ↦
            let goes_on : (end_line s).0 ≡ true = ap (λ (x : Step). x.0) (sym f) ∙ fed.0 in
            rw (wrote, f) (inr (end_line-Carries s seen img k goes_on).0)
        | inr (inl (other, f)) ↦ absurd (other refl)
        | inr (inr f) ↦ absurd (let no_go : false ≡ true = sym f ∙ fed.0 in cc)
      ]
]

init-Taken : Taken ota_ingest_init [] []
unfolding ota_ingest_init
init-Taken = ([], nothing, refl, tt)

-- A body that is accepted from its first byte to the end of the ingest is made of lines, and what is
-- written is what they carry.
pub ingest-Delivers :
    (body : List ℕ)
    → (feed_all ota_ingest_init body).0 ≡ true
    → (ota_ingest_finish (feed_all ota_ingest_init body).1).0 ≡ true
    → Delivers body (
        written (
          (feed_all ota_ingest_init body).2
          ++ (ota_ingest_finish (feed_all ota_ingest_init body).1).2))
ingest-Delivers body fed finished =
    let got = feed_all ota_ingest_init body in
    rw (written-append got.2 (ota_ingest_finish got.1).2) (
      finish-Delivers got.1 body (written got.2)
        (feed_all-Taken body ota_ingest_init [] [] init-Taken fed) finished)
