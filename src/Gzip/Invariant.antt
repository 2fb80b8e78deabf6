-- ===== src/Gzip/Invariant.antt =====
-- The inflater's well-formedness: how far the current field has come, and the sizes of the arrays.
use teg.Prelude.{
  ℕ, zero, suc, ◌+◌, ◌*◌, ◌^◌, ◌<◌, ◌≡◌, refl, ◌∙◌, inl, inr, not, ◌||◌, List, [], ◌∷◌, arith, ltb,
  ◌==◌, ltb→lt, lt→ltb, Bool-cases, length, get_or, set, All, bit_or, length-set, All-get_or,
}
use teg.Prelude.Words.{u32, IsU8}
use teg.Prelude.Bits.{bit_or-shift_right}
use teg.Gzip.{
  header_fixed, header_extra_len, header_extra_skip, header_name, header_comment, header_crc,
  deflate, trailer, done, failed, not_gzip, unsupported_method, crc_mismatch, State, GzipError,
  dict_size, GzipInflater, has_flag, after_comment, after_name, after_extra, after_fixed,
  expect_crc, fail, fixed_byte, extra_len_byte, extra_skip_byte, name_byte, comment_byte,
  header_crc_byte, take_trailer, check_trailer,
}

-- How far the current field has come.
abbrev pub Room : State → ℕ → ℕ → Type 0
Room header_fixed n len = n < 10
Room header_extra_len n len = n < 2
Room header_extra_skip n len = (n < len) × (len < 65536)
Room header_name n len = n ≡ 0
Room header_comment n len = n ≡ 0
Room header_crc n len = n < 2
Room deflate n len = n ≡ 0
Room trailer n len = n < 8
Room done n len = Unit
Room failed n len = Unit

pub record IsValid {T : Type 0} (g : GzipInflater T) : Type 0 where
  pub room : Room g.state g.field_bytes g.field_len
  pub scratch : length g.scratch ≡ 10
  pub bytes : All IsU8 g.scratch
  pub trailer : length g.trailer_bytes ≡ 8
  pub offset : g.dict_offset < dict_size

Room-after_comment : (flags len : ℕ) → Room (after_comment flags) 0 len
unfolding after_comment
Room-after_comment flags len = elim (Bool-cases (has_flag flags 1)) [
  | inl e ↦ rw e (omega arith)
  | inr e ↦ rw e refl
]

Room-after_name : (flags len : ℕ) → Room (after_name flags) 0 len
unfolding after_name
Room-after_name flags len = elim (Bool-cases (has_flag flags 4)) [
  | inl e ↦ rw e refl
  | inr e ↦ rw e (Room-after_comment flags len)
]

Room-after_extra : (flags len : ℕ) → Room (after_extra flags) 0 len
unfolding after_extra
Room-after_extra flags len = elim (Bool-cases (has_flag flags 3)) [
  | inl e ↦ rw e refl
  | inr e ↦ rw e (Room-after_name flags len)
]

Room-after_fixed : (flags len : ℕ) → Room (after_fixed flags) 0 len
unfolding after_fixed
Room-after_fixed flags len = elim (Bool-cases (has_flag flags 2)) [
  | inl e ↦ rw e (omega arith)
  | inr e ↦ rw e (Room-after_extra flags len)
]

All-set_byte : (xs : List ℕ) (i b : ℕ) → IsU8 b → All IsU8 xs → All IsU8 (set xs i b)
All-set_byte [] i b hb h = tt
All-set_byte (x ∷ xs) zero b hb h = (hb, h.1)
All-set_byte (x ∷ xs) (suc i) b hb h = (h.0, All-set_byte xs i b hb h.1)

u32_small : (n : ℕ) → n < 65536 → u32 n ≡ n
u32_small n h = omega arith

-- The room that a state has.
pub Room-in :
    {T : Type 0} (st : State) (g : GzipInflater T)
    → st ≡ g.state
    → IsValid g
    → Room st g.field_bytes g.field_len
Room-in st g e h = rw e h.room

-- What the checks of a field change is the room; the arrays stay as long as they are.
module _ {T : Type 0} (g : GzipInflater T) (h : IsValid g) where
  pub fail-IsValid : (e : GzipError) → IsValid (fail g e).1
  unfolding fail
  fail-IsValid e = record {
    room = tt;
    scratch = h.scratch;
    bytes = h.bytes;
    trailer = h.trailer;
    offset = h.offset;
  }

  pub in_state :
      (st : State) (n len : ℕ)
      → Room st n len
      → IsValid (record g { state = st; field_bytes = n; field_len = len })
  in_state st n len r = record {
    room = r;
    scratch = h.scratch;
    bytes = h.bytes;
    trailer = h.trailer;
    offset = h.offset;
  }

module _ {T : Type 0} (g : GzipInflater T) (b : ℕ) (h : IsValid g) (hb : IsU8 b) where
  abbrev scratch' : List ℕ
  scratch' = set g.scratch g.field_bytes b

  -- A byte more in the scratch array, in a state that has room for it.
  scratched :
      (st : State) (n len flags : ℕ)
      → Room st n len
      → IsValid (record g {
        state = st;
        scratch = scratch';
        field_bytes = n;
        field_len = len;
        header_flags = flags;
      })
  scratched st n len flags r = record {
    room = r;
    scratch = length-set g.scratch g.field_bytes b ∙ h.scratch;
    bytes = All-set_byte g.scratch g.field_bytes b hb h.bytes;
    trailer = h.trailer;
    offset = h.offset;
  }

  byte_at : (i : ℕ) → get_or scratch' i 0 < 256
  byte_at i =
      All-get_or IsU8 scratch' i 0 (omega arith) (All-set_byte g.scratch g.field_bytes b hb h.bytes)

  pub fixed_byte-IsValid : g.state ≡ header_fixed → g.field_bytes < 10 → IsValid (fixed_byte g b).1
  unfolding fixed_byte fail
  fixed_byte-IsValid st room =
      let next = scratched g.state (u32 (g.field_bytes + 1)) g.field_len g.header_flags in
      elim (Bool-cases (not (g.field_bytes + 1 == 10))) [
        | inl e ↦ rw e (next (rw st (ground arith)))
        | inr e ↦
            let wrong =
              fail-IsValid
                (record g {
                  state = failed;
                  scratch = scratch';
                  field_bytes = u32 (g.field_bytes + 1);
                })
                (scratched failed (u32 (g.field_bytes + 1)) g.field_len g.header_flags tt) in
            elim (Bool-cases
              (not (get_or scratch' 0 0 == 0x1F) || not (get_or scratch' 1 0 == 0x8B))) [
                | inl f ↦ rw (e, f) (wrong not_gzip)
                | inr f ↦ elim (Bool-cases (not (get_or scratch' 2 0 == 8))) [
                  | inl k ↦ rw (e, f, k) (wrong unsupported_method)
                  | inr k ↦
                      rw (e, f, k)
                        (scratched (after_fixed (get_or scratch' 3 0)) 0 g.field_len
                          (get_or scratch' 3 0)
                          (Room-after_fixed (get_or scratch' 3 0) g.field_len))
                ]
              ]
      ]

  pub extra_len_byte-IsValid :
      g.state ≡ header_extra_len → g.field_bytes < 2 → IsValid (extra_len_byte g b).1
  unfolding extra_len_byte
  extra_len_byte-IsValid st room =
      let len = bit_or (get_or scratch' 0 0) (get_or scratch' 1 0 * 2 ^ 8) in
      let small : len < 65536 = omega (
        arith,
        bit_or-shift_right 8 (get_or scratch' 1 0) (get_or scratch' 0 0) (byte_at 0),
        byte_at 0,
        byte_at 1,
      ) in
      elim (Bool-cases (not (g.field_bytes + 1 == 2))) [
        | inl e ↦ rw e (
            scratched g.state (u32 (g.field_bytes + 1)) g.field_len g.header_flags
              (rw st (ground arith)))
        | inr e ↦ elim (Bool-cases (ltb 0 len)) [
          | inl f ↦
              rw (e, f) (scratched header_extra_skip 0 len g.header_flags (ltb→lt 0 len f, small))
          | inr f ↦
              rw (e, f)
                (scratched (after_extra g.header_flags) 0 len g.header_flags
                  (Room-after_extra g.header_flags len))
        ]
      ]

  pub extra_skip_byte-IsValid :
      g.state ≡ header_extra_skip
      → (g.field_bytes < g.field_len) × (g.field_len < 65536)
      → IsValid (extra_skip_byte g).1
  unfolding extra_skip_byte
  extra_skip_byte-IsValid st room = elim (Bool-cases (g.field_bytes + 1 == g.field_len)) [
    | inl e ↦ rw e (
        in_state g h (after_extra g.header_flags) 0 g.field_len
          (Room-after_extra g.header_flags g.field_len))
    | inr e ↦ rw e (
        in_state g h g.state (u32 (g.field_bytes + 1)) g.field_len
          (rw st ((ground (arith, room.0, room.1), room.1))))
  ]

  pub name_byte-IsValid : g.field_bytes ≡ 0 → IsValid (name_byte g b).1
  unfolding name_byte
  name_byte-IsValid zero_bytes = elim (Bool-cases (b == 0)) [
    | inl e ↦ rw e (
        in_state g h (after_name g.header_flags) g.field_bytes g.field_len
          (rw zero_bytes (Room-after_name g.header_flags g.field_len)))
    | inr e ↦ rw e h
  ]

  pub comment_byte-IsValid : g.field_bytes ≡ 0 → IsValid (comment_byte g b).1
  unfolding comment_byte
  comment_byte-IsValid zero_bytes = elim (Bool-cases (b == 0)) [
    | inl e ↦ rw e (
        in_state g h (after_comment g.header_flags) g.field_bytes g.field_len
          (rw zero_bytes (Room-after_comment g.header_flags g.field_len)))
    | inr e ↦ rw e h
  ]

  pub header_crc_byte-IsValid :
      g.state ≡ header_crc → g.field_bytes < 2 → IsValid (header_crc_byte g).1
  unfolding header_crc_byte
  header_crc_byte-IsValid st room = elim (Bool-cases (g.field_bytes + 1 == 2)) [
    | inl e ↦ rw e (in_state g h deflate 0 g.field_len refl)
    | inr e ↦
        rw e (in_state g h g.state (u32 (g.field_bytes + 1)) g.field_len (rw st (ground arith)))
  ]

  pub trailer-IsValid :
      g.state ≡ trailer → g.field_bytes < 8 → IsValid (check_trailer (take_trailer g b)).1
  unfolding check_trailer take_trailer fail
  trailer-IsValid st room =
      let put : (s : State)
          → Room s (g.field_bytes + 1) g.field_len
          → IsValid (record g {
            state = s;
            trailer_bytes = set g.trailer_bytes g.field_bytes b;
            field_bytes = g.field_bytes + 1;
          }) =
        λ s r. record {
          room = r;
          scratch = h.scratch;
          bytes = h.bytes;
          trailer = length-set g.trailer_bytes g.field_bytes b ∙ h.trailer;
          offset = h.offset;
        } in
      rw (lt→ltb g.field_bytes 8 room) (elim (Bool-cases (not (g.field_bytes + 1 == 8))) [
        | inl e ↦ rw e (put g.state (rw st (ground arith)))
        | inr e ↦
            elim (Bool-cases (not (expect_crc (set g.trailer_bytes g.field_bytes b) == g.crc))) [
              | inl f ↦
                  rw (e, f)
                    (fail-IsValid
                      (record g {
                        state = failed;
                        trailer_bytes = set g.trailer_bytes g.field_bytes b;
                        field_bytes = g.field_bytes + 1;
                      })
                      (put failed tt) crc_mismatch)
              | inr f ↦ rw (e, f) (put done tt)
            ]
      ])
