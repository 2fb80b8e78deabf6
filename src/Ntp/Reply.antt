-- ===== src/Ntp/Reply.antt =====
-- src/ntp_utils.h: a reply, and the token that ties it to its request.
use teg.Prelude.{
  ℕ, zero, suc, ◌+◌, ◌-◌, All, sym, get_or-append_right, ◌*◌, ◌/◌, ◌%◌, ◌^◌, ◌<◌, ◌≤◌, some, List,
  [], ◌∷◌, ◌++◌, ◌≡◌, ◌≢◌, ◌↔◌, ◌⊎◌, refl, ap, ◌∙◌, length, length-append, drop-append, get_or,
  drop, append_assoc, bit_or, arith,
}
use teg.Prelude.Bits.{bit_or-shift, word_be}
use teg.Prelude.Words.{IsU8}
use native.Mathlib.Nat.{pow-suc}
use teg.Ntp.{
  write_be, read_be, ntp_write_u64, ntp_read_u64, build_ntp_request, validate_ntp_response,
  parse_ntp_seconds, ntp_to_unix_epoch,
}

-- `(value << 8) | byte`
push : ℕ → ℕ → ℕ
push value byte = bit_or (value * 2 ^ 8 % 2 ^ 64) byte

push-digits : (value : ℕ) → value < 2 ^ 64 → push (value / 2 ^ 8) (value % 2 ^ 8) ≡ value
unfolding push
push-digits value h =
    let e : value / 2 ^ 8 * 2 ^ 8 % 2 ^ 64 ≡ value / 2 ^ 8 * 2 ^ 8 = omega arith in
    rw e (omega (arith, bit_or-shift 8 (value / 2 ^ 8) (value % 2 ^ 8) (omega arith)))

read_last :
    (n acc : ℕ) (xs : List ℕ) (byte : ℕ) (rest : List ℕ)
    → length xs ≡ n
    → read_be (suc n) acc (xs ++ byte ∷ rest) ≡ push (read_be n acc (xs ++ byte ∷ rest)) byte
unfolding read_be push
read_last zero acc [] byte rest len = refl
read_last zero acc (x ∷ xs) byte rest len = absurd (omega (arith, len))
read_last (suc n) acc [] byte rest len = absurd (omega (arith, len))
read_last (suc n) acc (x ∷ xs) byte rest len =
    read_last n (push acc x) xs byte rest (omega (arith, len))

length-write_be : (n value : ℕ) → length (write_be n value) ≡ n
unfolding write_be
length-write_be zero value = refl
length-write_be (suc n) value = omega (
  arith,
  length-append (write_be n (value / 2 ^ 8)) (value % 256 ∷ []),
  length-write_be n (value / 2 ^ 8),
)

read-write_be :
    (n value : ℕ) (rest : List ℕ)
    → value < 2 ^ 64
    → value < 256 ^ n
    → read_be n 0 (write_be n value ++ rest) ≡ value
unfolding write_be read_be
read-write_be zero value rest h small = omega (arith, small)
read-write_be (suc n) value rest h small =
    let high = write_be n (value / 2 ^ 8) in
    let bound : value / 2 ^ 8 < 256 ^ n = omega (arith, pow-suc 256 n) in
    rw
      (
        append_assoc high (value % 256 ∷ []) rest,
        read_last n 0 high (value % 256) rest (length-write_be n (value / 2 ^ 8)),
        read-write_be n (value / 2 ^ 8) (value % 256 ∷ rest) (omega arith) bound,
      )
      (push-digits value h)

-- A 64-bit value comes back from its bytes, whatever follows them.
pub read-write_u64 :
    (value : ℕ) (rest : List ℕ)
    → value < 2 ^ 64
    → ntp_read_u64 (ntp_write_u64 value ++ rest) ≡ value
unfolding ntp_read_u64 ntp_write_u64
read-write_u64 value rest h = read-write_be 8 value rest h (omega arith)

-- The reply that a server makes to a request: it copies the last eight bytes of the request.
pub reply : ℕ → ℕ → List ℕ → ℕ → List ℕ → List ℕ
reply first stratum head token rest =
    first ∷ stratum ∷ (head ++ (drop 40 (build_ntp_request token) ++ rest))

-- The first two bytes of a synchronised server's reply in version 3 or 4.
abbrev pub IsServer : ℕ → ℕ → Type 0
IsServer first stratum =
    (first / 2 ^ 6 ≢ 3)
    × ((first / 2 ^ 3 % 8 ≡ 3) ⊎ (first / 2 ^ 3 % 8 ≡ 4))
    × (first % 8 ≡ 4)
    × (1 ≤ stratum)
    × (stratum ≤ 15)

reply-token :
    (first stratum : ℕ) (head : List ℕ) (token : ℕ) (rest : List ℕ)
    → length head ≡ 22
    → token < 2 ^ 64
    → ntp_read_u64 (drop 24 (reply first stratum head token rest)) ≡ token
unfolding reply build_ntp_request
reply-token first stratum head token rest len h =
    let tail = ntp_write_u64 token ++ rest in
    let e : drop 22 (head ++ tail) ≡ tail = rw len at (drop-append head tail) in
    ap ntp_read_u64 e ∙ read-write_u64 token rest h

validate_iff :
    (packet : List ℕ) (token seconds : ℕ)
    → validate_ntp_response packet token ≡ some seconds ↔ (
        (ntp_read_u64 (drop 24 packet) ≡ token)
        × IsServer (get_or packet 0 0) (get_or packet 1 0)
        × (parse_ntp_seconds packet ≡ seconds)
        × (2208988800 ≤ seconds))
unfolding validate_ntp_response
validate_iff packet token seconds = ground arith

-- The transmit time stands behind the head, the token and the time of receipt.
transmit :
    (head : List ℕ) (token : ℕ) (received time : List ℕ) (i : ℕ)
    → length head ≡ 22
    → length received ≡ 8
    → get_or (head ++ (write_be 8 token ++ (received ++ time))) (38 + i) 0 ≡ get_or time i 0
transmit head token received time i len size =
    let token_size = length-write_be 8 token in
    get_or-append_right head (write_be 8 token ++ (received ++ time)) (38 + i) 0
      (omega (arith, len))
    ∙ get_or-append_right (write_be 8 token) (received ++ time) (38 + i - length head) 0
        (omega (arith, len, token_size))
    ∙ get_or-append_right received time (38 + i - length head - length (write_be 8 token)) 0
        (omega (arith, len, token_size, size))
    ∙ ap (λ n. get_or time n 0) (omega (arith, len, token_size, size))

reply-transmit :
    (first stratum : ℕ) (head : List ℕ) (token : ℕ) (received : List ℕ) (t0 t1 t2 t3 : ℕ)
    (fraction : List ℕ)
    → length head ≡ 22
    → length received ≡ 8
    → All IsU8 (t0 ∷ t1 ∷ t2 ∷ t3 ∷ [])
    → parse_ntp_seconds (reply first stratum head token (received ++ t0 ∷ t1 ∷ t2 ∷ t3 ∷ fraction))
      ≡ t0 * 16777216 + t1 * 65536 + t2 * 256 + t3
unfolding parse_ntp_seconds reply build_ntp_request ntp_write_u64
reply-transmit first stratum head token received t0 t1 t2 t3 fraction len size h =
    let time = t0 ∷ t1 ∷ t2 ∷ t3 ∷ fraction in
    let at : (i : ℕ)
        → get_or (head ++ (write_be 8 token ++ (received ++ time))) (38 + i) 0 ≡ get_or time i 0 =
      λ i. transmit head token received time i len size in
    rw (at 0, at 1, at 2, at 3) (word_be t0 t1 t2 t3 h.0 h.1.0 h.1.1.0 h.1.1.1.0)

ntp_to_unix_epoch-eq :
    (seconds : ℕ)
    → 2208988800 ≤ seconds
    → seconds < 2 ^ 32
    → 2208988800 + ntp_to_unix_epoch seconds ≡ seconds
unfolding ntp_to_unix_epoch
ntp_to_unix_epoch-eq seconds h small = omega arith

-- A subtraction that does not wrap started after 1970.
ntp_to_unix_epoch-late :
    (seconds : ℕ)
    → seconds < 2 ^ 32
    → 2208988800 + ntp_to_unix_epoch seconds ≡ seconds
    → 2208988800 ≤ seconds
unfolding ntp_to_unix_epoch
ntp_to_unix_epoch-late seconds small h = omega (arith, h)

-- A reply to the request with `token` is taken for a wait on `awaited` exactly when the
-- tokens are the same, the server is synchronised and speaks version 3 or 4, and its transmit time,
-- the four bytes at offset 40 with the most significant first, is not before 1970; that time in
-- seconds is then the answer, and its Unix time is the one 2208988800 seconds less.
pub validate-reply :
    (first stratum : ℕ) (head : List ℕ) (token : ℕ) (received : List ℕ) (t0 t1 t2 t3 : ℕ)
    (fraction : List ℕ) (awaited seconds : ℕ)
    → length head ≡ 22
    → token < 2 ^ 64
    → length received ≡ 8
    → All IsU8 (t0 ∷ t1 ∷ t2 ∷ t3 ∷ [])
    → validate_ntp_response
          (reply first stratum head token (received ++ t0 ∷ t1 ∷ t2 ∷ t3 ∷ fraction))
          awaited
        ≡ some seconds
      ↔ ((token ≡ awaited)
          × IsServer first stratum
          × (seconds ≡ t0 * 16777216 + t1 * 65536 + t2 * 256 + t3)
          × (2208988800 + ntp_to_unix_epoch seconds ≡ seconds))
unfolding reply
validate-reply first stratum head token received t0 t1 t2 t3 fraction awaited seconds len h size
      bytes =
    let rest = received ++ t0 ∷ t1 ∷ t2 ∷ t3 ∷ fraction in
    let checks =
      rw (reply-token first stratum head token rest len h) at
        (validate_iff (reply first stratum head token rest) awaited seconds) in
    let time =
      reply-transmit first stratum head token received t0 t1 t2 t3 fraction len size bytes in
    let small : t0 * 16777216 + t1 * 65536 + t2 * 256 + t3 < 2 ^ 32 = omega (arith, bytes) in
    (
      λ e.
          let (same, server, at, late) = checks.0 e in
          let sum : seconds ≡ t0 * 16777216 + t1 * 65536 + t2 * 256 + t3 = sym at ∙ time in
          (same, server, sum, ntp_to_unix_epoch-eq seconds late (omega (arith, sum, small))),
      λ h. checks.1 (
        h.0,
        h.1,
        time ∙ sym h.2,
        ntp_to_unix_epoch-late seconds (omega (arith, h.2, small)) h.3,
      ),
    )
