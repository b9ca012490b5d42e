-- ===== src/WebSocket/RoundTrip.antt =====
-- `readFrame` on what `writeFrame` wrote.
use mathlib.Core.List.{append_assoc}
use nexus_bench.Base.{
  if◌then◌else◌, ℕ, suc, ◌+◌, ◌/◌, ◌%◌, ◌^◌, ◌<◌, true, false, some, List, [], ◌∷◌, ◌++◌, ◌≡◌, refl,
  ap, subst, ◌∙◌, arith, All, inl, inr, Bool-cases, length, leb,
}
use nexus_bench.WebSocket.{
  FrameError, length_16, length_64, read_extended, MaskKey, got, key_at, key_bytes, length_header,
  mask, read_full, read_length, read_frame, read_body, write_frame, big_endian, read_big_endian,
  bind_parsed, read_key, read_payload,
}
use nexus_bench.WebSocket.Bytes.{
  bit_xor_twice, set_top, opcode_bits, mask_bit, length_bits, read_big_endian-big_endian,
  length-big_endian,
}

abbrev pub IsByte : ℕ → Type 0
IsByte b = b < 256

abbrev pub IsKey : MaskKey → Type 0
IsKey k = IsByte k.first × (IsByte k.second × (IsByte k.third × IsByte k.fourth))

key_at-IsByte : (k : MaskKey) (i : ℕ) → IsKey k → IsByte (key_at k i)
key_at-IsByte k i h = ground arith

pub mask-mask :
    (k : MaskKey) (i : ℕ) (bs : List ℕ) → IsKey k → All IsByte bs → mask k i (mask k i bs) ≡ bs
unfolding mask
mask-mask k i [] hk h = refl
mask-mask k i (b ∷ bs) hk (h, hs) =
    rw (bit_xor_twice b (key_at k i) h (key_at-IsByte k i hk), mask-mask k (suc i) bs hk hs) refl

pub length-mask : (k : MaskKey) (i : ℕ) (bs : List ℕ) → length (mask k i bs) ≡ length bs
unfolding mask
length-mask k i [] = refl
length-mask k i (b ∷ bs) = ap suc (length-mask k (suc i) bs)

pub read_full-append : (xs rest : List ℕ) → read_full (length xs) (xs ++ rest) ≡ some (xs, rest)
unfolding read_full
read_full-append [] rest = refl
read_full-append (x ∷ xs) rest = rw (read_full-append xs rest) refl

read_full_at :
    (n : ℕ) (xs rest : List ℕ) → length xs ≡ n → read_full n (xs ++ rest) ≡ some (xs, rest)
read_full_at n xs rest e =
    subst (λ (m : ℕ). read_full m (xs ++ rest) ≡ some (xs, rest)) e (read_full-append xs rest)

read_extended_at :
    (n v : ℕ) (e : FrameError) (xs rest : List ℕ)
    → length xs ≡ n
    → read_big_endian 0 xs ≡ v
    → read_extended n e (xs ++ rest) ≡ got v rest
read_extended_at n v e xs rest l r = rw (read_extended, read_full_at n xs rest l, r) refl

two_bytes : (n : ℕ) → n < 65536 → read_big_endian 0 (n / 2 ^ 8 % 256 ∷ n % 256 ∷ []) ≡ n
unfolding read_big_endian
two_bytes n h = omega arith

-- The length of an unmasked frame: 7 bits, or 126 and two bytes, or 127 and eight.
unfoldable pub server_length : ℕ → List ℕ
server_length n =
    if leb n 125
    then n ∷ []
    else if leb n 65535
    then 126 ∷ n / 2 ^ 8 % 256 ∷ n % 256 ∷ []
    else 127 ∷ big_endian 8 n

-- The first byte of a length header without its top bit, and the bytes of the extended length.
pub record LengthHeader (n : ℕ) : Type 0 where
  pub code : ℕ
  pub extended : List ℕ
  pub code_small : code < 128
  pub splits : length_header n ≡ (128 + code) ∷ extended
  pub plain : server_length n ≡ code ∷ extended
  pub reads : (rest : List ℕ) → read_length code (extended ++ rest) ≡ got n rest

pub length_header_lem : (n : ℕ) → n < 2 ^ 63 → LengthHeader n
unfolding length_header server_length read_length
length_header_lem n h = elim (Bool-cases (leb n 125)) [
  | inl small ↦ record {
    code = n;
    extended = [];
    code_small = ground arith;
    splits = rw (length_header, small, set_top n (ground arith)) refl;
    plain = rw (server_length, small) refl;
    reads = λ rest. ground arith;
  }
  | inr large ↦ elim (Bool-cases (leb n 65535)) [
    | inl short ↦ record {
      code = 126;
      extended = n / 2 ^ 8 % 256 ∷ n % 256 ∷ [];
      code_small = omega arith;
      splits = rw (length_header, large, short) refl;
      plain = rw (server_length, large, short) refl;
      reads = λ rest.
          read_extended_at 2 n length_16 (n / 2 ^ 8 % 256 ∷ n % 256 ∷ []) rest refl
            (two_bytes n (ground arith));
    }
    | inr long ↦ record {
      code = 127;
      extended = big_endian 8 n;
      code_small = omega arith;
      splits = rw (length_header, large, long) refl;
      plain = rw (server_length, large, long) refl;
      reads = λ rest.
          read_extended_at 8 n length_64 (big_endian 8 n) rest (length-big_endian 8 n)
            (read_big_endian-big_endian 8 n (omega arith));
    }
  ]
]

masked_tail :
    (k : MaskKey) (opcode : ℕ) (payload rest : List ℕ)
    → IsKey k
    → All IsByte payload
    → length payload < 2 ^ 63
    → bind_parsed
        (read_key true (key_bytes k ++ (mask k 0 payload ++ rest)))
        (λ key s. read_payload opcode (length payload) key s)
      ≡ got (record { payload = payload; opcode = opcode }) rest
unfolding read_full
masked_tail k opcode payload rest hk hp hl =
    rw
      (
        read_payload,
        below_sign,
        read_full_at (length payload) (mask k 0 payload) rest (length-mask k 0 payload),
        mask-mask k 0 payload hk hp,
      )
      refl
  where
    below_sign : leb (2 ^ 63) (length payload) ≡ false
    below_sign = ground arith

frame_bytes :
    (k : MaskKey) (opcode : ℕ) (payload rest : List ℕ)
    → opcode < 16
    → (header : LengthHeader (length payload))
    → write_frame k opcode payload ++ rest
      ≡ (128 + opcode)
        ∷ (128 + header.code)
        ∷ (header.extended ++ (key_bytes k ++ (mask k 0 payload ++ rest)))
unfolding write_frame
frame_bytes k opcode payload rest ho header =
    rw (write_frame, set_top opcode (omega arith), header.splits) (simp append_assoc refl)

-- The two header bytes of a masked frame.
read_header :
    (opcode code : ℕ) (s : List ℕ)
    → opcode < 16
    → code < 128
    → read_frame ((128 + opcode) ∷ (128 + code) ∷ s) ≡ read_body opcode true code s
unfolding read_frame
read_header opcode code s ho hc =
    rw (read_frame, opcode_bits opcode ho, mask_bit code hc, length_bits code hc) refl

body_masked :
    (opcode code n : ℕ) (s rest : List ℕ)
    → read_length code s ≡ got n rest
    → read_body opcode true code s
      ≡ bind_parsed (read_key true rest) (λ key s. read_payload opcode n key s)
unfolding read_body
body_masked opcode code n s rest e = rw (read_body, e) refl

-- If the masking key and the payload are bytes, the opcode has 4 bits and the payload is shorter than
-- 2^63 bytes, then `readFrame` reads back the payload and the opcode that `writeFrame` wrote, whichever of the
-- three length forms was chosen, and leaves what follows the frame.
pub read_frame-write_frame :
    (k : MaskKey) (opcode : ℕ) (payload rest : List ℕ)
    → IsKey k
    → opcode < 16
    → All IsByte payload
    → length payload < 2 ^ 63
    → read_frame (write_frame k opcode payload ++ rest)
      ≡ got (record { payload = payload; opcode = opcode }) rest
read_frame-write_frame k opcode payload rest hk ho hp hl =
    let header = length_header_lem (length payload) hl in
    ap read_frame (frame_bytes k opcode payload rest ho header)
    ∙ read_header opcode header.code
        (header.extended ++ (key_bytes k ++ (mask k 0 payload ++ rest))) ho header.code_small
    ∙ body_masked opcode header.code (length payload) _ _ (header.reads _)
    ∙ masked_tail k opcode payload rest hk hp hl
