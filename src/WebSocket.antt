-- ===== src/WebSocket.antt =====
-- internal/botfleet/websocket.go: WebSocket frames and the exchange of one order. A byte is a natural
-- number below 256. Given are the connection (what it still delivers, and which writes succeed), the
-- random masking keys, and the JSON codec; a read that ends in any error is the end of the stream. The
-- opening handshake is HTTP and is not modelled.
pub mod Bytes
pub mod RoundTrip
pub mod Consumes
pub mod Exchange
use Prim.Native.Nat.{bit_and, bit_or, bit_xor}
use nexus_bench.Base.{
  ℕ, zero, suc, ◌+◌, ◌*◌, ◌/◌, ◌%◌, ◌^◌, Bool, true, false, not, Option, none, some, List, [], ◌∷◌,
  ◌++◌, length, leb, ltb, ◌==◌, if◌then◌else◌,
}
use nexus_bench.Fleet.{Order, Fill}

pub record MaskKey : Type 0 where
  pub first : ℕ
  pub second : ℕ
  pub third : ℕ
  pub fourth : ℕ

abbrev pub ws_opcode_text : ℕ
ws_opcode_text = 0x1

abbrev pub ws_opcode_binary : ℕ
ws_opcode_binary = 0x2

abbrev pub ws_opcode_ping : ℕ
ws_opcode_ping = 0x9

abbrev pub ws_opcode_pong : ℕ
ws_opcode_pong = 0xA

abbrev pub ws_opcode_close : ℕ
ws_opcode_close = 0x8

abbrev pub key_bytes : MaskKey → List ℕ
key_bytes k = k.first ∷ k.second ∷ k.third ∷ k.fourth ∷ []

-- `maskKey[i%4]`
abbrev pub key_at : MaskKey → ℕ → ℕ
key_at k i =
    if i % 4 == 0
    then k.first
    else if i % 4 == 1
    then k.second
    else if i % 4 == 2
    then k.third
    else k.fourth

-- `b ^ maskKey[i%4]` for each byte; `i` is the index of the first
unfoldable pub mask : MaskKey → ℕ → List ℕ → List ℕ
mask k i [] = []
mask k i (b ∷ bs) = bit_xor b (key_at k i) ∷ mask k (suc i) bs

-- the `n` lowest bytes, the highest first: `binary.BigEndian.PutUint64` for eight
unfoldable pub big_endian : ℕ → ℕ → List ℕ
big_endian zero v = []
big_endian (suc n) v = big_endian n (v / 256) ++ v % 256 ∷ []

-- `binary.BigEndian.Uint16` and `Uint64`, on what precedes and the bytes
unfoldable pub read_big_endian : ℕ → List ℕ → ℕ
read_big_endian acc [] = acc
read_big_endian acc (b ∷ bs) = read_big_endian (acc * 256 + b) bs

-- byte 1 of the header, and the bytes of an extended length
unfoldable pub length_header : ℕ → List ℕ
length_header plen =
    if leb plen 125
    then bit_or 0x80 plen ∷ []
    else if leb plen 65535
    then bit_or 0x80 126 ∷ plen / 2 ^ 8 % 256 ∷ plen % 256 ∷ []
    else bit_or 0x80 127 ∷ big_endian 8 plen

-- the frame that `writeFrame` writes with a given key
unfoldable pub write_frame : MaskKey → ℕ → List ℕ → List ℕ
write_frame k opcode payload =
    bit_or 0x80 opcode ∷ length_header (length payload) ++ key_bytes k ++ mask k 0 payload

pub data FrameError : Type 0 where
  header_byte_0 header_byte_1 length_16 length_64 mask_key : FrameError
  payload_bytes : ℕ → FrameError

-- A step of the parser: what it read and what is left. `panicked` is `make` of a negative length.
pub data Parsed {ℓ} (A : Type ℓ) : Type ℓ where
  got : A → List ℕ → Parsed A
  broken : FrameError → Parsed A
  panicked : Parsed A

pub record Frame : Type 0 where
  pub payload : List ℕ
  pub opcode : ℕ

-- `io.ReadFull` of `n` bytes
unfoldable pub read_full : ℕ → List ℕ → Option (List ℕ × List ℕ)
read_full zero s = some ([], s)
read_full (suc n) [] = none
read_full (suc n) (b ∷ s) = elim (read_full n s) [ none ↦ none | some r ↦ some (b ∷ r.0, r.1) ]

abbrev pub read_extended : ℕ → FrameError → List ℕ → Parsed ℕ
read_extended n e s = elim (read_full n s) [
  | none ↦ broken e
  | some r ↦ got (read_big_endian 0 r.0) r.1
]

-- the `switch plen`; `plen` is 7 bits
unfoldable pub read_length : ℕ → List ℕ → Parsed ℕ
read_length plen s =
    if plen == 126
    then read_extended 2 length_16 s
    else if plen == 127
    then read_extended 8 length_64 s
    else got plen s

abbrev pub key_of : List ℕ → Option MaskKey
key_of (a ∷ b ∷ c ∷ d ∷ []) = some (record { first = a; second = b; third = c; fourth = d })
key_of _ = none

abbrev pub read_key : Bool → List ℕ → Parsed (Option MaskKey)
read_key masked s =
    if masked
    then elim (read_full 4 s) [ none ↦ broken mask_key | some r ↦ got (key_of r.0) r.1 ]
    else got none s

abbrev pub unmask : Option MaskKey → List ℕ → List ℕ
unmask none payload = payload
unmask (some k) payload = mask k 0 payload

-- The payload. An int64 length from 2^63 on is negative, and `make` panics.
abbrev pub read_payload : ℕ → ℕ → Option MaskKey → List ℕ → Parsed Frame
read_payload opcode plen key s = if leb (2 ^ 63) plen then panicked else elim (read_full plen s) [
  | none ↦ broken (payload_bytes plen)
  | some r ↦ got (record { payload = unmask key r.0; opcode = opcode }) r.1
]

abbrev pub bind_parsed {ℓ κ} :
    {A : Type ℓ} {B : Type κ} → Parsed A → (A → List ℕ → Parsed B) → Parsed B
bind_parsed (got a s) f = f a s
bind_parsed (broken e) f = broken e
bind_parsed panicked f = panicked

-- what follows the two header bytes
unfoldable pub read_body : ℕ → Bool → ℕ → List ℕ → Parsed Frame
read_body opcode masked code s =
    bind_parsed (read_length code s)
      λ plen s. bind_parsed (read_key masked s) λ key s. read_payload opcode plen key s

unfoldable pub read_frame : List ℕ → Parsed Frame
read_frame [] = broken header_byte_0
read_frame (b0 ∷ []) = broken header_byte_1
read_frame (b0 ∷ b1 ∷ s) =
    read_body (bit_and b0 0x0F) (not (bit_and b1 0x80 == 0)) (bit_and b1 0x7F) s
