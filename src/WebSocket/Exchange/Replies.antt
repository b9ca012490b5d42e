-- ===== src/WebSocket/Exchange/Replies.antt =====
-- An exchange with a server that sends pings before its answer.
use mathlib.Core.List.{append-nil, append_assoc}
use nexus_bench.Base.{
  ℕ, zero, suc, ◌+◌, ◌<◌, ◌≤◌, ◌^◌, true, false, some, List, [], ◌∷◌, ◌++◌, ◌≡◌, refl, sym, ap, ◌∙◌,
  arith, All, length, length-append, leb,
}
use nexus_bench.Fleet.{Order, Fill}
use nexus_bench.WebSocket.{
  MaskKey, got, read_frame, read_body, read_length, read_payload, write_frame, ws_opcode_text,
  ws_opcode_ping, ws_opcode_pong,
}
use nexus_bench.WebSocket.Bytes.{opcode_bits, clear_bit, clear_bits}
use nexus_bench.WebSocket.RoundTrip.{length_header_lem, server_length, read_full-append}
use nexus_bench.WebSocket.Exchange.{
  Codec, Conn, ReadOutcome, answered, data_frame, write, read_data_frame, send, read_answer,
}

-- A frame as a server sends it, which is not masked.
unfoldable pub server_frame : ℕ → List ℕ → List ℕ
server_frame opcode payload = (128 + opcode) ∷ (server_length (length payload) ++ payload)

unfoldable pub pings : List (List ℕ) → List ℕ
pings [] = []
pings (p ∷ ps) = server_frame ws_opcode_ping p ++ pings ps

abbrev pub Fits : List ℕ → Type 0
Fits payload = length payload < 2 ^ 63

server_header :
    (opcode code : ℕ) (s : List ℕ)
    → opcode < 16
    → code < 128
    → read_frame ((128 + opcode) ∷ code ∷ s) ≡ read_body opcode false code s
unfolding read_frame
server_header opcode code s ho hc =
    rw (read_frame, opcode_bits opcode ho, clear_bit code hc, clear_bits code hc) refl

body_plain :
    (opcode code : ℕ) (payload s rest : List ℕ)
    → read_length code s ≡ got (length payload) (payload ++ rest)
    → length payload < 2 ^ 63
    → read_body opcode false code s ≡ got (record { payload = payload; opcode = opcode }) rest
unfolding read_body
body_plain opcode code payload s rest e h =
    rw (read_body, e, read_payload, below_sign, read_full-append payload rest) refl
  where
    below_sign : leb (2 ^ 63) (length payload) ≡ false
    below_sign = ground arith

read_frame-server_frame :
    (opcode : ℕ) (payload rest : List ℕ)
    → opcode < 16
    → Fits payload
    → read_frame (server_frame opcode payload ++ rest)
      ≡ got (record { payload = payload; opcode = opcode }) rest
unfolding server_frame
read_frame-server_frame opcode payload rest ho hl =
    let header = length_header_lem (length payload) hl in
    ap read_frame (rw (server_frame, header.plain) (simp append_assoc refl))
    ∙ server_header opcode header.code (header.extended ++ (payload ++ rest)) ho header.code_small
    ∙ body_plain opcode header.code payload _ rest (header.reads _) hl

module _ (key : ℕ → MaskKey) where
  -- the pongs that answer some pings, when `n` frames have been written
  unfoldable pub pongs : ℕ → List (List ℕ) → List ℕ
  pongs n [] = []
  pongs n (p ∷ ps) = write_frame (key n) ws_opcode_pong p ++ pongs (suc n) ps

  abbrev pub conn : List ℕ → List ℕ → ℕ → Conn
  conn inbox outbox writes = record { inbox = inbox; outbox = outbox; writes = writes }

  conn_path :
      (payload rest : List ℕ) {a b : List ℕ} {m n : ℕ}
      → a ≡ b
      → m ≡ n
      → ◌≡◌ {A = Conn × ReadOutcome}
          (conn rest a m, data_frame payload)
          (conn rest b n, data_frame payload)
  conn_path payload rest e f = rw (e, f) refl

  read_data_frame-pings :
      (fuel n : ℕ) (ps : List (List ℕ)) (payload rest outbox : List ℕ)
      → All Fits ps
      → Fits payload
      → length ps < fuel
      → read_data_frame
          (λ n. some (key n))
          (λ n. true)
          fuel
          (conn (pings ps ++ (server_frame ws_opcode_text payload ++ rest)) outbox n)
        ≡ (conn rest (outbox ++ pongs n ps) (n + length ps), data_frame payload)
  unfolding read_data_frame pings pongs write
  read_data_frame-pings zero n ps payload rest outbox hs h l = absurd (omega arith)
  read_data_frame-pings (suc fuel) n [] payload rest outbox hs h l =
      rw (read_data_frame, read_frame-server_frame ws_opcode_text payload rest (omega arith) h)
        (conn_path payload rest (sym (append-nil outbox)) (omega arith))
  read_data_frame-pings (suc fuel) n (p ∷ ps) payload rest outbox (hp, hs) h l =
      rw
        (
          read_data_frame,
          append_assoc,
          read_frame-server_frame ws_opcode_ping p
              (pings ps ++ (server_frame ws_opcode_text payload ++ rest)) (omega arith) hp,
        )
        (read_data_frame-pings fuel (suc n) ps payload rest
            (outbox ++ write_frame (key n) ws_opcode_pong p) hs h (omega arith)
          ∙ conn_path payload rest (append_assoc outbox _ _) (omega arith))

  length-server_frame : (p : List ℕ) → 0 < length (server_frame ws_opcode_ping p)
  unfolding server_frame
  length-server_frame p = omega arith

  length-pings : (ps : List (List ℕ)) (s : List ℕ) → length ps ≤ length (pings ps ++ s)
  unfolding pings
  length-pings [] s = omega arith
  length-pings (p ∷ ps) s = omega (
    arith,
    length-append (server_frame ws_opcode_ping p ++ pings ps) s,
    length-append (server_frame ws_opcode_ping p) (pings ps),
    length-append (pings ps) s,
    length-server_frame p,
    length-pings ps s,
  )

  -- If no write and no masking key fails and every payload is shorter than 2^63 bytes, then `Send` to a server that
  -- sends any pings and then a text frame with a fill answers that fill: it writes the order's frame and, for each
  -- ping, a pong with the ping's payload, in their order, and leaves what follows the text frame.
  pub send-pings :
      (codec : Codec) (o : Order) (f : Fill) (order_payload fill_payload rest outbox : List ℕ)
      (ps : List (List ℕ)) (n : ℕ)
      → codec.marshal o ≡ some order_payload
      → codec.unmarshal fill_payload ≡ some f
      → All Fits ps
      → Fits fill_payload
      → send
          (λ n. some (key n))
          (λ n. true)
          codec
          true
          o
          (conn (pings ps ++ (server_frame ws_opcode_text fill_payload ++ rest)) outbox n)
        ≡ (
          conn rest
              ((outbox ++ write_frame (key n) ws_opcode_text order_payload) ++ pongs (suc n) ps)
              (suc n + length ps),
          answered f,
        )
  unfolding send write
  send-pings codec o f order_payload fill_payload rest outbox ps n eo ef hs h =
      let reply = server_frame ws_opcode_text fill_payload ++ rest in
      let sent = outbox ++ write_frame (key n) ws_opcode_text order_payload in
      let read =
        read_data_frame-pings (suc (length (pings ps ++ reply))) (suc n) ps fill_payload rest sent
          hs h (omega (arith, length-pings ps reply)) in
      rw (send, eo, read, read_answer, ef) (ap (λ (x : Conn × ReadOutcome). (x.0, answered f)) read)
