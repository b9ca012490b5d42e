-- ===== src/Examples/Wire.antt =====
-- Frames on a concrete connection.
use nexus_bench.Base.{ℕ, true, some, List, [], ◌∷◌, ◌++◌, ◌≡◌, ◌≢◌, refl, arith, pos}
use nexus_bench.Orderbook.{buy, limit}
use nexus_bench.Fleet.{Order, Fill}
use nexus_bench.WebSocket.{
  MaskKey, got, read_frame, write_frame, mask, length_header, ws_opcode_text,
}
use nexus_bench.WebSocket.RoundTrip.{read_frame-write_frame}
use nexus_bench.WebSocket.Exchange.{Codec, answered, out_of_fuel, read_data_frame, send}
use nexus_bench.WebSocket.Exchange.Ends.{read_data_frame-ends}
use nexus_bench.WebSocket.Exchange.Replies.{conn, pings, pongs, server_frame, send-pings}

abbrev a_key : MaskKey
a_key = record { first = 0x37; second = 0xfa; third = 0x21; fourth = 0x3d }

-- "Hello" with the key of RFC 6455, section 5.7.
abbrev hello : List ℕ
hello = 0x48 ∷ 0x65 ∷ 0x6c ∷ 0x6c ∷ 0x6f ∷ []

hello_frame :
    write_frame a_key ws_opcode_text hello
    ≡ 0x81 ∷ 0x85 ∷ 0x37 ∷ 0xfa ∷ 0x21 ∷ 0x3d ∷ 0x7f ∷ 0x9f ∷ 0x4d ∷ 0x51 ∷ 0x58 ∷ []
unfolding write_frame mask length_header
hello_frame = refl

read_frame-write_frame_example :
    read_frame (write_frame a_key ws_opcode_text hello ++ 1 ∷ 2 ∷ [])
    ≡ got (record { payload = hello; opcode = ws_opcode_text }) (1 ∷ 2 ∷ [])
read_frame-write_frame_example =
    read_frame-write_frame a_key ws_opcode_text hello (1 ∷ 2 ∷ []) (ground arith) (omega arith)
      (ground arith) (omega arith)

read_data_frame-ends_example :
    (read_data_frame
      (λ n. some a_key)
      (λ n. true)
      8
      (conn (λ n. a_key) (0x89 ∷ 0 ∷ 0x89 ∷ 0 ∷ 0x81 ∷ 1 ∷ 7 ∷ []) [] 0)).1
    ≢ out_of_fuel
read_data_frame-ends_example =
    read_data_frame-ends (λ n. some a_key) (λ n. true) 8
      (conn (λ n. a_key) (0x89 ∷ 0 ∷ 0x89 ∷ 0 ∷ 0x81 ∷ 1 ∷ 7 ∷ []) [] 0) (omega arith)

abbrev an_order : Order
an_order = record { id = "b-1"; kind = limit; side = buy; price = pos 100; quantity = pos 1 }

abbrev a_fill : Fill
a_fill = record { order_id = "b-1"; executed_price = pos 0; executed_qty = pos 0; accepted = true }

abbrev one_byte : Codec
one_byte = record { marshal = λ o. some (7 ∷ []); unmarshal = λ p. some a_fill }

send-pings_example :
    send
      (λ n. some a_key)
      (λ n. true)
      one_byte
      true
      an_order
      (conn
        (λ n. a_key)
        (pings ((1 ∷ []) ∷ [] ∷ []) ++ (server_frame ws_opcode_text (9 ∷ []) ++ []))
        []
        0)
    ≡ (
      conn
          (λ n. a_key)
          []
          (([] ++ write_frame a_key ws_opcode_text (7 ∷ []))
            ++ pongs (λ n. a_key) 1 ((1 ∷ []) ∷ [] ∷ []))
          3,
      answered a_fill,
    )
send-pings_example =
    send-pings (λ n. a_key) one_byte an_order a_fill (7 ∷ []) (9 ∷ []) [] [] ((1 ∷ []) ∷ [] ∷ []) 0
      refl refl (ground arith) (omega arith)
