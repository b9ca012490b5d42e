-- ===== src/WebSocket/Exchange.antt =====
-- `writeFrame` on the connection, `readDataFrame`, and `Send`. `keys` are the random masking keys,
-- `can_write` says which writes succeed, both by the number of frames written before.
pub mod Ends
pub mod Replies
use nexus_bench.Base.{
  ℕ, zero, suc, Bool, ◌||◌, Option, none, some, List, [], ◌++◌, length, ◌==◌, if◌then◌else◌,
}
use nexus_bench.Fleet.{Order, Fill}
use nexus_bench.WebSocket.{
  FrameError, MaskKey, got, broken, panicked, read_frame, write_frame, ws_opcode_text,
  ws_opcode_binary, ws_opcode_ping, ws_opcode_pong, ws_opcode_close,
}

-- What the server has sent and is not read, what was written, and the number of frames written.
pub record Conn : Type 0 where
  pub inbox : List ℕ
  pub outbox : List ℕ
  pub writes : ℕ

pub data WriteResult : Type 0 where
  written key_failed write_failed : WriteResult

pub data ReadOutcome : Type 0 where
  data_frame : List ℕ → ReadOutcome
  read_error : FrameError → ReadOutcome
  pong_failed : WriteResult → ReadOutcome
  server_closed : ReadOutcome
  unexpected_opcode : ℕ → ReadOutcome
  reader_panicked : ReadOutcome
  out_of_fuel : ReadOutcome

pub data SendOutcome : Type 0 where
  answered : Fill → SendOutcome
  deadline_failed marshal_failed unmarshal_failed : SendOutcome
  not_written : WriteResult → SendOutcome
  not_read : ReadOutcome → SendOutcome

-- encoding/json on the two structs of `Send`
pub record Codec : Type 0 where
  pub marshal : Order → Option (List ℕ)
  pub unmarshal : List ℕ → Option Fill

module _ (keys : ℕ → Option MaskKey) (can_write : ℕ → Bool) where
  unfoldable pub write : Conn → ℕ → List ℕ → Conn × WriteResult
  write c opcode payload = elim (keys c.writes) [
    | none ↦ (c, key_failed)
    | some k ↦
        if can_write c.writes
        then (
          record c { outbox = c.outbox ++ write_frame k opcode payload; writes = suc c.writes },
          written,
        )
        else (record c { writes = suc c.writes }, write_failed)
  ]

  -- Each round reads a frame. Enough fuel is one more than the bytes that are left.
  unfoldable pub read_data_frame : ℕ → Conn → Conn × ReadOutcome
  read_data_frame zero c = (c, out_of_fuel)
  read_data_frame (suc fuel) c = elim (read_frame c.inbox) [
    | broken e ↦ (record c { inbox = [] }, read_error e)
    | panicked ↦ (record c { inbox = [] }, reader_panicked)
    | got f rest ↦
        if f.opcode == ws_opcode_text || f.opcode == ws_opcode_binary
        then (record c { inbox = rest }, data_frame f.payload)
        else if f.opcode == ws_opcode_ping
        then elim (write (record c { inbox = rest }) ws_opcode_pong f.payload).1 [
          | written ↦
              read_data_frame fuel (write (record c { inbox = rest }) ws_opcode_pong f.payload).0
          | failure ↦
              ((write (record c { inbox = rest }) ws_opcode_pong f.payload).0, pong_failed failure)
        ]
        else if f.opcode == ws_opcode_close
        then (record c { inbox = rest }, server_closed)
        else (record c { inbox = rest }, unexpected_opcode f.opcode)
  ]

  abbrev pub read_answer : Codec → Conn × ReadOutcome → Conn × SendOutcome
  read_answer codec (c, data_frame payload) = elim (codec.unmarshal payload) [
    | none ↦ (c, unmarshal_failed)
    | some f ↦ (c, answered f)
  ]
  read_answer codec (c, failure) = (c, not_read failure)

  abbrev pub after_write : Codec → Conn × WriteResult → Conn × SendOutcome
  after_write codec (c, written) = read_answer codec (read_data_frame (suc (length c.inbox)) c)
  after_write codec (c, failure) = (c, not_written failure)

  -- `Send`; `deadline_set` is `SetDeadline(...) == nil`
  unfoldable pub send : Codec → Bool → Order → Conn → Conn × SendOutcome
  send codec deadline_set o c =
      if deadline_set
      then elim (codec.marshal o) [
        | none ↦ (c, marshal_failed)
        | some payload ↦ after_write codec (write c ws_opcode_text payload)
      ]
      else (c, deadline_failed)
