-- ===== src/WebSocket/Exchange/Ends.antt =====
-- `readDataFrame` ends.
use nexus_bench.Base.{
  ℕ, zero, suc, ◌<◌, Bool, ◌||◌, Option, List, ◌≡◌, ◌≢◌, ◌⊎◌, refl, inl, inr, arith, Bool-cases,
  Option-cases, ◌==◌, length,
}
use nexus_bench.WebSocket.{
  Frame, FrameError, MaskKey, Parsed, got, broken, panicked, read_frame, ws_opcode_text,
  ws_opcode_binary, ws_opcode_ping, ws_opcode_pong, ws_opcode_close,
}
use nexus_bench.WebSocket.Consumes.{read_frame-shorter}
use nexus_bench.WebSocket.Exchange.{
  Conn, WriteResult, written, key_failed, write_failed, out_of_fuel, write, read_data_frame,
}

pub Parsed-cases :
    (p : Parsed Frame)
    → ((f : Frame) × ((rest : List ℕ) × (p ≡ got f rest)))
      ⊎ (((e : FrameError) × (p ≡ broken e)) ⊎ (p ≡ panicked))
Parsed-cases (got f rest) = inl (f, (rest, refl))
Parsed-cases (broken e) = inr (inl (e, refl))
Parsed-cases panicked = inr (inr refl)

pub WriteResult-cases : (w : WriteResult) → (w ≡ written) ⊎ ((w ≡ key_failed) ⊎ (w ≡ write_failed))
WriteResult-cases written = inl refl
WriteResult-cases key_failed = inr (inl refl)
WriteResult-cases write_failed = inr (inr refl)

module _ (keys : ℕ → Option MaskKey) (can_write : ℕ → Bool) where
  pub write-inbox :
      (c : Conn) (opcode : ℕ) (payload : List ℕ)
      → (write keys can_write c opcode payload).0.inbox ≡ c.inbox
  unfolding write
  write-inbox c opcode payload = elim (Option-cases (keys c.writes)) [
    | inl e ↦ rw (write, e) refl
    | inr (k, e) ↦ elim (Bool-cases (can_write c.writes)) [
      | inl w ↦ rw (write, e, w) refl
      | inr w ↦ rw (write, e, w) refl
    ]
  ]

  -- With more fuel than there are bytes to read, `readDataFrame` ends, whatever the server sends and
  -- however often its pings are answered.
  pub read_data_frame-ends :
      (fuel : ℕ) (c : Conn)
      → length c.inbox < fuel
      → (read_data_frame keys can_write fuel c).1 ≢ out_of_fuel
  unfolding read_data_frame
  read_data_frame-ends zero c h = absurd (omega arith)
  read_data_frame-ends (suc fuel) c h = elim (Parsed-cases (read_frame c.inbox)) [
    | inr (inl (e, p)) ↦ rw (read_data_frame, p) (λ x. absurd cc)
    | inr (inr p) ↦ rw (read_data_frame, p) (λ x. absurd cc)
    | inl (f, (rest, p)) ↦
        elim (Bool-cases (f.opcode == ws_opcode_text || f.opcode == ws_opcode_binary)) [
          | inl d ↦ rw (read_data_frame, p, d) (λ x. absurd cc)
          | inr d ↦ elim (Bool-cases (f.opcode == ws_opcode_ping)) [
            | inr n ↦ elim (Bool-cases (f.opcode == ws_opcode_close)) [
              | inl q ↦ rw (read_data_frame, p, d, n, q) (λ x. absurd cc)
              | inr q ↦ rw (read_data_frame, p, d, n, q) (λ x. absurd cc)
            ]
            | inl n ↦
                let c' : Conn = record c { inbox = rest } in
                elim (WriteResult-cases (write keys can_write c' ws_opcode_pong f.payload).1) [
                  | inl w ↦
                      rw (read_data_frame, p, d, n, w)
                        (read_data_frame-ends fuel _ (
                          rw (write-inbox c' ws_opcode_pong f.payload)
                            (omega (arith, read_frame-shorter c.inbox rest f p))))
                  | inr (inl w) ↦ rw (read_data_frame, p, d, n, w) (λ x. absurd cc)
                  | inr (inr w) ↦ rw (read_data_frame, p, d, n, w) (λ x. absurd cc)
                ]
          ]
        ]
  ]
