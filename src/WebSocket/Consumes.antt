-- ===== src/WebSocket/Consumes.antt =====
-- A frame is read from at least two bytes.
use nexus_bench.Base.{
  ℕ, zero, suc, ◌≤◌, ◌<◌, Bool, true, false, Option, none, some, List, [], ◌∷◌, ◌≡◌, arith, inl,
  inr, Bool-cases, ◌==◌, leb, length, ◌^◌, subst,
}
use nexus_bench.WebSocket.{
  Frame, FrameError, MaskKey, Parsed, got, broken, panicked, bind_parsed, read_body, read_extended,
  read_frame, read_full, read_key, read_length, read_payload, read_big_endian, length_16, length_64,
  mask_key, payload_bytes, key_of, unmask,
}

abbrev Consumes {ℓ} : {A : Type ℓ} → Parsed A → ℕ → Type 0
Consumes (got a rest) k = length rest ≤ k
Consumes (broken e) k = Unit
Consumes panicked k = Unit

abbrev Leaves : Option (List ℕ × List ℕ) → ℕ → Type 0
Leaves none k = Unit
Leaves (some r) k = length r.1 ≤ k

Leaves-some :
    (r : Option (List ℕ × List ℕ)) (b : ℕ) (k : ℕ)
    → Leaves r k
    → Leaves (elim r [ none ↦ none | some r ↦ some (b ∷ r.0, r.1) ]) (suc k)
Leaves-some none b k h = tt
Leaves-some (some r) b k h = omega arith

read_full-Leaves : (n : ℕ) (s : List ℕ) → Leaves (read_full n s) (length s)
unfolding read_full
read_full-Leaves zero s = omega arith
read_full-Leaves (suc n) [] = tt
read_full-Leaves (suc n) (b ∷ s) = Leaves-some (read_full n s) b (length s) (read_full-Leaves n s)

read_full-Consumes {ℓ} :
    {A : Type ℓ} (r : Option (List ℕ × List ℕ)) (e : FrameError) (g : List ℕ → A) (k : ℕ)
    → Leaves r k
    → Consumes (elim r as (λ x. Parsed A) [ none ↦ broken e | some r ↦ got (g r.0) r.1 ]) k
read_full-Consumes none e g k h = tt
read_full-Consumes (some r) e g k h = h

bind_parsed-Consumes {ℓ κ} :
    {A : Type ℓ} {B : Type κ} (p : Parsed A) (f : A → List ℕ → Parsed B) (k : ℕ)
    → Consumes p k
    → ((a : A) (s : List ℕ) → length s ≤ k → Consumes (f a s) k)
    → Consumes (bind_parsed p f) k
bind_parsed-Consumes (got a s) f k h g = g a s h
bind_parsed-Consumes (broken e) f k h g = tt
bind_parsed-Consumes panicked f k h g = tt

read_extended-Consumes :
    (n : ℕ) (e : FrameError) (s : List ℕ) → Consumes (read_extended n e s) (length s)
read_extended-Consumes n e s =
    read_full-Consumes (read_full n s) e (read_big_endian 0) (length s) (read_full-Leaves n s)

read_length-Consumes : (code : ℕ) (s : List ℕ) → Consumes (read_length code s) (length s)
unfolding read_length
read_length-Consumes code s = elim (Bool-cases (code == 126)) [
  | inl e ↦ rw (read_length, e) (read_extended-Consumes 2 length_16 s)
  | inr e ↦ elim (Bool-cases (code == 127)) [
    | inl d ↦ rw (read_length, e, d) (read_extended-Consumes 8 length_64 s)
    | inr d ↦ rw (read_length, e, d) (omega arith)
  ]
]

read_key-Consumes : (masked : Bool) (s : List ℕ) → Consumes (read_key masked s) (length s)
read_key-Consumes true s =
    read_full-Consumes (read_full 4 s) mask_key key_of (length s) (read_full-Leaves 4 s)
read_key-Consumes false s = omega arith

read_payload-Consumes :
    (opcode n : ℕ) (key : Option MaskKey) (s : List ℕ)
    → Consumes (read_payload opcode n key s) (length s)
read_payload-Consumes opcode n key s =
    let frame : List ℕ → Frame = λ bytes. record { payload = bytes; opcode = opcode } in
    elim (Bool-cases (leb (2 ^ 63) n)) [
      | inl e ↦ rw (read_payload, e) tt
      | inr e ↦
          rw (read_payload, e)
            (read_full-Consumes (read_full n s) (payload_bytes n)
              (λ bytes. frame (unmask key bytes)) (length s) (read_full-Leaves n s))
    ]

Consumes-le {ℓ} : {A : Type ℓ} (p : Parsed A) (j k : ℕ) → Consumes p j → j ≤ k → Consumes p k
Consumes-le (got a s) j k h l = omega arith
Consumes-le (broken e) j k h l = tt
Consumes-le panicked j k h l = tt

read_body-Consumes :
    (opcode code : ℕ) (masked : Bool) (s : List ℕ)
    → Consumes (read_body opcode masked code s) (length s)
unfolding read_body
read_body-Consumes opcode code masked s =
    bind_parsed-Consumes (read_length code s) _ (length s) (read_length-Consumes code s) λ n t lt.
      bind_parsed-Consumes (read_key masked t) _ (length s)
        (Consumes-le (read_key masked t) (length t) (length s) (read_key-Consumes masked t) lt)
        λ key u lu.
          Consumes-le (read_payload opcode n key u) (length u) (length s)
            (read_payload-Consumes opcode n key u) lu

pub read_frame-shorter :
    (s rest : List ℕ) (f : Frame) → read_frame s ≡ got f rest → length rest < length s
unfolding read_frame
read_frame-shorter [] rest f e = absurd cc
read_frame-shorter (b0 ∷ []) rest f e = absurd cc
read_frame-shorter (b0 ∷ b1 ∷ s) rest f e =
    omega
      (arith, subst (λ (p : Parsed Frame). Consumes p (length s)) e (read_body-Consumes _ _ _ s))
