-- ===== src/WebSocket/Bytes.antt =====
-- The bit operations of the frame code on bytes, by their tables, and big-endian numbers.
use Prim.Native.Nat.{bit_and, bit_or, bit_xor}
use native.Mathlib.Nat.{pow-suc}
use nexus_bench.Base.{
  ℕ, zero, suc, ◌+◌, ◌*◌, ◌/◌, ◌%◌, ◌^◌, ◌<◌, Bool, true, ◌&&◌, if◌then◌else◌, false, List, [], ◌∷◌,
  ◌++◌, ◌≡◌, refl, arith, ◌==◌, ==_iff, length, length-append,
}
use nexus_bench.WebSocket.{big_endian, read_big_endian}

-- A test that every number under a bound passes, to be evaluated, and what it shows of one of them.
passes_under : (ℕ → Bool) → ℕ → Bool
passes_under test zero = true
passes_under test (suc bound) = if test bound then passes_under test bound else false

passed :
    (test : ℕ → Bool) {bound b : ℕ} → b < bound → passes_under test bound ≡ true → test b ≡ true
unfolding passes_under
passed test {bound = zero} small table = absurd (omega arith)
passed test {bound = suc bound} {b = b} small table =
    ground (arith, passed test {bound = bound} {b = b})

xor_table : passes_under (λ k. passes_under (λ b. bit_xor (bit_xor b k) k == b) 256) 256 ≡ true
unfolding passes_under
xor_table = refl

-- Masking a byte twice gives it back.
pub bit_xor_twice : (b k : ℕ) → b < 256 → k < 256 → bit_xor (bit_xor b k) k ≡ b
bit_xor_twice b k hb hk = (==_iff _ b).0 (passed _ hb (passed _ hk xor_table))

set_top_table : passes_under (λ b. bit_or 0x80 b == 128 + b) 128 ≡ true
unfolding passes_under
set_top_table = refl

pub set_top : (b : ℕ) → b < 128 → bit_or 0x80 b ≡ 128 + b
set_top b h = (==_iff _ _).0 (passed _ h set_top_table)

opcode_table : passes_under (λ b. bit_and (128 + b) 0x0F == b) 16 ≡ true
unfolding passes_under
opcode_table = refl

pub opcode_bits : (b : ℕ) → b < 16 → bit_and (128 + b) 0x0F ≡ b
opcode_bits b h = (==_iff _ _).0 (passed _ h opcode_table)

top_table :
    passes_under (λ b. (bit_and (128 + b) 0x80 == 128) && (bit_and (128 + b) 0x7F == b)) 128 ≡ true
unfolding passes_under
top_table = refl

pub mask_bit : (b : ℕ) → b < 128 → bit_and (128 + b) 0x80 ≡ 128
mask_bit b h = ground (arith, passed _ h top_table)

pub length_bits : (b : ℕ) → b < 128 → bit_and (128 + b) 0x7F ≡ b
length_bits b h = ground (arith, passed _ h top_table)

clear_table : passes_under (λ b. (bit_and b 0x80 == 0) && (bit_and b 0x7F == b)) 128 ≡ true
unfolding passes_under
clear_table = refl

pub clear_bit : (b : ℕ) → b < 128 → bit_and b 0x80 ≡ 0
clear_bit b h = ground (arith, passed _ h clear_table)

pub clear_bits : (b : ℕ) → b < 128 → bit_and b 0x7F ≡ b
clear_bits b h = ground (arith, passed _ h clear_table)

read_big_endian-append :
    (acc : ℕ) (xs : List ℕ) (b : ℕ)
    → read_big_endian acc (xs ++ b ∷ []) ≡ read_big_endian acc xs * 256 + b
unfolding read_big_endian
read_big_endian-append acc [] b = refl
read_big_endian-append acc (x ∷ xs) b = read_big_endian-append (acc * 256 + x) xs b

pub read_big_endian-big_endian : (n v : ℕ) → v < 256 ^ n → read_big_endian 0 (big_endian n v) ≡ v
unfolding big_endian read_big_endian
read_big_endian-big_endian zero v h = omega arith
read_big_endian-big_endian (suc n) v h = omega (
  arith,
  read_big_endian-append 0 (big_endian n (v / 256)) (v % 256),
  read_big_endian-big_endian n (v / 256) (omega (arith, pow-suc 256 n)),
)

pub length-big_endian : (n v : ℕ) → length (big_endian n v) ≡ n
unfolding big_endian
length-big_endian zero v = refl
length-big_endian (suc n) v =
    omega
      (arith, length-append (big_endian n (v / 256)) (v % 256 ∷ []), length-big_endian n (v / 256))
