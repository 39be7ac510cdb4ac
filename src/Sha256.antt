-- ===== src/Sha256.antt =====
-- `crypto/sha256` and `encoding/hex`: SHA-256 as FIPS 180-4 has it, on lists of bytes.
mod Tests
pub mod Laws
use Prim.Native.Nat.{bit_and, bit_xor}
use thalassa_workload_identi.Common.{
  ℕ, zero, suc, ◌+◌, ◌-◌, ◌*◌, ◌/◌, ◌%◌, ◌^◌, List, [], ◌∷◌, ◌++◌, length, take, ltb, if◌then◌else◌,
}
use thalassa_workload_identi.Text.Eq.{Text}

-- A word is a number below 2^32.
abbrev word : ℕ
word = 2 ^ 32

rotr : ℕ → ℕ → ℕ
rotr n x = x / 2 ^ n + x * 2 ^ (32 - n) % word

xor3 : ℕ → ℕ → ℕ → ℕ
xor3 a b c = bit_xor a (bit_xor b c)

big_sigma0 : ℕ → ℕ
unfolding rotr xor3
big_sigma0 x = xor3 (rotr 2 x) (rotr 13 x) (rotr 22 x)

big_sigma1 : ℕ → ℕ
unfolding rotr xor3
big_sigma1 x = xor3 (rotr 6 x) (rotr 11 x) (rotr 25 x)

small_sigma0 : ℕ → ℕ
unfolding rotr xor3
small_sigma0 x = xor3 (rotr 7 x) (rotr 18 x) (x / 2 ^ 3)

small_sigma1 : ℕ → ℕ
unfolding rotr xor3
small_sigma1 x = xor3 (rotr 17 x) (rotr 19 x) (x / 2 ^ 10)

ch : ℕ → ℕ → ℕ → ℕ
ch x y z = bit_xor (bit_and x y) (bit_and (word - 1 - x) z)

maj : ℕ → ℕ → ℕ → ℕ
unfolding xor3
maj x y z = xor3 (bit_and x y) (bit_and x z) (bit_and y z)

abbrev round_constants : List ℕ
round_constants =
    0x428a2f98 ∷ 0x71374491 ∷ 0xb5c0fbcf ∷ 0xe9b5dba5 ∷ 0x3956c25b ∷ 0x59f111f1 ∷ 0x923f82a4
    ∷ 0xab1c5ed5 ∷ 0xd807aa98 ∷ 0x12835b01 ∷ 0x243185be ∷ 0x550c7dc3 ∷ 0x72be5d74 ∷ 0x80deb1fe
    ∷ 0x9bdc06a7 ∷ 0xc19bf174 ∷ 0xe49b69c1 ∷ 0xefbe4786 ∷ 0x0fc19dc6 ∷ 0x240ca1cc ∷ 0x2de92c6f
    ∷ 0x4a7484aa ∷ 0x5cb0a9dc ∷ 0x76f988da ∷ 0x983e5152 ∷ 0xa831c66d ∷ 0xb00327c8 ∷ 0xbf597fc7
    ∷ 0xc6e00bf3 ∷ 0xd5a79147 ∷ 0x06ca6351 ∷ 0x14292967 ∷ 0x27b70a85 ∷ 0x2e1b2138 ∷ 0x4d2c6dfc
    ∷ 0x53380d13 ∷ 0x650a7354 ∷ 0x766a0abb ∷ 0x81c2c92e ∷ 0x92722c85 ∷ 0xa2bfe8a1 ∷ 0xa81a664b
    ∷ 0xc24b8b70 ∷ 0xc76c51a3 ∷ 0xd192e819 ∷ 0xd6990624 ∷ 0xf40e3585 ∷ 0x106aa070 ∷ 0x19a4c116
    ∷ 0x1e376c08 ∷ 0x2748774c ∷ 0x34b0bcb5 ∷ 0x391c0cb3 ∷ 0x4ed8aa4a ∷ 0x5b9cca4f ∷ 0x682e6ff3
    ∷ 0x748f82ee ∷ 0x78a5636f ∷ 0x84c87814 ∷ 0x8cc70208 ∷ 0x90befffa ∷ 0xa4506ceb ∷ 0xbef9a3f7
    ∷ 0xc67178f2 ∷ []

pub record Words : Type 0 where
  pub a : ℕ
  pub b : ℕ
  pub c : ℕ
  pub d : ℕ
  pub e : ℕ
  pub f : ℕ
  pub g : ℕ
  pub h : ℕ

abbrev initial : Words
initial = record {
  a = 0x6a09e667;
  b = 0xbb67ae85;
  c = 0x3c6ef372;
  d = 0xa54ff53a;
  e = 0x510e527f;
  f = 0x9b05688c;
  g = 0x1f83d9ab;
  h = 0x5be0cd19;
}

round : ℕ → ℕ → Words → Words
unfolding big_sigma0 big_sigma1 ch maj
round k w s =
    let t1 : ℕ = s.h + big_sigma1 s.e + ch s.e s.f s.g + k + w in
    let t2 : ℕ = big_sigma0 s.a + maj s.a s.b s.c in
    record {
      a = (t1 + t2) % word;
      b = s.a;
      c = s.b;
      d = s.c;
      e = (s.d + t1) % word;
      f = s.e;
      g = s.f;
      h = s.g;
    }

nth : List ℕ → ℕ → ℕ
nth [] i = 0
nth (x ∷ xs) zero = x
nth (x ∷ xs) (suc i) = nth xs i

-- The message schedule: a window of the last sixteen words moves along.
next_word : List ℕ → ℕ
unfolding small_sigma0 small_sigma1 nth
next_word ws = (small_sigma1 (nth ws 14) + nth ws 9 + small_sigma0 (nth ws 1) + nth ws 0) % word

tail : List ℕ → List ℕ
tail [] = []
tail (x ∷ xs) = xs

rounds : List ℕ → List ℕ → Words → Words
unfolding round next_word tail nth
rounds [] ws s = s
rounds (k ∷ ks) ws s = rounds ks (tail ws ++ next_word ws ∷ []) (round k (nth ws 0) s)

compress : Words → List ℕ → Words
unfolding rounds
compress s block =
    let t = rounds round_constants block s in
    record {
      a = (s.a + t.a) % word;
      b = (s.b + t.b) % word;
      c = (s.c + t.c) % word;
      d = (s.d + t.d) % word;
      e = (s.e + t.e) % word;
      f = (s.f + t.f) % word;
      g = (s.g + t.g) % word;
      h = (s.h + t.h) % word;
    }

words_of : Text → List ℕ
words_of (p ∷ q ∷ r ∷ s ∷ rest) = (p * 2 ^ 24 + q * 2 ^ 16 + r * 2 ^ 8 + s) ∷ words_of rest
words_of _ = []

zeros : ℕ → Text
zeros zero = []
zeros (suc n) = 0 ∷ zeros n

-- The bytes of a number below 2^(8 n), the highest first.
bytes_of : ℕ → ℕ → Text
bytes_of zero x = []
bytes_of (suc n) x = (x / 2 ^ (8 * n) % 256) ∷ bytes_of n x

pad : Text → Text
unfolding zeros bytes_of
pad m = m ++ 0x80 ∷ zeros ((119 - length m % 64) % 64) ++ bytes_of 8 (8 * length m)

-- Sixteen words at a time; the block in hand is collected backwards.
blocks : List ℕ → List ℕ → ℕ → Words → Words
unfolding compress
blocks [] hand n s = s
blocks (w ∷ ws) hand zero s = blocks ws [] 15 (compress s (hand ++ w ∷ []))
blocks (w ∷ ws) hand (suc n) s = blocks ws (hand ++ w ∷ []) n s

-- `sha256.Sum256`
unfoldable pub sum256 : Text → Text
unfolding blocks words_of pad bytes_of
sum256 m =
    let s = blocks (words_of (pad m)) [] 15 initial in
    bytes_of 4 s.a
    ++ bytes_of 4 s.b
    ++ bytes_of 4 s.c
    ++ bytes_of 4 s.d
    ++ bytes_of 4 s.e
    ++ bytes_of 4 s.f
    ++ bytes_of 4 s.g
    ++ bytes_of 4 s.h

unfoldable pub hex_digit : ℕ → ℕ
hex_digit n = if ltb n 10 then 48 + n else 87 + n

-- `hex.EncodeToString`
unfoldable pub hex_encode : Text → Text
unfolding hex_digit
hex_encode [] = []
hex_encode (b ∷ bs) = hex_digit (b / 16) ∷ hex_digit (b % 16) ∷ hex_encode bs
