-- ===== src/Core/Sha256.antt =====
-- crates/vcli-core/src/canonical.rs: SHA-256 in hex, on bytes; u32 arithmetic wraps at 32 bits.
use Prim.Native.Char.{code}
use Prim.Native.Nat.{bit_and, bit_xor}
use vcli.Prelude.{
  ◌++◌, ltb, ℕ, zero, suc, ◌+◌, ◌-◌, ◌*◌, ◌/◌, ◌%◌, ◌^◌, String, str_append, true, false, none,
  some, List, [], ◌∷◌, map, ◌==◌, if◌then◌else◌, length, count, ok, err, hex_digit,
}
use vcli.Core.Canonical.{Value, Written, canonicalize}
pub mod Padding

-- `encode_utf8` of a code point.
abbrev pub utf8_char : ℕ → List ℕ
utf8_char n =
    if ltb n 128
    then n ∷ []
    else if ltb n 2048
    then (192 + n / 64) ∷ (128 + n % 64) ∷ []
    else if ltb n 65536
    then (224 + n / 4096) ∷ (128 + n / 64 % 64) ∷ (128 + n % 64) ∷ []
    else (240 + n / 262144) ∷ (128 + n / 4096 % 64) ∷ (128 + n / 64 % 64) ∷ (128 + n % 64) ∷ []

unfoldable pub utf8 : String → List ℕ
utf8 String.[] = []
utf8 (String.◌∷◌ c s) = utf8_char (code c) ++ utf8 s

abbrev pub wrapping_add : ℕ → ℕ → ℕ
wrapping_add a b = (a + b) % 2 ^ 32

abbrev pub rotate_right : ℕ → ℕ → ℕ
rotate_right x n = x / 2 ^ n + x * 2 ^ (32 - n) % 2 ^ 32

-- `!x`
abbrev pub complement : ℕ → ℕ
complement x = 2 ^ 32 - 1 - x

-- The array of the eight working words.
pub record Words : Type 0 where
  pub h0 : ℕ
  pub h1 : ℕ
  pub h2 : ℕ
  pub h3 : ℕ
  pub h4 : ℕ
  pub h5 : ℕ
  pub h6 : ℕ
  pub h7 : ℕ

abbrev pub initial : Words
initial = record {
  h0 = 0x6a09e667;
  h1 = 0xbb67ae85;
  h2 = 0x3c6ef372;
  h3 = 0xa54ff53a;
  h4 = 0x510e527f;
  h5 = 0x9b05688c;
  h6 = 0x1f83d9ab;
  h7 = 0x5be0cd19;
}

abbrev pub round_constants : List ℕ
round_constants =
    0x428a2f98 ∷ 0x71374491 ∷ 0xb5c0fbcf ∷ 0xe9b5dba5 ∷ 0x3956c25b ∷ 0x59f111f1 ∷ 0x923f82a4
    ∷ 0xab1c5ed5 ∷ 0xd807aa98 ∷ 0x12835b01 ∷ 0x243185be ∷ 0x550c7dc3 ∷ 0x72be5d74 ∷ 0x80deb1fe
    ∷ 0x9bdc06a7 ∷ 0xc19bf174 ∷ 0xe49b69c1 ∷ 0xefbe4786 ∷ 0x0fc19dc6 ∷ 0x240ca1cc ∷ 0x2de92c6f
    ∷ 0x4a7484aa ∷ 0x5cb0a9dc ∷ 0x76f988da ∷ 0x983e5152 ∷ 0xa831c66d ∷ 0xb00327c8 ∷ 0xbf597fc7
    ∷ 0xc6e00bf3 ∷ 0xd5a79147 ∷ 0x06ca6351 ∷ 0x14292967 ∷ 0x27b70a85 ∷ 0x2e1b2138 ∷ 0x4d2c6dfc
    ∷ 0x53380d13 ∷ 0x650a7354 ∷ 0x766a0abb ∷ 0x81c2c92e ∷ 0x92722c85 ∷ 0xa2bfe8a1 ∷ 0xa81a664b
    ∷ 0xc24b8b70 ∷ 0xc76c51a3 ∷ 0xd192e819 ∷ 0xd6990624 ∷ 0xf40e3585 ∷ 0x106aa070 ∷ 0x19a4c116
    ∷ 0x1e376c08 ∷ 0x2748774c ∷ 0x34b0bcb5 ∷ 0x391c0cb3 ∷ 0x4ed8aa4a ∷ 0x5b9cca4f ∷ 0x682e6ff3
    ∷ 0x748f82ee ∷ 0x78a5636f ∷ 0x84c87814 ∷ 0x8cc70208 ∷ 0x90befffa ∷ 0xa4506ceb ∷ 0xbef9a3f7
    ∷ 0xc67178f2 ∷ []

-- An index of an array, which is in range at every use.
unfoldable pub word_at : List ℕ → ℕ → ℕ
word_at [] i = 0
word_at (x ∷ xs) zero = x
word_at (x ∷ xs) (suc i) = word_at xs i

-- The loop `while msg.len() % 64 != 56 { msg.push(0) }`: the zeros it adds to a message of length
-- `n`, in at most `fuel` rounds.
unfoldable pub zeros : ℕ → ℕ → List ℕ
zeros zero n = []
zeros (suc fuel) n = elim (n % 64 == 56) [ true ↦ [] | false ↦ 0 ∷ zeros fuel (suc n) ]

-- `to_be_bytes` of a u64.
abbrev pub be_bytes : ℕ → List ℕ
be_bytes n =
    (n / 2 ^ 56 % 256)
    ∷ (n / 2 ^ 48 % 256)
    ∷ (n / 2 ^ 40 % 256)
    ∷ (n / 2 ^ 32 % 256)
    ∷ (n / 2 ^ 24 % 256)
    ∷ (n / 2 ^ 16 % 256)
    ∷ (n / 2 ^ 8 % 256)
    ∷ (n % 256)
    ∷ []

unfoldable pub padded : List ℕ → List ℕ
unfolding zeros
padded bytes =
    let bit_len = length bytes * 8 % 2 ^ 64 in
    let marked = bytes ++ 0x80 ∷ [] in marked ++ zeros 64 (length marked) ++ be_bytes bit_len

-- `chunks_exact`: a list is cut into pieces of `n`, and a shorter rest is left out. The piece that
-- is being read and the number of places that it still has come first.
unfoldable pub chunks : ℕ → List ℕ → ℕ → List ℕ → List (List ℕ)
chunks n piece left [] = []
chunks n piece zero (x ∷ xs) = []
chunks n piece (suc zero) (x ∷ xs) = (piece ++ x ∷ []) ∷ chunks n [] n xs
chunks n piece (suc (suc left)) (x ∷ xs) = chunks n (piece ++ x ∷ []) (suc left) xs

abbrev pub chunks_exact : ℕ → List ℕ → List (List ℕ)
chunks_exact n xs = chunks n [] n xs

abbrev pub from_be_bytes : List ℕ → ℕ
from_be_bytes piece =
    word_at piece 0 * 2 ^ 24 + word_at piece 1 * 2 ^ 16 + word_at piece 2 * 2 ^ 8 + word_at piece 3

-- The words from the `i`-th on; `count` of them are computed.
unfoldable pub expanded : ℕ → ℕ → List ℕ → List ℕ
unfolding word_at
expanded zero i w = w
expanded (suc count) i w =
    let x = word_at w (i - 15) in
    let y = word_at w (i - 2) in
    let s0 = bit_xor (bit_xor (rotate_right x 7) (rotate_right x 18)) (x / 2 ^ 3) in
    let s1 = bit_xor (bit_xor (rotate_right y 17) (rotate_right y 19)) (y / 2 ^ 10) in
    let z =
      wrapping_add (wrapping_add (wrapping_add (word_at w (i - 16)) s0) (word_at w (i - 7))) s1 in
    expanded count (suc i) (w ++ z ∷ [])

-- One of the 64 rounds, with its constant and its word.
abbrev pub compress : ℕ → ℕ → Words → Words
compress k w h =
    let s1 =
      bit_xor (bit_xor (rotate_right h.h4 6) (rotate_right h.h4 11)) (rotate_right h.h4 25) in
    let ch = bit_xor (bit_and h.h4 h.h5) (bit_and (complement h.h4) h.h6) in
    let temp1 = wrapping_add (wrapping_add (wrapping_add (wrapping_add h.h7 s1) ch) k) w in
    let s0 =
      bit_xor (bit_xor (rotate_right h.h0 2) (rotate_right h.h0 13)) (rotate_right h.h0 22) in
    let maj = bit_xor (bit_xor (bit_and h.h0 h.h1) (bit_and h.h0 h.h2)) (bit_and h.h1 h.h2) in
    let temp2 = wrapping_add s0 maj in
    record {
      h7 = h.h6;
      h6 = h.h5;
      h5 = h.h4;
      h4 = wrapping_add h.h3 temp1;
      h3 = h.h2;
      h2 = h.h1;
      h1 = h.h0;
      h0 = wrapping_add temp1 temp2;
    }

unfoldable pub rounds : List ℕ → List ℕ → Words → Words
rounds [] w h = h
rounds (k ∷ ks) [] h = h
rounds (k ∷ ks) (x ∷ w) h = rounds ks w (compress k x h)

abbrev pub add_words : Words → Words → Words
add_words s h = record {
  h0 = wrapping_add s.h0 h.h0;
  h1 = wrapping_add s.h1 h.h1;
  h2 = wrapping_add s.h2 h.h2;
  h3 = wrapping_add s.h3 h.h3;
  h4 = wrapping_add s.h4 h.h4;
  h5 = wrapping_add s.h5 h.h5;
  h6 = wrapping_add s.h6 h.h6;
  h7 = wrapping_add s.h7 h.h7;
}

unfoldable pub digest_chunk : Words → List ℕ → Words
unfolding chunks expanded rounds
digest_chunk state chunk =
    let w = expanded 48 16 (map from_be_bytes (chunks_exact 4 chunk)) in
    add_words state (rounds round_constants w state)

unfoldable pub digest : Words → List (List ℕ) → Words
unfolding digest_chunk
digest state [] = state
digest state (chunk ∷ rest) = digest (digest_chunk state chunk) rest

-- `{:08x}` of a u32: the lowest `n` digits.
unfoldable pub hex_digits : ℕ → ℕ → String
unfolding hex_digit
hex_digits zero x = ""
hex_digits (suc n) x = str_append (hex_digits n (x / 16)) (hex_digit (x % 16))

abbrev pub hex_words : Words → String
hex_words s = str_append (hex_digits 8 s.h0) (
    str_append (hex_digits 8 s.h1) (
      str_append (hex_digits 8 s.h2) (
        str_append (hex_digits 8 s.h3) (
          str_append (hex_digits 8 s.h4) (
            str_append (hex_digits 8 s.h5) (str_append (hex_digits 8 s.h6) (hex_digits 8 s.h7)))))))

unfoldable pub sha256_hex : List ℕ → String
unfolding padded chunks digest hex_digits
sha256_hex bytes = hex_words (digest initial (chunks_exact 64 (padded bytes)))

abbrev pub hash_of : Written → Written
hash_of none = none
hash_of (some (err e)) = some (err e)
hash_of (some (ok s)) = some (ok (sha256_hex (utf8 s)))

unfoldable pub predicate_hash : (String → String) → (ℕ → String) → Value → Written
unfolding canonicalize sha256_hex utf8
predicate_hash nfc format v = hash_of (canonicalize nfc format v)
