-- ===== src/Core/Sha256/Padding.antt =====
-- crates/vcli-core/src/canonical.rs: the padding of SHA-256.
use vcli.Prelude.{
  ◌-◌, ◌/◌, ◌∙◌, ap, refl, ◌++◌, ◌*◌, ◌^◌, ◌<◌, length-append, arith, ℕ, zero, suc, ◌+◌, ◌%◌, ◌≡◌,
  List, [], ◌∷◌, length, All,
}
use mathlib.Core.List.{append-nil, append_assoc}
use vcli.Core.Sha256.{zeros, padded, chunks, chunks_exact, be_bytes}

-- The pieces one after the other.
abbrev pub joined : List (List ℕ) → List ℕ
joined [] = []
joined (c ∷ cs) = c ++ joined cs

-- 64 rounds of the loop are enough.
zeros-length : (fuel n : ℕ) → (120 - n % 64) % 64 < fuel → (n + length (zeros fuel n)) % 64 ≡ 56
unfolding zeros
zeros-length zero n h = omega arith
zeros-length (suc fuel) n h = ground (arith, zeros-length fuel (suc n))

padded-length : (bytes : List ℕ) → (length (padded bytes) % 64 ≡ 0) × (0 < length (padded bytes))
unfolding padded
padded-length bytes =
    let marked = bytes ++ 0x80 ∷ [] in
    let filled = marked ++ zeros 64 (length marked) in
    let total = length-append filled (be_bytes (length bytes * 8 % 2 ^ 64)) in
    let part = length-append marked (zeros 64 (length marked)) in
    let stop = zeros-length 64 (length marked) (omega arith) in
    (omega (arith, total, part, stop), omega (arith, total))

-- A list whose length is `n` more than a multiple of 64 is cut without a rest, where `n` is the
-- number of places that the piece which is being read still has.
chunks-joined :
    (q left : ℕ) (piece xs : List ℕ)
    → length xs ≡ suc left + q * 64
    → length piece + suc left ≡ 64
    → (joined (chunks 64 piece (suc left) xs) ≡ piece ++ xs)
      × All (λ c. length c ≡ 64) (chunks 64 piece (suc left) xs)
unfolding chunks
chunks-joined q left piece [] h k = absurd (omega arith)
chunks-joined zero zero piece (x ∷ []) h k =
    (append-nil _, (omega (arith, length-append piece (x ∷ [])), tt))
chunks-joined zero zero piece (x ∷ y ∷ xs) h k = absurd (omega arith)
chunks-joined (suc q) zero piece (x ∷ xs) h k =
    let (same, sizes) = chunks-joined q 63 [] xs (omega arith) refl in
    (
      ap (λ r. piece ++ x ∷ [] ++ r) same ∙ append_assoc piece (x ∷ []) xs,
      (omega (arith, length-append piece (x ∷ [])), sizes),
    )
chunks-joined q (suc left) piece (x ∷ xs) h k =
    let longer : length (piece ++ x ∷ []) + suc left ≡ 64 =
      omega (arith, length-append piece (x ∷ [])) in
    let (same, sizes) = chunks-joined q left (piece ++ x ∷ []) xs (omega arith) longer in
    (same ∙ append_assoc piece (x ∷ []) xs, sizes)

-- The loop that pads a message stops at a length such that `chunks_exact(64)` leaves nothing out:
-- the chunks have 64 bytes each and are, one after the other, the padded message.
pub padded-chunks :
    (bytes : List ℕ)
    → (joined (chunks_exact 64 (padded bytes)) ≡ padded bytes)
      × All (λ c. length c ≡ 64) (chunks_exact 64 (padded bytes))
padded-chunks bytes =
    let (whole, some_bytes) = padded-length bytes in
    chunks-joined (length (padded bytes) / 64 - 1) 63 [] (padded bytes) (omega arith) refl
