-- ===== src/Ipc/Frame/RoundTrip.antt =====
-- A frame that is written is read back.
use vcli.Prelude.{
  ℕ, ◌+◌, ◌-◌, ◌^◌, ◌<◌, String, ◌≡◌, refl, ap, subst, ◌∙◌, inl, inr, false, List, [], ◌∷◌, ◌++◌,
  arith, ltb, leb, if◌then◌else◌, Bool-cases, length, length-append, Result, ok, err, ◌>>=◌,
  Result-cases,
}
use vcli.Ipc.Frame.{
  frame_too_large, IpcError, Chunks, max_frame_len, take, drop, to_be_bytes, from_be_bytes, fill,
  framed, json_error, parsed, after_header, write_frame, read_frame,
}
use vcli.Ipc.Frame.Chunks.{joined, IsFlowing, IsFilled, fill-IsFilled}

from_be_bytes-to_be_bytes : (n : ℕ) → n < 2 ^ 32 → from_be_bytes (to_be_bytes n) ≡ n
from_be_bytes-to_be_bytes n h = omega arith

take-length {ℓ} : {A : Type ℓ} (xs ys : List A) → take (length xs) (xs ++ ys) ≡ xs
take-length [] ys = refl
take-length (x ∷ xs) ys = ap (λ l. x ∷ l) (take-length xs ys)

drop-length {ℓ} : {A : Type ℓ} (xs ys : List A) → drop (length xs) (xs ++ ys) ≡ ys
drop-length [] ys = refl
drop-length (x ∷ xs) ys = drop-length xs ys

append_assoc {ℓ} : {A : Type ℓ} (xs ys zs : List A) → (xs ++ ys) ++ zs ≡ xs ++ (ys ++ zs)
append_assoc [] ys zs = refl
append_assoc (x ∷ xs) ys zs = ap (λ l. x ∷ l) (append_assoc xs ys zs)

-- What is left of the stream after a part whose bytes it begins with.
after_part :
    (part rest : List ℕ) (cs : Chunks) (out : Result IpcError (List ℕ × Chunks))
    → joined cs ≡ part ++ rest
    → IsFilled (length part) cs out
    → (left : Chunks) × (out ≡ ok (part, left)) × (joined left ≡ rest) × IsFlowing left
after_part part rest cs out e f = (
  f.left,
  f.result ∙ ap (λ l. ok (l, f.left)) (ap (take (length part)) e ∙ take-length part rest),
  f.others ∙ ap (drop (length part)) e ∙ drop-length part rest,
  f.flowing,
)

-- The loop on a stream that begins with a part reads that part.
read_part :
    (part rest : List ℕ) (cs : Chunks)
    → IsFlowing cs
    → joined cs ≡ part ++ rest
    → (left : Chunks) × (fill (length part) 0 cs ≡ ok (part, left))
      × (joined left ≡ rest)
      × IsFlowing left
read_part part rest cs flowing e =
    let all : length (joined cs) ≡ length part + length rest =
      ap length e ∙ length-append part rest in
    let whole : length part - 0 ≡ length part = omega arith in
    after_part part rest cs (fill (length part) 0 cs) e (
      subst (λ m. IsFilled m cs (fill (length part) 0 cs)) whole
        (fill-IsFilled (length part) 0 cs flowing (omega arith) (omega (arith, all))))

module _ {ℓ} {T : Type ℓ} (encode : T → Result String (List ℕ))
    (decode : List ℕ → Result String T) where
  framed-shape :
      (bytes written : List ℕ)
      → framed encode decode bytes ≡ ok written
      → (ltb max_frame_len (length bytes) ≡ false) × (written ≡ to_be_bytes (length bytes) ++ bytes)
  framed-shape bytes written e = elim (Bool-cases (leb (2 ^ 32) (length bytes))) [
    | inl x ↦ absurd (ground (arith, e, x))
    | inr x ↦ elim (Bool-cases (ltb max_frame_len (length bytes))) [
      | inl y ↦ absurd (ground (arith, e, x, y))
      | inr y ↦ (y, ground (arith, e, x, y))
    ]
  ]

  -- The bytes of a frame, at the front of a stream.
  read_bytes :
      (value : T) (bytes rest : List ℕ) (cs : Chunks)
      → decode bytes ≡ ok value
      → ltb max_frame_len (length bytes) ≡ false
      → IsFlowing cs
      → joined cs ≡ to_be_bytes (length bytes) ++ (bytes ++ rest)
      → (left : Chunks) × (read_frame encode decode cs ≡ ok (value, left)) × (joined left ≡ rest)
  unfolding read_frame
  read_bytes value bytes rest cs hd small flowing e =
      let header = read_part (to_be_bytes (length bytes)) (bytes ++ rest) cs flowing e in
      let payload = read_part bytes rest header.0 header.3 header.2 in
      (
        payload.0,
        ap (λ r. r >>= after_header encode decode) header.1
            ∙ ap (after_length header.0)
                (from_be_bytes-to_be_bytes (length bytes) (ground (arith, small)))
            ∙ rw (small, payload.1, hd) refl,
        payload.2,
      )
    where
      after_length : Chunks → ℕ → Result IpcError (T × Chunks)
      after_length cs1 len =
          if ltb max_frame_len len
          then err (frame_too_large len max_frame_len)
          else fill len 0 cs1 >>= parsed encode decode

  -- A frame that is written, followed by anything, is read back as the value, however the stream is
  -- cut into reads, and the stream is left at what follows. This holds where the JSON library
  -- decodes what it encoded.
  pub read_frame-write_frame :
      (value : T) (written rest : List ℕ) (cs : Chunks)
      → ((bytes : List ℕ) → encode value ≡ ok bytes → decode bytes ≡ ok value)
      → write_frame encode decode value ≡ ok written
      → IsFlowing cs
      → joined cs ≡ written ++ rest
      → (left : Chunks) × (read_frame encode decode cs ≡ ok (value, left)) × (joined left ≡ rest)
  unfolding write_frame
  read_frame-write_frame value written rest cs json w flowing e =
      elim (Result-cases (encode value)) [
        | inl (bytes, x) ↦
            let shape = framed-shape bytes written (
              subst (λ r. (json_error encode decode r >>= framed encode decode) ≡ ok written) x
                w) in
            read_bytes value bytes rest cs (json bytes x) shape.0 flowing (
              e
              ∙ ap (λ l. l ++ rest) shape.1
              ∙ append_assoc (to_be_bytes (length bytes)) bytes rest)
        | inr (m, x) ↦
            cc (subst (λ r. (json_error encode decode r >>= framed encode decode) ≡ ok written) x w)
      ]
