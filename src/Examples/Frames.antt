-- ===== src/Examples/Frames.antt =====
-- A small frame, cut into reads of different sizes.
use vcli.Prelude.{ℕ, String, ◌≡◌, refl, sym, List, [], ◌∷◌, Result, ok, err}
use vcli.Ipc.Frame.{Chunks, fill, write_frame, read_frame, unexpected_eof}
use vcli.Ipc.Frame.Chunks.{joined}
use vcli.Ipc.Frame.RoundTrip.{read_frame-write_frame}

-- A message of three bytes, and JSON that is the bytes themselves.
abbrev plain_json : List ℕ → Result String (List ℕ)
plain_json bytes = ok bytes

abbrev message : List ℕ
message = 123 ∷ 32 ∷ 125 ∷ []

abbrev cut : Chunks
cut = (0 ∷ 0 ∷ []) ∷ (0 ∷ 3 ∷ 123 ∷ []) ∷ (32 ∷ 125 ∷ 9 ∷ []) ∷ []

written : write_frame plain_json plain_json message ≡ ok (0 ∷ 0 ∷ 0 ∷ 3 ∷ message)
unfolding write_frame
written = refl

read_frame-write_frame_example :
    (left : Chunks) × (read_frame plain_json plain_json cut ≡ ok (message, left))
    × (joined left ≡ 9 ∷ [])
read_frame-write_frame_example =
    read_frame-write_frame plain_json plain_json message (0 ∷ 0 ∷ 0 ∷ 3 ∷ message) (9 ∷ []) cut
      same_bytes written (refl, (refl, (refl, tt))) refl
  where
    same_bytes : (bytes : List ℕ) → plain_json message ≡ ok bytes → plain_json bytes ≡ ok message
    same_bytes bytes e = sym e

-- A stream that ends in the header.
short_header : read_frame plain_json plain_json ((0 ∷ 0 ∷ []) ∷ []) ≡ err (unexpected_eof 2 4)
unfolding read_frame fill
short_header = refl
