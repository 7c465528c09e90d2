-- ===== src/Ipc/Frame.antt =====
-- crates/vcli-ipc/src/frame.rs: length-prefixed frames. A stream is the list of what each read of
-- it can give, and ends after it; `encode` and `decode` are `serde_json::to_vec` and `from_slice`.
use vcli.Prelude.{
  ℕ, zero, suc, ◌+◌, ◌-◌, ◌*◌, ◌/◌, ◌%◌, ◌^◌, String, List, [], ◌∷◌, ◌++◌, ltb, leb, ◌==◌,
  if◌then◌else◌, length, Result, ok, err, ◌>>=◌,
}
pub mod Chunks
pub mod RoundTrip

-- The errors that a frame can end in.
pub data IpcError : Type 0 where
  frame_too_large : ℕ → ℕ → IpcError
  unexpected_eof : ℕ → ℕ → IpcError
  invalid_json : String → IpcError

abbrev pub max_frame_len : ℕ
max_frame_len = 4 * 1024 * 1024

abbrev pub take {ℓ} : {A : Type ℓ} → ℕ → List A → List A
take zero xs = []
take (suc n) [] = []
take (suc n) (x ∷ xs) = x ∷ take n xs

abbrev pub drop {ℓ} : {A : Type ℓ} → ℕ → List A → List A
drop zero xs = xs
drop (suc n) [] = []
drop (suc n) (x ∷ xs) = drop n xs

-- `u32::to_be_bytes` and `from_be_bytes`.
abbrev pub to_be_bytes : ℕ → List ℕ
to_be_bytes n = n / 2 ^ 24 % 256 ∷ n / 2 ^ 16 % 256 ∷ n / 2 ^ 8 % 256 ∷ n % 256 ∷ []

abbrev pub from_be_bytes : List ℕ → ℕ
from_be_bytes (a ∷ b ∷ c ∷ d ∷ _) = a * 2 ^ 24 + b * 2 ^ 16 + c * 2 ^ 8 + d
from_be_bytes _ = 0

abbrev pub Chunks : Type 0
Chunks = List (List ℕ)

abbrev pub onto_bytes :
    List ℕ → Result IpcError (List ℕ × Chunks) → Result IpcError (List ℕ × Chunks)
onto_bytes c (err e) = err e
onto_bytes c (ok (bytes, rest)) = ok (c ++ bytes, rest)

-- The loop `while filled < expected`: each read gives at least one byte, at most those that are
-- missing, or none at the end of the stream.
unfoldable pub fill : ℕ → ℕ → Chunks → Result IpcError (List ℕ × Chunks)
fill expected filled [] =
    if leb expected filled then ok ([], []) else err (unexpected_eof filled expected)
fill expected filled (c ∷ cs) =
    let rest = fill expected (filled + length c) cs in
    let missing = expected - filled in
    if leb expected filled
    then ok ([], c ∷ cs)
    else if length c == 0
    then err (unexpected_eof filled expected)
    else if leb (length c) missing
    then onto_bytes c rest
    else ok (take missing c, drop missing c ∷ cs)

module _ {ℓ} {T : Type ℓ} (encode : T → Result String (List ℕ))
    (decode : List ℕ → Result String T) where
  abbrev pub json_error {κ} : {A : Type κ} → Result String A → Result IpcError A
  json_error (ok a) = ok a
  json_error (err e) = err (invalid_json e)

  abbrev pub framed : List ℕ → Result IpcError (List ℕ)
  framed bytes =
      if leb (2 ^ 32) (length bytes)
      then err (frame_too_large (2 ^ 32 - 1) max_frame_len)
      else if ltb max_frame_len (length bytes)
      then err (frame_too_large (length bytes) max_frame_len)
      else ok (to_be_bytes (length bytes) ++ bytes)

  -- The bytes that are written.
  unfoldable pub write_frame : T → Result IpcError (List ℕ)
  write_frame value = json_error (encode value) >>= framed

  abbrev pub parsed : List ℕ × Chunks → Result IpcError (T × Chunks)
  parsed (bytes, rest) = do value ← json_error (decode bytes); ok (value, rest)

  abbrev pub after_header : List ℕ × Chunks → Result IpcError (T × Chunks)
  after_header (header, rest) =
      let len = from_be_bytes header in
      if ltb max_frame_len len
      then err (frame_too_large len max_frame_len)
      else fill len 0 rest >>= parsed

  -- The value, and what the stream has left.
  unfoldable pub read_frame : Chunks → Result IpcError (T × Chunks)
  unfolding fill
  read_frame chunks = fill 4 0 chunks >>= after_header
