-- ===== src/Ipc/Frame/Chunks.antt =====
-- A read of a number of bytes gives the first bytes of the stream, however it is cut into chunks.
use vcli.Prelude.{
  ℕ, zero, suc, ◌+◌, ◌-◌, ◌≤◌, ◌<◌, ◌≡◌, refl, sym, ap, subst, ◌∙◌, inl, inr, true, false, List, [],
  ◌∷◌, ◌++◌, arith, leb, ◌==◌, Bool-cases, length, length-append, All, Result, ok,
}
use vcli.Ipc.Frame.{IpcError, Chunks, take, drop, onto_bytes, fill}

abbrev pub joined : Chunks → List ℕ
joined [] = []
joined (c ∷ cs) = c ++ joined cs

-- No read of the stream gives nothing before its end.
abbrev pub IsFlowing : Chunks → Type 0
IsFlowing cs = All (λ c. (length c == 0) ≡ false) cs

suc_front : (m n : ℕ) → suc m + n ≡ suc (m + n)
suc_front m n = omega arith

module _ {ℓ} {A : Type ℓ} where
  take-within : (n : ℕ) (xs ys : List A) → n ≤ length xs → take n (xs ++ ys) ≡ take n xs
  take-within zero xs ys h = refl
  take-within (suc n) [] ys h = absurd (omega (arith, h))
  take-within (suc n) (x ∷ xs) ys h = ap (λ l. x ∷ l) (take-within n xs ys (omega (arith, h)))

  drop-within : (n : ℕ) (xs ys : List A) → n ≤ length xs → drop n (xs ++ ys) ≡ drop n xs ++ ys
  drop-within zero xs ys h = refl
  drop-within (suc n) [] ys h = absurd (omega (arith, h))
  drop-within (suc n) (x ∷ xs) ys h = drop-within n xs ys (omega (arith, h))

  take-beyond : (n : ℕ) (xs ys : List A) → take (length xs + n) (xs ++ ys) ≡ xs ++ take n ys
  take-beyond n [] ys = ap (λ m. take m ys) (omega arith)
  take-beyond n (x ∷ xs) ys =
      ap (λ m. take m (x ∷ (xs ++ ys))) (suc_front (length xs) n)
      ∙ ap (λ l. x ∷ l) (take-beyond n xs ys)

  drop-beyond : (n : ℕ) (xs ys : List A) → drop (length xs + n) (xs ++ ys) ≡ drop n ys
  drop-beyond n [] ys = ap (λ m. drop m ys) (omega arith)
  drop-beyond n (x ∷ xs) ys =
      ap (λ m. drop m (x ∷ (xs ++ ys))) (suc_front (length xs) n) ∙ drop-beyond n xs ys

  length-drop : (n : ℕ) (xs : List A) → length (drop n xs) ≡ length xs - n
  length-drop zero xs = omega arith
  length-drop (suc n) [] = omega arith
  length-drop (suc n) (x ∷ xs) = length-drop n xs ∙ omega arith

-- The outcome of a read of `n` bytes of a stream.
pub record IsFilled (n : ℕ) (cs : Chunks) (out : Result IpcError (List ℕ × Chunks)) : Type 0 where
  pub left : Chunks
  pub result : out ≡ ok (take n (joined cs), left)
  pub others : joined left ≡ drop n (joined cs)
  pub flowing : IsFlowing left

IsFilled-onto :
    (n : ℕ) (c : List ℕ) (cs : Chunks) (out : Result IpcError (List ℕ × Chunks))
    → IsFilled n cs out
    → IsFilled (length c + n) (c ∷ cs) (onto_bytes c out)
IsFilled-onto n c cs out f = record {
  left = f.left;
  result =
      ap (onto_bytes c) f.result ∙ ap (λ l. ok (l, f.left)) (sym (take-beyond n c (joined cs)));
  others = f.others ∙ sym (drop-beyond n c (joined cs));
  flowing = f.flowing;
}

IsFilled-within :
    (n : ℕ) (c : List ℕ) (cs : Chunks)
    → n < length c
    → IsFlowing (c ∷ cs)
    → IsFilled n (c ∷ cs) (ok (take n c, drop n c ∷ cs))
IsFilled-within n c cs h flowing = record {
  left = drop n c ∷ cs;
  result = ap (λ l. ok (l, drop n c ∷ cs)) (sym (take-within n c (joined cs) (omega (arith, h))));
  others = sym (drop-within n c (joined cs) (omega (arith, h)));
  flowing = (ground (arith, length-drop n c, h), flowing.1);
}

pub fill-IsFilled :
    (expected filled : ℕ) (cs : Chunks)
    → IsFlowing cs
    → filled ≤ expected
    → expected - filled ≤ length (joined cs)
    → IsFilled (expected - filled) cs (fill expected filled cs)
unfolding fill
fill-IsFilled expected filled [] flowing low enough =
    let full : leb expected filled ≡ true = ground arith in
    let none_missing : expected - filled ≡ 0 = omega (arith, enough) in
    rw (none_missing, full) (record { left = []; result = refl; others = refl; flowing = tt })
fill-IsFilled expected filled (c ∷ cs) flowing low enough =
    elim (Bool-cases (leb expected filled)) [
      | inl full ↦
          let none_missing : expected - filled ≡ 0 = ground (arith, full) in
          rw (none_missing, full)
            (record { left = c ∷ cs; result = refl; others = refl; flowing = flowing })
      | inr short ↦ elim (Bool-cases (leb (length c) (expected - filled))) [
        | inl whole ↦
            let all_bytes = length-append c (joined cs) in
            let inner =
              fill-IsFilled expected (filled + length c) cs flowing.1 (ground (arith, whole, low))
                (omega (arith, enough, all_bytes)) in
            let missing : length c + (expected - (filled + length c)) ≡ expected - filled =
              ground (arith, whole) in
            subst (λ n. IsFilled n (c ∷ cs) (fill expected filled (c ∷ cs))) missing
              (rw (short, flowing.0, whole)
                (IsFilled-onto (expected - (filled + length c)) c cs
                  (fill expected (filled + length c) cs) inner))
        | inr part ↦
            rw (short, flowing.0, part)
              (IsFilled-within (expected - filled) c cs (ground (arith, part)) flowing)
      ]
    ]
