-- ===== src/Core/Canonical/Answers.antt =====
-- crates/vcli-core/src/canonical.rs: when a value has a canonical text.
use vcli.Prelude.{
  eq_refl, ℕ, String, str_append, ◌≡◌, refl, inl, inr, Bool, true, false, Option, none, some, List,
  [], ◌∷◌, str_eq, Bool-cases, All, All-map, Dict, lookup, ok, ℤ, str_lt,
}
use vcli.Core.Canonical.{
  Value, Values, Members, null, bool, number, string, array, object, done, value, end, member,
  Written, text, ◌and_then◌, names, insert_name, sort_names, is_finite, write_number, write_entries,
  write_value, write_items, write_members, canonicalize,
}

-- A number that fits an i64 or a u64, or whose f64 is finite.
abbrev pub Fits : Option ℤ → Option ℕ → Option ℕ → Type 0
Fits (some i) u f = Unit
Fits none (some u) f = Unit
Fits none none (some bits) = is_finite bits ≡ true
Fits none none none = ⊥

abbrev mutual
  -- Every number of the value fits.
  pub IsRepresentable : Value → Type 0
  IsRepresentable null = Unit
  IsRepresentable (bool b) = Unit
  IsRepresentable (number n) = Fits n.as_i64 n.as_u64 n.as_f64
  IsRepresentable (string s) = Unit
  IsRepresentable (array xs) = AreRepresentable xs
  IsRepresentable (object m) = HasRepresentable m

  pub AreRepresentable : Values → Type 0
  AreRepresentable done = Unit
  AreRepresentable (value v vs) = IsRepresentable v × AreRepresentable vs

  pub HasRepresentable : Members → Type 0
  HasRepresentable end = Unit
  HasRepresentable (member k v m) = IsRepresentable v × HasRepresentable m

Writes : Written → Type 0
Writes w = (s : String) × (w ≡ some (ok s))

Writes-text : (s : String) → Writes (text s)
unfolding Writes
Writes-text s = (s, refl)

Writes-and_then : (a b : Written) → Writes a → Writes b → Writes (a and_then b)
unfolding Writes
Writes-and_then a b (s, h) (t, k) = (str_append s t, rw (h, k) refl)

-- A name has an entry, and that a text.
Has : Dict Written → String → Type 0
Has written k = (w : Written) × (lookup k written ≡ some w) × Writes w

insert_name-All :
    (P : String → Type 0) (k : String) (ks : List String)
    → P k
    → All P ks
    → All P (insert_name k ks)
unfolding insert_name
insert_name-All P k [] p h = (p, tt)
insert_name-All P k (j ∷ ks) p h = elim (Bool-cases (str_lt k j)) [
  | inl e ↦ rw e (p, h)
  | inr e ↦ rw e (h.0, insert_name-All P k ks p h.1)
]

sort_names-All : (P : String → Type 0) (ks : List String) → All P ks → All P (sort_names ks)
unfolding sort_names
sort_names-All P [] h = tt
sort_names-All P (k ∷ ks) h = insert_name-All P k (sort_names ks) h.0 (sort_names-All P ks h.1)

Has-more :
    (written : Dict Written) (j k : String) (w : Written)
    → Writes w
    → Has written k
    → Has ((j, w) ∷ written) k
unfolding Has lookup
Has-more written j k w p (u, found, q) = elim (Bool-cases (str_eq j k)) [
  | inl e ↦ (w, rw e refl, p)
  | inr e ↦ (u, rw e found, q)
]

write_entries-Writes :
    (nfc : String → String) (first : Bool) (ks : List String) (written : Dict Written)
    → All (Has written) ks
    → Writes (write_entries nfc first ks written)
unfolding write_entries Has
write_entries-Writes nfc first [] written h = Writes-text ""
write_entries-Writes nfc first (k ∷ ks) written ((w, found, p), h) = rw found (
    Writes-and_then _ _ (Writes-text _) (
      Writes-and_then _ _ (Writes-text _) (
        Writes-and_then _ _ (Writes-text _)
          (Writes-and_then _ _ p (write_entries-Writes nfc false ks written h)))))

module _ (nfc : String → String) (format : ℕ → String) where
  write_number-Writes :
      (i : Option ℤ) (u f : Option ℕ)
      → Fits i u f
      → Writes (write_number format (record { as_i64 = i; as_u64 = u; as_f64 = f }))
  write_number-Writes (some i) u f h = Writes-text _
  write_number-Writes none (some u) f h = Writes-text _
  write_number-Writes none none (some bits) h = rw h (Writes-text _)
  write_number-Writes none none none h = absurd h

  mutual
    unfolding write_value Has lookup

    write_value-Writes : (v : Value) → IsRepresentable v → Writes (write_value nfc format v)
    write_value-Writes null h = Writes-text _
    write_value-Writes (bool true) h = Writes-text _
    write_value-Writes (bool false) h = Writes-text _
    write_value-Writes (number n) h = write_number-Writes n.as_i64 n.as_u64 n.as_f64 h
    write_value-Writes (string s) h = Writes-text _
    write_value-Writes (array xs) h =
        Writes-and_then _ _ (Writes-text _)
          (Writes-and_then _ _ (write_items-Writes true xs h) (Writes-text _))
    write_value-Writes (object m) h = Writes-and_then _ _ (Writes-text _) (
        Writes-and_then _ _
          (write_entries-Writes nfc true (sort_names (names m)) (write_members nfc format m)
            (sort_names-All _ (names m) (write_members-Has m h)))
          (Writes-text _))

    write_items-Writes :
        (first : Bool) (xs : Values)
        → AreRepresentable xs
        → Writes (write_items nfc format first xs)
    write_items-Writes first done h = Writes-text _
    write_items-Writes first (value v vs) h =
        Writes-and_then _ _ (Writes-text _)
          (Writes-and_then _ _ (write_value-Writes v h.0) (write_items-Writes false vs h.1))

    write_members-Has :
        (m : Members) → HasRepresentable m → All (Has (write_members nfc format m)) (names m)
    write_members-Has end h = tt
    write_members-Has (member k v m) h =
        let p = write_value-Writes v h.0 in
        (
          (write_value nfc format v, rw (eq_refl k) refl, p),
          All-map (names m) (λ j. Has-more _ k j _ p) (write_members-Has m h.1),
        )

-- A value whose numbers all fit (none is an infinity or a NaN) has a canonical text: no writer
-- fails, and the look-up of a sorted name in its object never panics.
pub canonicalize-writes :
    (nfc : String → String) (format : ℕ → String) (v : Value)
    → IsRepresentable v
    → (s : String) × (canonicalize nfc format v ≡ some (ok s))
unfolding canonicalize Writes
canonicalize-writes nfc format v h = write_value-Writes nfc format v h
