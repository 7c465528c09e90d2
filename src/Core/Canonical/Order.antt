-- ===== src/Core/Canonical/Order.antt =====
-- crates/vcli-core/src/canonical.rs: the order of the members of an object does not count.
use vcli.Prelude.{
  ℕ, String, ◌≡◌, refl, ap, ◌∙◌, Bool, true, false, List, [], ◌∷◌, arith, str_eq, eq_iff, Dict,
  lookup, str_lt_asym, str_lt_trans, str_lt_connex,
}
use vcli.Core.Canonical.{
  Value, Values, Members, array, object, done, value, member, Written, names, insert_name,
  sort_names, write_entries, write_value, write_items, write_members, canonicalize,
}

-- Values that differ in the order of the members of their objects, at any depth. Two members
-- change places only if their names differ, as the names of one object do.
mutual
  pub data IsSame : Value → Value → Type 0 where
    itself : {v : Value} → IsSame v v
    in_array : {xs ys : Values} → AreSame xs ys → IsSame (array xs) (array ys)
    in_object : {m n : Members} → IsReordered m n → IsSame (object m) (object n)

  pub data AreSame : Values → Values → Type 0 where
    no_more : AreSame done done
    both :
        {v w : Value} {xs ys : Values}
        → IsSame v w
        → AreSame xs ys
        → AreSame (value v xs) (value w ys)

  pub data IsReordered : Members → Members → Type 0 where
    unmoved : {m : Members} → IsReordered m m
    next :
        {v w : Value} {m n : Members} (k : String)
        → IsSame v w
        → IsReordered m n
        → IsReordered (member k v m) (member k w n)
    swap :
        {v w : Value} {m : Members} (j k : String)
        → str_eq j k ≡ false
        → IsReordered (member j v (member k w m)) (member k w (member j v m))
    twice : {l m n : Members} → IsReordered l m → IsReordered m n → IsReordered l n

-- Names may be sorted in one after the other in either order.
insert_name_comm :
    (j k : String) (ks : List String)
    → insert_name j (insert_name k ks) ≡ insert_name k (insert_name j ks)
unfolding insert_name
insert_name_comm j k [] = ground (arith, str_lt_asym j k, str_lt_connex j k)
insert_name_comm j k (i ∷ ks) = ground (
  arith,
  str_lt_asym j k,
  str_lt_connex j k,
  str_lt_trans j k i,
  str_lt_trans k j i,
  insert_name_comm j k ks,
)

-- The entries depend on what a look-up finds.
write_entries-same :
    (nfc : String → String) (first : Bool) (ks : List String) (a b : Dict Written)
    → ((k : String) → lookup k a ≡ lookup k b)
    → write_entries nfc first ks a ≡ write_entries nfc first ks b
unfolding write_entries
write_entries-same nfc first [] a b h = refl
write_entries-same nfc first (k ∷ ks) a b h = rw (h k, write_entries-same nfc false ks a b h) refl

module _ (nfc : String → String) (format : ℕ → String) where
  Agree : Members → Members → Type 0
  Agree m n =
      (sort_names (names m) ≡ sort_names (names n))
      × ((k : String)
          → lookup k (write_members nfc format m) ≡ lookup k (write_members nfc format n))

  mutual
    unfolding write_value sort_names Agree lookup

    write_value-IsSame :
        {v w : Value} → IsSame v w → write_value nfc format v ≡ write_value nfc format w
    write_value-IsSame itself = refl
    write_value-IsSame (in_array s) = rw (write_items-AreSame true s) refl
    write_value-IsSame (in_object {m} {n} s) =
        let (a, b) = write_members-IsReordered s in
        rw (a, write_entries-same nfc true (sort_names (names n)) _ _ b) refl

    write_items-AreSame :
        {xs ys : Values} (first : Bool)
        → AreSame xs ys
        → write_items nfc format first xs ≡ write_items nfc format first ys
    write_items-AreSame first no_more = refl
    write_items-AreSame first (both s t) =
        rw (write_value-IsSame s, write_items-AreSame false t) refl

    write_members-IsReordered : {m n : Members} → IsReordered m n → Agree m n
    write_members-IsReordered unmoved = (refl, λ k. refl)
    write_members-IsReordered (next k s t) =
        let (a, b) = write_members-IsReordered t in
        (ap (insert_name k) a, λ i. rw (write_value-IsSame s, b i) refl)
    write_members-IsReordered (swap {v} {w} {m} j k d) = (
      insert_name_comm j k (sort_names (names m)),
      λ i. ground (arith, eq_iff j i, eq_iff k i, eq_iff j k),
    )
    write_members-IsReordered (twice s t) =
        let (a, b) = write_members-IsReordered s in
        let (c, d) = write_members-IsReordered t in (a ∙ c, λ k. b k ∙ d k)

-- Two values that differ at most in the order in which the members of their objects stand, at any
-- depth, have the same canonical text, or the same error.
pub canonicalize-IsSame :
    (nfc : String → String) (format : ℕ → String) {v w : Value}
    → IsSame v w
    → canonicalize nfc format v ≡ canonicalize nfc format w
unfolding canonicalize
canonicalize-IsSame nfc format s = write_value-IsSame nfc format s
