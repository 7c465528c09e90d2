-- ===== src/Perception/Evaluation/Sharing.antt =====
-- What programs share through the cache of a tick.
use vcli.Prelude.{
  ℕ, String, ◌≡◌, refl, ap, subst, ◌∙◌, Option, none, some, [], ◌∷◌, arith, eq_refl, Dict, lookup,
  insert, Result, ok, err,
}
use vcli.Core.Predicate.{PredicateKind, PredicateResult}
use vcli.Perception.State.{PerceptionError, Perception, cached, cache_insert, Context}
use vcli.Perception.Evaluation.{
  Out, Leaf, dispatch, found, from_cache, memoized, store_result, evaluate_named_with_depth,
  evaluate_facade,
}

lookup-insert_same {ℓ} :
    {V : Type ℓ} (k : String) (v : V) (m : Dict V) → lookup k (insert k v m) ≡ some v
unfolding lookup insert
lookup-insert_same k v [] = rw (eq_refl k) refl
lookup-insert_same k v ((j, w) ∷ m) = ground (arith, eq_refl k, lookup-insert_same k v m)

cached-cache_insert :
    (p : Perception) (h : String) (r : PredicateResult) → cached (cache_insert p h r) h ≡ some r
unfolding cached cache_insert
cached-cache_insert p h r = lookup-insert_same h r p.entries

module _ (hash : PredicateKind → Result PerceptionError String) (leaf : Leaf) where
  -- A result that is computed is in the cache that it leaves.
  store_result-cached :
      (h : String) (out : Out) (r : PredicateResult) (p : Perception)
      → store_result hash leaf h out ≡ some (ok r, p)
      → cached p h ≡ some r
  store_result-cached h none r p e = cc e
  store_result-cached h (some (err x, q)) r p e = cc e
  store_result-cached h (some (ok s, q)) r p e =
      let same_state : cache_insert q h s ≡ p = cc e in
      let same_result : s ≡ r = cc e in
      subst (λ z. cached z h ≡ some r) same_state (cached-cache_insert q h s ∙ ap some same_result)

  from_cache-cached :
      (h : String) (out : Out) (r : PredicateResult) (p q : Perception)
      (hit : Option PredicateResult)
      → cached p h ≡ hit
      → from_cache hash leaf h p out hit ≡ some (ok r, q)
      → cached q h ≡ some r
  from_cache-cached h out r p q none at e = store_result-cached h out r q e
  from_cache-cached h out r p q (some s) at e =
      let same_state : p ≡ q = cc e in
      let same_result : s ≡ r = cc e in
      subst (λ z. cached z h ≡ some r) same_state (at ∙ ap some same_result)

  -- Right after a program has evaluated a predicate without an error, the evaluation of a predicate
  -- of the same hash, by whatever program and under whatever name, gives that result and leaves the
  -- perception as it is. The two predicates and all that the programs' other names stand for may
  -- differ.
  pub evaluate_facade-shared :
      (fuel fuel' : ℕ) (ctx ctx' : Context) (name name' : String) (p q : Perception)
      (pred pred' : PredicateKind) (key : String) (r : PredicateResult)
      → lookup name ctx.predicates ≡ some pred
      → lookup name' ctx'.predicates ≡ some pred'
      → hash pred ≡ ok key
      → hash pred' ≡ ok key
      → evaluate_facade hash leaf fuel ctx name p ≡ some (ok r, q)
      → evaluate_facade hash leaf fuel' ctx' name' q ≡ some (ok r, q)
  unfolding evaluate_facade
  evaluate_facade-shared fuel fuel' ctx ctx' name name' p q pred pred' key r hn hn' hk hk' e =
      let computed =
        dispatch hash leaf ctx (evaluate_named_with_depth hash leaf fuel ctx) pred 0 p in
      let out : PredicateKind → Out =
        (λ x. dispatch hash leaf ctx (evaluate_named_with_depth hash leaf fuel ctx) x 0 p) in
      let at_pred =
        subst (λ x. found name p x (λ y. memoized hash leaf (hash y) p (out y)) ≡ some (ok r, q)) hn
          e in
      let at_key = subst (λ x. memoized hash leaf x p (out pred) ≡ some (ok r, q)) hk at_pred in
      let held = from_cache-cached key (out pred) r p q (cached p key) refl at_key in
      rw (hn', hk', memoized, held) refl
