-- ===== src/Runtime/Watches/Firing.antt =====
-- When a watch fires, told with the integers and without the order of the guards.
use vcli.Prelude.{
  ℕ, ◌^◌, ◌<◌, ◌≡◌, refl, subst, ◌↔◌, inl, inr, Bool, true, false, Option, none, some, arith,
  Bool-cases, ℤ, pos, ◌+ℤ◌, ◌≤ℤ◌, ltb_ℤ, saturating_sub,
}
use vcli.Core.Program.{Lifetime, Watch}
use mathlib.Core.Option.{some-injective}
use vcli.Prelude.{saturating_sub-ltb}
use vcli.Core.Program.{one_shot, persistent, timeout_ms, until_predicate}
use vcli.Runtime.Program.{WatchRuntime}
use vcli.Runtime.Watches.{fire, decide, window_over, throttled, is_one_shot, after_fire}

-- A `u32` of milliseconds.
abbrev pub InU32 : ℕ → Type 0
InU32 n = n < 2 ^ 32

-- `n` milliseconds after `since` have passed at `now`.
abbrev pub HasPassed : ℕ → ℤ → ℤ → Type 0
HasPassed n since now = since +ℤ pos n ≤ℤ now

HasPassed_iff :
    (a b : ℤ) (n : ℕ) → InU32 n → (ltb_ℤ (saturating_sub a b) (pos n) ≡ false) ↔ HasPassed n b a
unfolding ◌+ℤ◌
HasPassed_iff a b n h = (
  (λ e. ground (arith, saturating_sub-ltb a b n)),
  (λ e. ground (arith, saturating_sub-ltb a b n)),
)

throttled_iff :
    (x : Option ℤ) (now : ℤ) (n : ℕ)
    → InU32 n
    → (throttled x now n ≡ false) ↔ ((last : ℤ) → x ≡ some last → HasPassed n last now)
throttled_iff none now n h = ((λ e last p. cc p), (λ f. refl))
throttled_iff (some t) now n h = (
  (λ e last p.
      subst (λ z. HasPassed n z now) (some-injective t last p) ((HasPassed_iff now t n h).0 e)),
  (λ f. (HasPassed_iff now t n h).1 (f t refl)),
)

-- The `TimeoutMs` of a lifetime.
abbrev pub window_of : Lifetime → Option ℕ
window_of (timeout_ms ms) = some ms
window_of _ = none

abbrev pub IsOpen : Option ℕ → ℤ → ℤ → Type 0
IsOpen none now since = Unit {0}
IsOpen (some ms) now since = ¬ HasPassed ms since now

window_iff :
    (l : Lifetime) (now since : ℤ)
    → ((ms : ℕ) → window_of l ≡ some ms → InU32 ms)
    → (window_over l now since ≡ false) ↔ IsOpen (window_of l) now since
window_iff one_shot now since h = ((λ e. tt), (λ e. refl))
window_iff persistent now since h = ((λ e. tt), (λ e. refl))
window_iff (until_predicate n) now since h = ((λ e. tt), (λ e. refl))
window_iff (timeout_ms ms) now since h =
    let passed = HasPassed_iff now since ms (h ms refl) in
    elim (Bool-cases (ltb_ℤ (saturating_sub now since) (pos ms))) [
      | inl e ↦ ((λ x p. cc (e, passed.1 p)), (λ x. rw e refl))
      | inr e ↦ ((λ x. cc (e, x)), (λ x. absurd (x (passed.0 e))))
    ]

-- A watch is due: it is not retired, its window is open, its predicate has just become true, and
-- its throttle has passed since the last fire.
pub record IsDue (watch : Watch) (state : WatchRuntime) (truthy : Bool) (now since : ℤ)
    : Type 0 where
  pub live : state.retired ≡ false
  pub in_window : IsOpen (window_of watch.lifetime) now since
  pub was_false : state.last_truthy ≡ false
  pub is_true : truthy ≡ true
  pub rested : (last : ℤ) → state.last_fired_ms ≡ some last → HasPassed watch.throttle_ms last now

module _ (watch : Watch) (state : WatchRuntime) (truthy : Bool) (now since : ℤ) where
  abbrev Guards : Type 0
  Guards =
      (state.retired ≡ false)
      × (window_over watch.lifetime now since ≡ false)
      × (state.last_truthy ≡ false)
      × (truthy ≡ true)
      × (throttled state.last_fired_ms now watch.throttle_ms ≡ false)

  decide_iff : (decide watch state truthy now since ≡ fire) ↔ Guards
  unfolding decide
  decide_iff = ground arith

  -- A watch fires exactly if it is due, for throttles and windows that are `u32`s: the saturating
  -- differences of the code decide the true sums.
  pub decide-IsDue :
      InU32 watch.throttle_ms
      → ((ms : ℕ) → window_of watch.lifetime ≡ some ms → InU32 ms)
      → (decide watch state truthy now since ≡ fire) ↔ IsDue watch state truthy now since
  decide-IsDue ht hw =
      let window = window_iff watch.lifetime now since hw in
      let throttle = throttled_iff state.last_fired_ms now watch.throttle_ms ht in
      (
        (λ e.
            let g = decide_iff.0 e in
            record {
              live = g.0;
              in_window = window.0 g.1;
              was_false = g.2;
              is_true = g.3;
              rested = throttle.0 g.4;
            }),
        (λ d.
            decide_iff.1
              (d.live, window.1 d.in_window, d.was_false, d.is_true, throttle.1 d.rested)),
      )

-- After a fire at `fired`, however the truth of the predicate moves on, the watch fires again only
-- when its throttle has passed, and never if it is one-shot.
pub refire-spacing :
    (watch : Watch) (state : WatchRuntime) (last_truthy truthy : Bool) (fired now since : ℤ)
    → InU32 watch.throttle_ms
    → decide watch
        (record (after_fire watch fired state) { last_truthy = last_truthy })
        truthy
        now
        since
      ≡ fire
    → HasPassed watch.throttle_ms fired now × (is_one_shot watch.lifetime ≡ false)
unfolding after_fire
refire-spacing watch state last_truthy truthy fired now since h e =
    let later = record (after_fire watch fired state) { last_truthy = last_truthy } in
    let g = (decide_iff watch later truthy now since).0 e in
    ((throttled_iff (some fired) now watch.throttle_ms h).0 g.4 fired refl, ground (arith, g.0))
