-- ===== src/Websocket/Backoff.antt =====
-- `connect` dials at most eleven times, and doubles its pause after each failure.
use mathlib.Core.Path.{ap₂}
use native.Mathlib.Decide.{dec_lt}
use native.Mathlib.Numerals.{add-one}
use native.Mathlib.Nat.{pow-suc}
use pricefeeder.Base.{
  ◌⊎◌, sym, ℕ, zero, suc, ◌+◌, ◌-◌, ◌*◌, ◌^◌, ◌<◌, ◌≤◌, ◌≡◌, refl, true, false, Bool, arith, inl,
  inr, Bool-cases,
}
use pricefeeder.Websocket.{connected, fatal, connect_loop, connect}

pow_step : (r : ℕ) → 2 ^ (r + 1) ≡ 2 ^ r * 2
pow_step r = rw (add-one, pow-suc) refl

pow_positive : (r : ℕ) → 0 < 2 ^ r
pow_positive zero = omega arith
pow_positive (suc r) = rw pow-suc (omega (arith, pow_positive r))

-- The arguments of the next round.
next_round :
    (fuel : ℕ) (dial : ℕ → Bool) (r : ℕ)
    → connect_loop fuel dial (r + 1) (2 ^ r * 2) (2 ^ r - 1 + 2 ^ r)
      ≡ connect_loop fuel dial (r + 1) (2 ^ (r + 1)) (2 ^ (r + 1) - 1)
next_round fuel dial r =
    ap₂ (connect_loop fuel dial (r + 1)) (sym (pow_step r))
      (omega (arith, pow_step r, pow_positive r))

-- The pauses so far sum up to one second less than the next one.
connect_loop-succeeds :
    (fuel : ℕ) (dial : ℕ → Bool) (r k : ℕ)
    → r + fuel ≡ 11
    → r ≤ k
    → k < 11
    → ((i : ℕ) → r ≤ i → i < k → dial i ≡ false)
    → dial k ≡ true
    → connect_loop fuel dial r (2 ^ r) (2 ^ r - 1) ≡ connected (k + 1) (2 ^ k - 1)
unfolding connect_loop
connect_loop-succeeds zero dial r k count le lt before now = absurd (omega arith)
connect_loop-succeeds (suc fuel) dial r k count le lt before now = elim (dec_lt r k) [
  | yes later ↦ rw (before r (omega arith) later) (
      ground (
        arith,
        next_round fuel dial r,
        connect_loop-succeeds fuel dial (r + 1) k (omega arith) (omega arith) lt
            (λ i low high. before i (omega arith) high) now,
      ))
  | no here ↦ let same : k ≡ r = omega arith in rw (same, rw same at now) refl
]

connect_loop-fails :
    (fuel : ℕ) (dial : ℕ → Bool) (r : ℕ)
    → r + fuel ≡ 11
    → r < 11
    → ((i : ℕ) → i < 11 → dial i ≡ false)
    → connect_loop fuel dial r (2 ^ r) (2 ^ r - 1) ≡ fatal 11 (2 ^ 10 - 1)
unfolding connect_loop
connect_loop-fails zero dial r count lt all = absurd (omega arith)
connect_loop-fails (suc fuel) dial r count lt all = rw (all r lt) (elim (dec_lt r 10) [
  | yes more ↦ ground (
    arith,
    next_round fuel dial r,
    connect_loop-fails fuel dial (r + 1) (omega arith) (omega arith) all,
  )
  | no last ↦ let ten : r ≡ 10 = omega arith in rw ten refl
])

-- The first success among the dials, if there is one.
first_success :
    (n : ℕ) (dial : ℕ → Bool)
    → ((k : ℕ) × (k < n) × ((i : ℕ) → i < k → dial i ≡ false) × (dial k ≡ true))
      ⊎ ((i : ℕ) → i < n → dial i ≡ false)
first_success zero dial = inr λ i lt. absurd (omega arith)
first_success (suc n) dial = elim (first_success n dial) [
  | inl (k, lt, before, now) ↦ inl (k, omega arith, before, now)
  | inr all ↦ elim (Bool-cases (dial n)) [
    | inl now ↦ inl (n, omega arith, all, now)
    | inr failed ↦ inr λ i lt. elim (dec_lt i n) [
      | yes earlier ↦ all i earlier
      | no last ↦ let same : i ≡ n = omega arith in rw same failed
    ]
  ]
]

-- Whatever the dials do, `connect` ends after at most eleven of them: it connects with the first dial
-- that succeeds, after `k` failures and 1 + 2 + 4 + ... = 2^k - 1 seconds of sleep, or it gives up
-- after eleven failures and 1023 seconds.
pub connect_backoff :
    (dial : ℕ → Bool)
    → ((k : ℕ) × (k < 11)
        × ((i : ℕ) → i < k → dial i ≡ false)
        × (dial k ≡ true)
        × (connect dial ≡ connected (k + 1) (2 ^ k - 1)))
      ⊎ (((i : ℕ) → i < 11 → dial i ≡ false) × (connect dial ≡ fatal 11 1023))
unfolding connect
connect_backoff dial = elim (first_success 11 dial) [
  | inl (k, lt, before, now) ↦ inl (
    k,
    lt,
    before,
    now,
    connect_loop-succeeds 11 dial 0 k refl (omega arith) lt (λ i low high. before i high) now,
  )
  | inr all ↦ inr (all, connect_loop-fails 11 dial 0 refl (omega arith) all)
]
