-- ===== src/Poster/Retry.antt =====
-- `tryUntilDone` of feeder/priceposter/util.go, which no other code calls.
use native.Mathlib.Decide.{dec_lt}
use pricefeeder.Base.{
  ℕ, zero, suc, ◌+◌, ◌<◌, ◌≤◌, ◌≡◌, refl, ◌∙◌, Option, none, some, Text, Result, ok, err, panic,
  arith,
}

-- The select and the call of one round: `again` is what the loop does after the sleep.
try_round :
    Option Text
    → Result (Unit {0})
    → ℕ
    → Option (Result (Unit {0}) × ℕ)
    → Option (Result (Unit {0}) × ℕ)
try_round (some e) r n again = some (err e, n)
try_round none (ok done) n again = some (ok tt, n)
try_round none (err e) n again = again
try_round none panic n again = some (panic, n)

-- The rounds on fuel. `ctx_err n` is the error of the context at the n-th round, if it is done by
-- then; `f n` is what the function returns in that round. The result comes with the number of
-- sleeps.
unfoldable pub try_until_done :
    ℕ
    → (ctx_err : ℕ → Option Text) → (f : ℕ → Result (Unit {0})) → ℕ
    → Option (Result (Unit {0}) × ℕ)
unfolding try_round
try_until_done zero ctx_err f n = none
try_until_done (suc fuel) ctx_err f n =
    let again = try_until_done fuel ctx_err f (n + 1) in try_round (ctx_err n) (f n) n again

-- Round `n` is left for another one.
abbrev pub GoesOn : Option Text → Result (Unit {0}) → Type 0
GoesOn none (err e) = Unit
GoesOn _ _ = ⊥

-- How a round ends the loop.
abbrev pub outcome : Option Text → Result (Unit {0}) → Option (Result (Unit {0}))
outcome (some e) r = some (err e)
outcome none (ok done) = some (ok tt)
outcome none (err e) = none
outcome none panic = some panic

round-GoesOn :
    (c : Option Text) (r : Result (Unit {0})) (n : ℕ) (again : Option (Result (Unit {0}) × ℕ))
    → GoesOn c r
    → try_round c r n again ≡ again
unfolding try_round
round-GoesOn none (err e) n again on = refl
round-GoesOn (some e) r n again on = absurd on
round-GoesOn none (ok done) n again on = absurd on
round-GoesOn none panic n again on = absurd on

round_ends :
    (c : Option Text) (r x : Result (Unit {0})) (n : ℕ) (again : Option (Result (Unit {0}) × ℕ))
    → outcome c r ≡ some x
    → try_round c r n again ≡ some (x, n)
unfolding try_round
round_ends (some e) r x n again h = ground arith
round_ends none (ok done) x n again h = ground arith
round_ends none (err e) x n again h = absurd (ground arith)
round_ends none panic x n again h = ground arith

module _ (ctx_err : ℕ → Option Text) (f : ℕ → Result (Unit {0})) where
  from_round :
      (fuel n k : ℕ) (r : Result (Unit {0}))
      → n ≤ k
      → k < n + fuel
      → ((i : ℕ) → n ≤ i → i < k → GoesOn (ctx_err i) (f i))
      → outcome (ctx_err k) (f k) ≡ some r
      → try_until_done fuel ctx_err f n ≡ some (r, k)
  unfolding try_until_done
  from_round zero n k r le lt before now = absurd (omega arith)
  from_round (suc fuel) n k r le lt before now = elim (dec_lt n k) [
    | yes later ↦
        round-GoesOn (ctx_err n) (f n) n (try_until_done fuel ctx_err f (n + 1))
          (before n (omega arith) later)
        ∙ from_round fuel (n + 1) k r (omega arith) (omega arith)
            (λ i low high. before i (omega arith) high) now
    | no here ↦
        let same : k ≡ n = omega arith in
        rw same (round_ends (ctx_err n) (f n) r n _ (rw same at now))
  ]

  -- The loop ends at the first round at which the context is done, or the function does not return
  -- an error: as much fuel as that round's number and one more is enough.
  pub try_until_done_ends :
      (k : ℕ) (r : Result (Unit {0}))
      → ((i : ℕ) → i < k → GoesOn (ctx_err i) (f i))
      → outcome (ctx_err k) (f k) ≡ some r
      → try_until_done (k + 1) ctx_err f 0 ≡ some (r, k)
  try_until_done_ends k r before now =
      from_round (k + 1) 0 k r (omega arith) (omega arith) (λ i low high. before i high) now
