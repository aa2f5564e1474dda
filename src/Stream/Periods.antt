-- ===== src/Stream/Periods.antt =====
-- When a voting period is signalled.
use native.Mathlib.Decide.{dec_lt}
use pricefeeder.Base.{
  Option, none, Result, if◌then◌else◌, true, false, panic, err, Bool, zero, suc, Bool-cases, inl,
  inr, sym, ℕ, ◌+◌, ◌-◌, ◌%◌, ◌<◌, ◌≤◌, ◌≡◌, refl, ◌↔◌, some, ok, u64_mod, arith,
}
use pricefeeder.Types.{Params, VotingPeriod}
use pricefeeder.Stream.{voting_period_of}

-- The block behind the message begins a voting period.
abbrev pub Begins : Params → ℕ → Type 0
Begins p height = (0 < height) × ((height + 1) % p.vote_period_blocks ≡ 0)

-- Short of the largest uint64 and with a vote period of at least one block, a message with a height is
-- signalled exactly if the height is positive and the next block begins a voting period; the signal
-- carries the next block's height.
pub voting_period_of_iff :
    (p : Params) (height : ℕ) (vp : VotingPeriod)
    → 0 < p.vote_period_blocks
    → height + 1 < u64_mod
    → (voting_period_of (some p) (ok height) ≡ ok (some vp))
      ↔ (Begins p height × (vp.height ≡ height + 1))
unfolding voting_period_of
voting_period_of_iff p height vp positive small = ground arith

next_multiple : (n b : ℕ) → 0 < b → (n + (b - 1 - n % b) + 1) % b ≡ 0
next_multiple n b h = grind arith

multiple_unique : (b m k : ℕ) → 0 < b → m % b ≡ 0 → k % b ≡ 0 → m ≤ k → k < m + b → m ≡ k
multiple_unique b m k h em ek le lt = grind arith

window_unique : (b m k : ℕ) → 0 < b → m % b ≡ 0 → k % b ≡ 0 → m < k + b → k < m + b → m ≡ k
window_unique b m k h em ek lt gt = elim (dec_lt m k) [
  | yes below ↦ multiple_unique b m k h em ek (omega arith) gt
  | no above ↦ sym (multiple_unique b k m h ek em (omega arith) lt)
]

period_in_window :
    (p : Params) (first : ℕ)
    → 0 < p.vote_period_blocks
    → 0 < first
    → first + p.vote_period_blocks < u64_mod
    → (height : ℕ) × (first ≤ height)
      × (height < first + p.vote_period_blocks)
      × (voting_period_of (some p) (ok height) ≡ ok (some (record { height = height + 1 })))
      × ((other : ℕ) (vp : VotingPeriod)
          → first ≤ other
          → other < first + p.vote_period_blocks
          → voting_period_of (some p) (ok other) ≡ ok (some vp)
          → other ≡ height)
period_in_window p first positive some_first small =
    let b = p.vote_period_blocks in
    let height = first + (b - 1 - first % b) in
    let begins = next_multiple first b positive in
    (
      height,
      omega arith,
      omega arith,
      (voting_period_of_iff p height (record { height = height + 1 }) positive (omega arith)).1
          ((omega arith, begins), refl),
      λ other vp low high signalled.
          let ((_, also), _) =
            (voting_period_of_iff p other vp positive (omega arith)).0 signalled in
          let same =
            window_unique b (other + 1) (height + 1) positive also begins (omega arith)
              (omega arith) in
          omega arith,
    )

abbrev pub is_signal : Result (Option VotingPeriod) → Bool
is_signal (ok (some vp)) = true
is_signal _ = false

-- The number of heights at which a voting period is signalled, among `n` from the first on.
abbrev pub count_signals : Params → ℕ → ℕ → ℕ
count_signals p first zero = 0
count_signals p first (suc n) =
    (if is_signal (voting_period_of (some p) (ok first)) then 1 else 0)
    + count_signals p (first + 1) n

count_signals_none :
    (p : Params) (first n : ℕ)
    → ((h : ℕ) → first ≤ h → h < first + n → is_signal (voting_period_of (some p) (ok h)) ≡ false)
    → count_signals p first n ≡ 0
count_signals_none p first zero none_signalled = refl
count_signals_none p first (suc n) none_signalled =
    rw (none_signalled first (omega arith) (omega arith)) (
      omega (
        arith,
        count_signals_none p (first + 1) n
            λ h low high. none_signalled h (omega arith) (omega arith),
      ))

count_signals_one :
    (p : Params) (first n k : ℕ)
    → first ≤ k
    → k < first + n
    → is_signal (voting_period_of (some p) (ok k)) ≡ true
    → ((h : ℕ)
        → first ≤ h
        → h < first + n
        → is_signal (voting_period_of (some p) (ok h)) ≡ true
        → h ≡ k)
    → count_signals p first n ≡ 1
count_signals_one p first zero k low high here unique = absurd (omega arith)
count_signals_one p first (suc n) k low high here unique = elim (dec_lt first k) [
  | yes later ↦
      let silent : is_signal (voting_period_of (some p) (ok first)) ≡ false =
        elim (Bool-cases (is_signal (voting_period_of (some p) (ok first)))) [
          | inl early ↦
              let same = unique first (omega arith) (omega arith) early in absurd (omega arith)
          | inr quiet ↦ quiet
        ] in
      rw silent (
        omega (
          arith,
          count_signals_one p (first + 1) n k (omega arith) (omega arith) here
              λ h l g e. unique h (omega arith) (omega arith) e,
        ))
  | no now ↦
      let same : first ≡ k = omega arith in
      let signalled : is_signal (voting_period_of (some p) (ok first)) ≡ true = rw same here in
      rw signalled (
        omega (
          arith,
          count_signals_none p (first + 1) n λ h l g.
              elim (Bool-cases (is_signal (voting_period_of (some p) (ok h)))) [
                | inl late ↦
                    let again = unique h (omega arith) (omega arith) late in absurd (omega arith)
                | inr quiet ↦ quiet
              ],
        ))
]

signal_inverts :
    (r : Result (Option VotingPeriod))
    → is_signal r ≡ true
    → (vp : VotingPeriod) × (r ≡ ok (some vp))
signal_inverts (ok (some vp)) h = (vp, refl)
signal_inverts (ok none) h = absurd (ground arith)
signal_inverts (err e) h = absurd (ground arith)
signal_inverts panic h = absurd (ground arith)

-- While the parameters stand, every window of as many consecutive positive heights as a vote period
-- has blocks holds exactly one height at which a voting period is signalled, and the signal has the next
-- height.
pub voting_period_once :
    (p : Params) (first : ℕ)
    → 0 < p.vote_period_blocks
    → 0 < first
    → first + p.vote_period_blocks < u64_mod
    → (count_signals p first p.vote_period_blocks ≡ 1)
      × (height : ℕ) × (first ≤ height)
      × (height < first + p.vote_period_blocks)
      × (voting_period_of (some p) (ok height) ≡ ok (some (record { height = height + 1 })))
voting_period_once p first positive some_first small =
    let (height, low, high, signalled, unique) =
      period_in_window p first positive some_first small in
    (
      count_signals_one p first p.vote_period_blocks height low high (rw signalled refl)
          λ h l g e. let (vp, at_h) = signal_inverts _ e in unique h vp l g at_h,
      height,
      low,
      high,
      signalled,
    )
