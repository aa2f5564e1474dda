-- ===== src/Stream/Signals.antt =====
-- Which voting periods the feeder receives.
use mathlib.Core.Path.{subst}
use mathlib.Core.List.{append-nil}
use pricefeeder.Base.{
  ℕ, ◌+◌, ◌%◌, ◌<◌, ◌≡◌, refl, ◌∙◌, ap, sym, ◌⊎◌, inl, inr, false, Option, none, some, List, [],
  ◌∷◌, ◌++◌, Text, Result, ok, err, panic, All, All-append, u64_mod, arith, Result,
}
use pricefeeder.Types.{Params, VotingPeriod, NewBlockJson, get_block_height}
use pricefeeder.Stream.{
  handle_message, voting_period_of, LoopState, waiting, sending, Stream, new_stream, Step, message,
  period_sent, period_dropped, voting_exits, tick_failed, tick_same, tick_news, params_sent,
  params_dropped, params_exits, params_received, close_called, Reach, start, next,
}

abbrev of_signal : Option VotingPeriod → List VotingPeriod
of_signal none = []
of_signal (some vp) = vp ∷ []

abbrev pub pending : LoopState VotingPeriod → List VotingPeriod
pending (sending vp) = vp ∷ []
pending _ = []

abbrev pub WasHeld : Params → List Params → Type 0
WasHeld p [] = ⊥
WasHeld p (q ∷ qs) = (p ≡ q) ⊎ WasHeld p qs

module _ (unmarshal : Text → Result NewBlockJson) where
  -- The voting periods that the handled messages gave, in order.
  abbrev pub signals : {s : Stream} → Reach unmarshal s → List VotingPeriod
  signals start = []
  signals (next reach (message msg signal at_select handled)) = signals reach ++ of_signal signal
  signals (next reach _) = signals reach

  -- The parameters that the stream held so far.
  abbrev pub held : {s : Stream} → Reach unmarshal s → List Params
  held start = []
  held (next reach (tick_same answer new at_select fetched same)) = new ∷ held reach
  held (next reach (tick_news answer new at_select fetched news)) = new ∷ held reach
  held (next reach _) = held reach

  -- The block after the one of a message, with a height that a vote period of held parameters
  -- divides.
  pub record IsPeriod (params : List Params) (vp : VotingPeriod) : Type 0 where
    pub p : Params
    pub msg : Text
    pub height : ℕ
    pub was_held : WasHeld p params
    pub announced : get_block_height unmarshal msg ≡ ok height
    pub positive : 0 < height
    pub next_block : vp.height ≡ (height + 1) % u64_mod
    pub some_blocks : 0 < p.vote_period_blocks
    pub divides : vp.height % p.vote_period_blocks ≡ 0

  voting_period_of-inverts :
      (params : Option Params) (r : Result ℕ) (vp : VotingPeriod)
      → voting_period_of params r ≡ ok (some vp)
      → (p : Params) × (height : ℕ) × (params ≡ some p)
        × (r ≡ ok height)
        × (0 < height)
        × (vp.height ≡ (height + 1) % u64_mod)
        × (0 < p.vote_period_blocks)
        × (vp.height % p.vote_period_blocks ≡ 0)
  unfolding voting_period_of
  voting_period_of-inverts none (ok height) vp h = absurd (ground arith)
  voting_period_of-inverts params (err e) vp h = absurd (ground arith)
  voting_period_of-inverts params panic vp h = absurd (ground arith)
  voting_period_of-inverts (some p) (ok height) vp h =
      (p, height, refl, refl, ground arith, ground arith, ground arith, ground arith)

  abbrev MayHold : List Params → Option Params → Type 0
  MayHold params none = Unit
  MayHold params (some p) = WasHeld p params

  later :
      (q : Params) (params : List Params) (vps : List VotingPeriod)
      → All (IsPeriod params) vps
      → All (IsPeriod (q ∷ params)) vps
  later q params [] h = tt
  later q params (vp ∷ vps) (h, hs) = (
    record {
      p = h.p;
      msg = h.msg;
      height = h.height;
      was_held = inr h.was_held;
      announced = h.announced;
      positive = h.positive;
      next_block = h.next_block;
      some_blocks = h.some_blocks;
      divides = h.divides;
    },
    later q params vps hs,
  )

  record Inv {s : Stream} (reach : Reach unmarshal s) : Type 0 where
    current : MayHold (held reach) s.params
    periods : All (IsPeriod (held reach)) (signals reach)
    sent : s.stopped ≡ false → s.periods_out ++ pending s.voting_loop ≡ signals reach

  handled-IsPeriod :
      (params : Option Params) (told : List Params) (msg : Text) (vp : VotingPeriod)
      → handle_message unmarshal params msg ≡ ok (some vp)
      → MayHold told params
      → IsPeriod told vp
  unfolding handle_message
  handled-IsPeriod params told msg vp handled may =
      let (p, height, same, announced, positive, next_block, some_blocks, divides) =
        voting_period_of-inverts params (get_block_height unmarshal msg) vp handled in
      record {
        p = p;
        msg = msg;
        height = height;
        was_held = subst (MayHold told) same may;
        announced = announced;
        positive = positive;
        next_block = next_block;
        some_blocks = some_blocks;
        divides = divides;
      }

  -- The first loop is about to send nothing.
  at_select-sent :
      (s : Stream) {vps : List VotingPeriod}
      → s.voting_loop ≡ waiting
      → s.periods_out ++ pending s.voting_loop ≡ vps
      → s.periods_out ≡ vps
  at_select-sent s at_select sent =
      sym (append-nil s.periods_out) ∙ ap (λ l. s.periods_out ++ pending l) (sym at_select) ∙ sent

  step-Inv :
      {s t : Stream} (reach : Reach unmarshal s) (step : Step unmarshal s t)
      → Inv reach
      → Inv (next reach step)
  step-Inv {s} reach (message msg none at_select handled) h = record {
    current = h.current;
    periods = subst (All (IsPeriod (held reach))) (sym (append-nil (signals reach))) h.periods;
    sent = λ on.
        append-nil s.periods_out
        ∙ at_select-sent s at_select (h.sent on)
        ∙ sym (append-nil (signals reach));
  }
  step-Inv {s} reach (message msg (some vp) at_select handled) h = record {
    current = h.current;
    periods =
        All-append (IsPeriod (held reach)) (signals reach) (vp ∷ []) h.periods
          (handled-IsPeriod s.params (held reach) msg vp handled h.current, tt);
    sent = λ on. ap (λ l. l ++ (vp ∷ [])) (at_select-sent s at_select (h.sent on));
  }
  step-Inv {s} reach (period_sent vp at_send) h = record {
    current = h.current;
    periods = h.periods;
    sent = λ on.
        append-nil (s.periods_out ++ (vp ∷ []))
        ∙ ap (λ l. s.periods_out ++ pending l) (sym at_send)
        ∙ h.sent on;
  }
  step-Inv reach (period_dropped vp at_send off) h = record {
    current = h.current;
    periods = h.periods;
    sent = λ on. absurd (ground arith);
  }
  step-Inv reach (voting_exits at_select off) h = record {
    current = h.current;
    periods = h.periods;
    sent = λ on. absurd (ground arith);
  }
  step-Inv reach (tick_failed answer e at_select failed) h = record {
    current = h.current;
    periods = h.periods;
    sent = h.sent;
  }
  step-Inv reach (tick_same answer new at_select fetched same) h = record {
    current = inl refl;
    periods = later new (held reach) (signals reach) h.periods;
    sent = h.sent;
  }
  step-Inv reach (tick_news answer new at_select fetched news) h = record {
    current = inl refl;
    periods = later new (held reach) (signals reach) h.periods;
    sent = h.sent;
  }
  step-Inv reach (params_sent new at_send empty) h = record {
    current = h.current;
    periods = h.periods;
    sent = h.sent;
  }
  step-Inv reach (params_dropped new at_send off) h = record {
    current = h.current;
    periods = h.periods;
    sent = h.sent;
  }
  step-Inv reach (params_exits at_select off) h = record {
    current = h.current;
    periods = h.periods;
    sent = h.sent;
  }
  step-Inv reach (params_received new full) h = record {
    current = h.current;
    periods = h.periods;
    sent = h.sent;
  }
  step-Inv reach (close_called off) h = record {
    current = h.current;
    periods = h.periods;
    sent = λ on. absurd (ground arith);
  }

  reach-Inv : {s : Stream} (reach : Reach unmarshal s) → Inv reach
  unfolding new_stream
  reach-Inv start = record { current = tt; periods = tt; sent = λ on. refl }
  reach-Inv (next reach step) = step-Inv reach step (reach-Inv reach)

  -- Until the stream is closed, whatever the order of its steps: the feeder receives the voting
  -- periods that the messages gave, none lost, repeated or out of order, but for the last, which
  -- may be about to be sent. Each is the block after the one of a message with a positive height,
  -- by the vote period of parameters that the stream held.
  pub periods-IsPeriod :
      {s : Stream} (reach : Reach unmarshal s)
      → s.stopped ≡ false
      → (s.periods_out ++ pending s.voting_loop ≡ signals reach)
        × All (IsPeriod (held reach)) (signals reach)
  periods-IsPeriod reach on = ((reach-Inv reach).sent on, (reach-Inv reach).periods)
