-- ===== src/Stream/Closes.antt =====
-- `Close` of feeder/eventstream/stream.go.
use mathlib.Core.Path.{subst}
use pricefeeder.Base.{◌≡◌, refl, sym, ◌⊎◌, inl, inr, true, none, some, Text, Result}
use pricefeeder.Types.{VotingPeriod, NewBlockJson}
use pricefeeder.Stream.{
  LoopState, waiting, sending, exited, Stream, new_stream, Step, message, period_sent,
  period_dropped, voting_exits, tick_failed, tick_same, tick_news, params_sent, params_dropped,
  params_exits, params_received, close_called, Reach, start, next,
}

abbrev pub IsExited : LoopState VotingPeriod → Type 0
IsExited waiting = ⊥
IsExited (sending vp) = ⊥
IsExited exited = Unit

-- Either loop gone; the first one closes the websocket on its way out.
abbrev pub voting_gone : Stream → Stream
voting_gone s = record s { voting_loop = exited; ws_closed = true }

abbrev pub params_gone : Stream → Stream
params_gone s = record s { params_loop = exited }

module _ (unmarshal : Text → Result NewBlockJson) where
  -- Steps from one state to another.
  pub data Steps : Stream → Stream → Type 0 where
    here : {s : Stream} → Steps s s
    then : {s t u : Stream} → Step unmarshal s t → Steps t u → Steps s u

  -- The first loop closes the websocket on its way out.
  abbrev Closed : Stream → Type 0
  Closed s = IsExited s.voting_loop → s.ws_closed ≡ true

  Step-Closed : {s t : Stream} → Step unmarshal s t → Closed s → Closed t
  Step-Closed (message msg none at_select handled) h gone = absurd gone
  Step-Closed (message msg (some vp) at_select handled) h gone = absurd gone
  Step-Closed (period_sent vp at_send) h gone = absurd gone
  Step-Closed (period_dropped vp at_send off) h gone = absurd gone
  Step-Closed (voting_exits at_select off) h gone = refl
  Step-Closed (tick_failed answer e at_select failed) h gone = h gone
  Step-Closed (tick_same answer new at_select fetched same) h gone = h gone
  Step-Closed (tick_news answer new at_select fetched news) h gone = h gone
  Step-Closed (params_sent new at_send empty) h gone = h gone
  Step-Closed (params_dropped new at_send off) h gone = h gone
  Step-Closed (params_exits at_select off) h gone = h gone
  Step-Closed (params_received new full) h gone = h gone
  Step-Closed (close_called off) h gone = h gone

  Reach-Closed : {s : Stream} → Reach unmarshal s → Closed s
  unfolding new_stream
  Reach-Closed start gone = absurd gone
  Reach-Closed (next reach step) gone = Step-Closed step (Reach-Closed reach) gone

  loop-cases :
      {A : Type 0} (l : LoopState A) → (l ≡ waiting) ⊎ ((a : A) × (l ≡ sending a)) ⊎ (l ≡ exited)
  loop-cases waiting = inl refl
  loop-cases (sending a) = inr (inl (a, refl))
  loop-cases exited = inr (inr refl)

  params_leaves : (s : Stream) → s.stopped ≡ true → Steps s (params_gone s)
  params_leaves s off = elim (loop-cases s.params_loop) [
    | inl at_select ↦ then (params_exits at_select off) here
    | inr (inl (new, at_send)) ↦
        then (params_dropped new at_send off) (then (params_exits refl off) here)
    | inr (inr gone) ↦ subst (λ l. Steps s (record s { params_loop = l })) gone here
  ]

  voting_leaves : (s u : Stream) → Closed s → s.stopped ≡ true → Steps (voting_gone s) u → Steps s u
  voting_leaves s u closed off rest = elim (loop-cases s.voting_loop) [
    | inl at_select ↦ then (voting_exits at_select off) rest
    | inr (inl (vp, at_send)) ↦
        then (period_dropped vp at_send off) (then (voting_exits refl off) rest)
    | inr (inr gone) ↦
        let closed_ws = closed (subst IsExited (sym gone) tt) in
        let same : voting_gone s ≡ s =
          λ i. record s { voting_loop = sym gone i; ws_closed = sym closed_ws i } in
        subst (λ w. Steps w u) same rest
  ]

  -- Once the stream is closed, its two loops can be gone after steps of their own, wherever they
  -- stood and although the feeder receives nothing any more: nothing else is signalled, and the
  -- websocket is closed, so that the wait of `Close` ends.
  pub closed_loops_leave :
      {s : Stream} → Reach unmarshal s → s.stopped ≡ true → Steps s (params_gone (voting_gone s))
  closed_loops_leave {s} reach off =
      voting_leaves s _ (Reach-Closed reach) off (params_leaves (voting_gone s) off)
