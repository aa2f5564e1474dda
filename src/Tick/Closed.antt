-- ===== src/Tick/Closed.antt =====
-- `Close` of a tick source.
use pricefeeder.Base.{◌≡◌, refl, ◌∙◌, Option-cases, inl, inr, some, List, [], ◌∷◌, ◌++◌, arith}
use pricefeeder.Tick.{
  Batch, TickMode, waiting, sending, returned, crashed, done_closed, tick_stopped, TickSource,
  TickEvent, stop_signal, tick_step, tick_run, close,
}

module _ {F : Type 0} where
  -- The loop can take the stop signal: it waits at its select, or at the select that sends.
  abbrev pub CanStop : TickMode F → Type 0
  CanStop waiting = Unit
  CanStop (sending batch) = Unit
  CanStop _ = ⊥

  -- What `Close` leaves: the batch that was about to be sent is dropped.
  abbrev pub dropped_with : TickMode F → List (Batch F) → List (Batch F)
  dropped_with (sending batch) dropped = batch ∷ dropped
  dropped_with _ dropped = dropped

  abbrev pub gone : TickSource F → TickSource F
  gone s = record s {
    mode = returned;
    dropped = dropped_with s.mode s.dropped;
    exits = done_closed ∷ tick_stopped ∷ [];
  }

  step_stop :
      (m : TickMode F) (s : TickSource F)
      → CanStop m
      → tick_step m stop_signal s
        ≡ some (record s {
          mode = returned;
          dropped = dropped_with m s.dropped;
          exits = done_closed ∷ tick_stopped ∷ [];
        })
  unfolding tick_step
  step_stop waiting s can = refl
  step_stop (sending batch) s can = refl
  step_stop returned s can = absurd can
  step_stop crashed s can = absurd can

  pub tick_run-append :
      (late more : List (TickEvent F)) (s m : TickSource F)
      → tick_run late s ≡ some m
      → tick_run (late ++ more) s ≡ tick_run more m
  unfolding tick_run
  tick_run-append [] more s m e = ground arith
  tick_run-append (event ∷ late) more s m e = elim (Option-cases (tick_step s.mode event s)) [
    | inl stuck ↦ absurd (ground arith)
    | inr (n, took) ↦ ground (arith, tick_run-append late more n m)
  ]

  -- Wherever the loop stands after the events that it still takes, `Close` gets it out.
  pub close-gone :
      (late : List (TickEvent F)) (s m : TickSource F)
      → tick_run late s ≡ some m
      → CanStop m.mode
      → close late s ≡ some (gone m)
  unfolding close tick_run
  close-gone late s m e can =
      tick_run-append late (stop_signal ∷ []) s m e ∙ ground (arith, step_stop m.mode m can)
