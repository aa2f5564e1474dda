-- ===== src/Stream/Updates.antt =====
-- Which parameters the feeder is told.
use pricefeeder.Base.{
  ◌≡◌, refl, ◌∙◌, ◌≢◌, Option, none, some, List, [], ◌∷◌, ◌++◌, Text, Result, true, false, arith,
  sym, ap,
}
use mathlib.Core.Path.{subst, ap₂}
use mathlib.Core.List.{append_assoc, append-nil}
use pricefeeder.Types.{Params, NewBlockJson}
use pricefeeder.Types.Equal.{equal_iff}
use pricefeeder.Stream.{
  is_news, LoopState, waiting, sending, exited, Stream, new_stream, Step, message, period_sent,
  period_dropped, voting_exits, tick_failed, tick_same, tick_news, params_sent, params_dropped,
  params_exits, params_received, close_called, Reach, start, next,
}

abbrev pub of_option : Option Params → List Params
of_option none = []
of_option (some p) = p ∷ []

abbrev pub of_loop : LoopState Params → List Params
of_loop waiting = []
of_loop (sending p) = p ∷ []
of_loop exited = []

-- The parameters that were signalled: those that the feeder received, the one in the channel's buffer
-- and the one that the loop is about to send.
abbrev pub signalled : Stream → List Params
signalled s = s.params_out ++ (of_option s.buffer ++ of_loop s.params_loop)

-- From `prev`, each entry of the list differs from the one before it, and the last is `final`.
abbrev pub Changes : Option Params → List Params → Option Params → Type 0
Changes prev [] final = prev ≡ final
Changes prev (p ∷ ps) final = (prev ≢ some p) × Changes (some p) ps final

Changes-append :
    (prev final : Option Params) (ps : List Params) (p : Params)
    → Changes prev ps final
    → final ≢ some p
    → Changes prev (ps ++ (p ∷ [])) (some p)
Changes-append prev final [] p h differs = ((λ e. differs (sym h ∙ e)), refl)
Changes-append prev final (q ∷ ps) p (d, h) differs =
    (d, Changes-append (some q) final ps p h differs)

is_news-ne : (old : Option Params) (new : Params) → is_news old new ≡ true → old ≢ some new
unfolding is_news
is_news-ne none new h e = ground arith
is_news-ne (some p) new h e = ground (arith, equal_iff p new)

is_news-same : (old : Option Params) (new : Params) → is_news old new ≡ false → old ≡ some new
unfolding is_news
is_news-same none new h = ground arith
is_news-same (some p) new h = ground (arith, equal_iff p new)

-- While the stream is not closed.
abbrev Told : Stream → Type 0
Told s = s.stopped ≡ false → Changes none (signalled s) s.params

module _ (unmarshal : Text → Result NewBlockJson) where
  Step-Told : {s t : Stream} → Step unmarshal s t → Told s → Told t
  Step-Told (message msg signal at_select handled) h on = h on
  Step-Told (period_sent vp at_send) h on = h on
  Step-Told (period_dropped vp at_send off) h on = h on
  Step-Told (voting_exits at_select off) h on = h on
  Step-Told (tick_failed answer e at_select failed) h on = h on
  Step-Told {s} (tick_same answer new at_select fetched same) h on =
      subst (Changes none (signalled s)) (is_news-same s.params new same) (h on)
  Step-Told {s} (tick_news answer new at_select fetched news) h on =
      let before : signalled s ≡ s.params_out ++ of_option s.buffer =
        ap (λ l. s.params_out ++ (of_option s.buffer ++ of_loop l)) at_select
        ∙ ap (λ l. s.params_out ++ l) (append-nil (of_option s.buffer)) in
      subst (λ l. Changes none l (some new))
        (append_assoc s.params_out (of_option s.buffer) (new ∷ []))
        (Changes-append none s.params _ new (subst (λ l. Changes none l s.params) before (h on))
          (is_news-ne s.params new news))
  Step-Told {s} (params_sent new at_send empty) h on =
      let before : signalled s ≡ s.params_out ++ (new ∷ []) =
        ap₂ (λ b l. s.params_out ++ (of_option b ++ of_loop l)) empty at_send in
      subst (λ l. Changes none l s.params) before (h on)
  Step-Told (params_dropped new at_send off) h on = absurd (ground arith)
  Step-Told (params_exits at_select off) h on = absurd (ground arith)
  Step-Told {s} (params_received new full) h on =
      let before : signalled s ≡ s.params_out ++ (new ∷ of_loop s.params_loop) =
        ap (λ b. s.params_out ++ (of_option b ++ of_loop s.params_loop)) full in
      subst (λ l. Changes none l s.params)
        (before ∙ sym (append_assoc s.params_out (new ∷ []) (of_loop s.params_loop))) (h on)
  Step-Told (close_called off) h on = absurd (ground arith)

  -- Until the stream is closed, whatever the order in which its loops and the feeder take their steps:
  -- the signalled parameters, those received, buffered and about to be sent in this order, never repeat
  -- the ones just before, and the last of them are the parameters that the stream holds.
  pub Reach-Changes :
      {s : Stream} → Reach unmarshal s → s.stopped ≡ false → Changes none (signalled s) s.params
  unfolding new_stream
  Reach-Changes start on = refl
  Reach-Changes (next r st) on = Step-Told st (Reach-Changes r) on
