-- ===== src/Tests/Joining.antt =====
-- The stream joined with the feeder and its provider (feeder/feeder.go, feeder/eventstream/stream.go) in a run of
-- one voting period.
use mathlib.Core.List.Perm
use pricefeeder.Base.{
  ◌≡◌, refl, some, [], ◌∷◌, ◌++◌, All, Text, text, text_eq, Result, ok, lookup, parse_uint,
}
use pricefeeder.Sample.{Number, number_float}
use pricefeeder.Types.{NewBlockJson, params_from_oracle_params, get_block_height}
use pricefeeder.Provider.{get_price, is_valid}
use pricefeeder.Aggregate.{aggregate_price, ask_all, compute_consolidated_price}
use pricefeeder.Feeder.{gather_price}
use pricefeeder.Stream
use pricefeeder.Stream.{
  Stream, new_stream, fetch_params, is_news, handle_message, voting_period_of, Reach, tick_news,
  params_sent, params_received, message, waiting,
}
use pricefeeder.Stream.Signals.{signals, held, pending, IsPeriod}
use pricefeeder.System.{pair_asked, prices_sent}
use pricefeeder.System.Posted.{IsPost}
use pricefeeder.Joined.{Joined, JoinedReach, stream_moves, system_moves, period_handed, start, next}
use pricefeeder.Joined.Posts.{taken, stream_reach, joined-posts, joined-params}
use pricefeeder.Tests.Streaming.{params, chain_params}
use pricefeeder.Tests.Together.{btc, okex_updated, vp, price, s₁, s₂, s₃, s₄}

-- A message of block 59.
block : Text → Result NewBlockJson
block msg = ok (record {
  jsonrpc = text "2.0";
  id = 0;
  result = record {
    query = [];
    block_data = record {
      kind = [];
      value = record {
        block = record {
          header = record { chain_id = text "vsc-1"; height = text "59"; last_commit_hash = [] };
        };
      };
    };
  };
})

abbrev told : Stream
told = record new_stream { params = some (params 30); params_out = params 30 ∷ [] }

told-Reach : Reach block told
unfolding new_stream fetch_params params_from_oracle_params is_news
told-Reach =
    Stream.next
      (Stream.next
        (Stream.next Stream.start (tick_news (ok chain_params) (params 30) refl refl refl))
        (params_sent (params 30) refl refl))
      (params_received (params 30) refl)

abbrev j₁ : Joined Number
j₁ = record { stream = told; system = s₁ }

abbrev signalling : Stream
signalling = record told { voting_loop = Stream.sending vp }

abbrev signalled : Stream
signalled = record told { periods_out = vp ∷ [] }

abbrev j₄ : Joined Number
j₄ = record { stream = signalled; system = s₄ }

signalling-JoinedReach : JoinedReach block (record { stream = signalling; system = s₁ })
unfolding new_stream handle_message voting_period_of block get_block_height parse_uint text_eq
signalling-JoinedReach =
    next (start (params 30) (okex_updated ∷ []) told-Reach refl refl refl)
      (stream_moves signalling (message (text "{...}") (some vp) refl refl) refl refl refl)

gathering-JoinedReach : JoinedReach block (record { stream = signalled; system = s₂ })
unfolding new_stream
gathering-JoinedReach = next signalling-JoinedReach (period_handed vp refl refl refl)

posted-JoinedReach : JoinedReach block j₄
unfolding aggregate_price ask_all compute_consolidated_price get_price is_valid lookup text_eq
    gather_price
posted-JoinedReach =
    next
      (next gathering-JoinedReach (
        system_moves s₃
          (pair_asked vp btc [] [] ((9, okex_updated) ∷ []) price refl (Perm.refl _) refl) tt))
      (system_moves s₄ (prices_sent vp (price ∷ []) refl) tt)

joined-posts_example :
    (taken s₄ ++ pending waiting ≡ signals block (stream_reach block posted-JoinedReach))
    × All
        (IsPeriod block (held block (stream_reach block posted-JoinedReach)))
        (signals block (stream_reach block posted-JoinedReach))
    × All (IsPost (params 30 ∷ [])) ((vp, price ∷ []) ∷ [])
unfolding new_stream
joined-posts_example = joined-posts block posted-JoinedReach refl

joined-params_example : some s₄.feeder.params ≡ some (params 30)
unfolding new_stream
joined-params_example = joined-params block posted-JoinedReach refl refl refl
