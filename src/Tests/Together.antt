-- ===== src/Tests/Together.antt =====
-- The parts together (cmd/root.go, feeder/feeder.go, feeder/priceprovider) in a run of one voting period.
use mathlib.Core.List.Perm
use mathlib.Core.Path.{subst}
use pricefeeder.Base.{
  ◌≡◌, refl, arith, true, List, [], ◌∷◌, map, All, text, text_eq, Dict, lookup, insert, merge,
}
use pricefeeder.Sample.{Number, pos, number_float, is_finite, Number-IsIeee}
use pricefeeder.Types.{Pair, Price, RawPrice, VotingPeriod}
use pricefeeder.Provider.{ProviderLoop, provider_step, get_price, is_valid}
use pricefeeder.Aggregate.{aggregate_price, ask_all, compute_consolidated_price}
use pricefeeder.Feeder.{Feeder, FeederCall, gather_price, send_prices}
use pricefeeder.System.{
  selecting, gathering, System, SystemReach, updated, period_began, pair_asked, prices_sent, start,
  next,
}
use pricefeeder.System.Spec.{ViewReach}
use pricefeeder.System.Refines.{view_of, system_refines}
use pricefeeder.System.Posted.{told, IsPost, pair_of, posts-IsPost}
use pricefeeder.System.Completes.{after_post, period_completes}
use pricefeeder.Aggregate.Bounds.{Within}
use pricefeeder.System.Quotes.{Quoted, IsQuoted}
use pricefeeder.System.Range.{updates_of, PostBounded, posts-IsBounded}
use pricefeeder.System.Stops.{IsGone, Finishes, Closed, close_returns}

abbrev pub btc : Pair
btc = text "ubtc:uusd"

abbrev okex : ProviderLoop Number
okex = record {
  provider = record {
    source_name = text "okex";
    pair_to_symbol_mapping = (btc, text "BTC-USDT") ∷ [];
    last_prices = [];
  };
  running = true;
  exits = [];
}

abbrev batch : Dict (RawPrice Number)
batch = (text "BTC-USDT", record { price = pos 30; update_time = 4 }) ∷ []

abbrev pub okex_updated : ProviderLoop Number
okex_updated = record okex { provider = record (okex.provider) { last_prices = batch } }

abbrev feeder : Feeder Number
feeder = record {
  params = record { pairs = btc ∷ []; vote_period_blocks = 30 };
  running = true;
  calls = [];
}

abbrev pub vp : VotingPeriod
vp = record { height = 60 }

abbrev pub price : Price Number
price = record { pair = btc; price = pos 30; source_name = text "okex"; valid = true }

abbrev s₀ : System Number
s₀ = record { feeder = feeder; phase = selecting; providers = okex ∷ [] }

abbrev pub s₁ : System Number
s₁ = record { feeder = feeder; phase = selecting; providers = okex_updated ∷ [] }

abbrev pub s₂ : System Number
s₂ = record s₁ { phase = gathering vp (btc ∷ []) [] }

abbrev pub s₃ : System Number
s₃ = record s₁ { phase = gathering vp [] (price ∷ []) }

abbrev pub s₄ : System Number
s₄ = record s₁ { feeder = record feeder { calls = send_prices vp (price ∷ []) ∷ [] } }

reached₁ : SystemReach s₀ s₁
unfolding provider_step merge insert lookup
reached₁ = next start (updated [] [] okex batch refl refl (refl, tt))

reached₂ : SystemReach s₀ s₂
reached₂ = next reached₁ (period_began vp refl refl)

reached₃ : SystemReach s₀ s₃
unfolding aggregate_price ask_all compute_consolidated_price get_price is_valid lookup text_eq
    gather_price
reached₃ =
    next reached₂ (pair_asked vp btc [] [] ((9, okex_updated) ∷ []) price refl (Perm.refl _) refl)

reached₄ : SystemReach s₀ s₄
reached₄ = next reached₃ (prices_sent vp (price ∷ []) refl)

system_refines_example : ViewReach is_finite (view_of s₀) (view_of s₄)
system_refines_example = system_refines Number-IsIeee reached₄

posts-IsPost_example : All (IsPost (told reached₄)) ((vp, price ∷ []) ∷ [])
posts-IsPost_example = posts-IsPost reached₄ refl refl

period_completes_example :
    (prices : List (Price Number)) × SystemReach s₁ (after_post s₁ vp prices)
    × (map pair_of prices ≡ btc ∷ [])
period_completes_example = period_completes s₁ vp 9 refl refl

close_returns_example :
    (u : System Number) × SystemReach s₀ u
    × All IsGone u.providers
    × (finishing : List (FeederCall Number)) × Finishes s₂.phase finishing
    × Closed feeder u.feeder finishing
close_returns_example = close_returns (refl, tt) reached₂ refl

-- Okex reports prices between 20 and 40.
abbrev low : Pair → Number
low pair = pos 20

abbrev high : Pair → Number
high pair = pos 40

batch-Quoted : Quoted Number-IsIeee low high (okex.provider.pair_to_symbol_mapping, batch)
unfolding lookup
batch-Quoted pair symbol raw mapped found =
    let same : record { price = pos 30; update_time = 4 } ≡ raw = ground (arith, found) in
    subst (λ (r : RawPrice Number). Within Number-IsIeee (pos 20) (pos 40) r.price) same
      (refl, refl, refl)

nothing-IsQuoted : IsQuoted Number-IsIeee low high okex
unfolding lookup
nothing-IsQuoted pair symbol raw mapped found = ground (arith, found)

updates-Quoted : All (Quoted Number-IsIeee low high) (updates_of reached₄)
unfolding reached₁ reached₂ reached₃ reached₄
updates-Quoted = (batch-Quoted, tt)

posts-IsBounded_example : All (PostBounded Number-IsIeee low high) ((vp, price ∷ []) ∷ [])
posts-IsBounded_example =
    posts-IsBounded Number-IsIeee low high reached₄ refl refl (nothing-IsQuoted, tt) updates-Quoted
