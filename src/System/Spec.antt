-- ===== src/System/Spec.antt =====
-- What the parts together promise, without their machinery: a source is a function from symbols to
-- their last prices, and the price that is posted for a pair is any that the answers allow.
use mathlib.Core.List.{Perm}
use pricefeeder.Base.{
  ℕ, ◌<◌, ◌≡◌, Bool, true, false, List, [], ◌∷◌, ◌++◌, ◌⊎◌, map, All, Option, Text, Dict, lookup,
  or_else,
}
use pricefeeder.Float.{Float, ◌≼◌, IsModerate}
use pricefeeder.Types.{Symbol, Pair, Price, RawPrice, Params, VotingPeriod}
use pricefeeder.Provider.Latest.{answer, latest}
use pricefeeder.Aggregate.{missing}
use pricefeeder.Aggregate.Answers.{IsValid, IsInvalid, NamesPair, count_valid}
use pricefeeder.Feeder.Posts.{reported}
use pricefeeder.System.{Phase, selecting, gathering}

pub record Source (F : Type 0) : Type 0 where
  pub name : Text
  pub symbol_of : Pair → Option Symbol
  pub last : Symbol → Option (RawPrice F)

pub record View (F : Type 0) : Type 0 where
  pub params : Params
  pub is_open : Bool
  pub phase : Phase F
  pub sources : List (Source F)
  pub posts : List (VotingPeriod × List (Price F))

module _ {F : Type 0} where
  abbrev pub learn : Dict (RawPrice F) → Source F → Source F
  learn batch q = record q { last = λ s. or_else (lookup s batch) (q.last s) }

  -- The last of the batches that has the symbol counts.
  abbrev pub learn_all : Source F × List (Dict (RawPrice F)) → Source F
  learn_all (q, batches) = record q { last = λ s. or_else (latest s batches) (q.last s) }

module _ {F : Type 0} ⦃d : Float F⦄ (is_finite : F → Bool) where
  -- The answer of a source at a moment.
  abbrev pub answer_of : Pair → ℕ × Source F → Price F
  answer_of pair (now, q) = answer q.name pair now (q.symbol_of pair) q.last

  -- The answer does not count, or lies between the bounds, and its double does not overflow.
  abbrev pub CountsBetween : F → F → Price F → Type 0
  CountsBetween lo hi a =
      IsInvalid a ⊎ ((lo ≼ a.price) × (a.price ≼ hi) × IsModerate is_finite a.price)

  -- Which prices may stand for a pair, given the answers of the sources: the invalid zero of
  -- "missing" if no answer counts, a valid one if one or two count, and in general one that names
  -- the pair and is invalid or between any bounds of the answers that count.
  pub record Allowed (answers : List (Price F)) (pair : Pair) (r : Price F) : Type 0 where
    pub names : All (NamesPair pair) answers → NamesPair pair r
    pub none_counts : All IsInvalid answers → r ≡ missing (d.of_nat 0) pair
    pub few_count : 0 < count_valid answers → count_valid answers < 3 → IsValid r
    pub between :
        (lo hi : F)
        → All (CountsBetween lo hi) answers
        → IsInvalid r ⊎ ((lo ≼ r.price) × (r.price ≼ hi))

  pub data ViewStep (v : View F) : View F → Type 0 where
    learned :
        (before after : List (Source F)) (q : Source F) (batch : Dict (RawPrice F))
        → v.sources ≡ before ++ (q ∷ after)
        → ViewStep v (record v { sources = before ++ (learn batch q ∷ after) })
    params_changed :
        (params : Params)
        → v.is_open ≡ true
        → v.phase ≡ selecting
        → ViewStep v (record v { params = params })
    period_began :
        (vp : VotingPeriod)
        → v.is_open ≡ true
        → v.phase ≡ selecting
        → ViewStep v (record v { phase = gathering vp v.params.pairs [] })
    quoted :
        (vp : VotingPeriod) (pair : Pair) (todo : List Pair) (got : List (Price F))
        (asked : List (ℕ × Source F)) (price : Price F)
        → v.phase ≡ gathering vp (pair ∷ todo) got
        → Perm (map (λ a. a.1) asked) v.sources
        → Allowed (map (answer_of pair) asked) pair price
        → ViewStep v (record v { phase = gathering vp todo (got ++ (reported price ∷ [])) })
    posted :
        (vp : VotingPeriod) (got : List (Price F))
        → v.phase ≡ gathering vp [] got
        → ViewStep v (record v { posts = v.posts ++ ((vp, got) ∷ []); phase = selecting })
    closed :
        (late : List (Source F × List (Dict (RawPrice F))))
        → v.is_open ≡ true
        → v.phase ≡ selecting
        → map (λ c. c.0) late ≡ v.sources
        → ViewStep v (record v { is_open = false; sources = map learn_all late })

  pub data ViewReach (init : View F) : View F → Type 0 where
    start : ViewReach init init
    next : {v w : View F} → ViewReach init v → ViewStep v w → ViewReach init w
