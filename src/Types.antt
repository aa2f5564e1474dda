-- ===== src/Types.antt =====
-- The types package (types/price.go, types/params.go, types/voting_period.go, types/symbol.go,
-- types/tendermint.go): what the parts of the feeder hand to one another.
pub mod Equal
pub mod Height
use pricefeeder.Base.{
  ℕ, ◌*◌, ◌^◌, Bool, true, false, ◌&&◌, List, [], ◌∷◌, Text, text_eq, length, ◌==◌, not,
  if◌then◌else◌, Result, ok, err, panic, ◌>>=◌, parse_uint,
}

-- The ticker name that a data source uses. An `asset.Pair` is a string as well.
abbrev pub Symbol : Type 0
Symbol = Text

abbrev pub Pair : Type 0
Pair = Text

-- `15 * time.Second`, in nanoseconds.
abbrev pub price_timeout : ℕ
price_timeout = 15 * 10 ^ 9

-- A moment is a reading of the monotonic clock in nanoseconds.
pub record RawPrice (F : Type 0) : Type 0 where
  pub price : F
  pub update_time : ℕ

pub record Price (F : Type 0) : Type 0 where
  pub pair : Pair
  pub price : F
  pub source_name : Text
  pub valid : Bool

pub record VotingPeriod : Type 0 where
  pub height : ℕ

pub record Params : Type 0 where
  pub pairs : List Pair
  pub vote_period_blocks : ℕ

-- The two fields of the chain's `oracletypes.Params` that are read.
pub record OracleParams : Type 0 where
  pub whitelist : List Pair
  pub vote_period : ℕ

copy_pairs : List Pair → List Pair
copy_pairs [] = []
copy_pairs (pair ∷ rest) = pair ∷ copy_pairs rest

unfoldable pub params_from_oracle_params : OracleParams → Params
unfolding copy_pairs
params_from_oracle_params p = record {
  pairs = copy_pairs p.whitelist;
  vote_period_blocks = p.vote_period;
}

-- The loop of `Equal`, over lists of one length.
same_pairs : List Pair → List Pair → Bool
same_pairs [] others = true
same_pairs (pair ∷ pairs) [] = false
same_pairs (pair ∷ pairs) (other ∷ others) =
    if not (text_eq pair other) then false else same_pairs pairs others

unfoldable pub equal : Params → Params → Bool
unfolding same_pairs
equal p params =
    if not (p.vote_period_blocks == params.vote_period_blocks)
    then false
    else if not (length p.pairs == length params.pairs)
    then false
    else same_pairs p.pairs params.pairs

-- `NewBlockJSON`, down to the block's header. The branches that are never read are left out.
pub record Header : Type 0 where
  pub chain_id : Text
  pub height : Text
  pub last_commit_hash : Text

pub record Block : Type 0 where
  pub header : Header

pub record BlockValue : Type 0 where
  pub block : Block

pub record BlockData : Type 0 where
  pub kind : Text
  pub value : BlockValue

pub record BlockResult : Type 0 where
  pub query : Text
  pub block_data : BlockData

pub record NewBlockJson : Type 0 where
  pub jsonrpc : Text
  pub id : ℕ
  pub result : BlockResult

-- `unmarshal` stands for `json.Unmarshal` into a `NewBlockJSON`.
unfoldable pub get_block_height : (Text → Result NewBlockJson) → Text → Result ℕ
get_block_height unmarshal msg = unmarshal msg >>= λ t.
    if text_eq t.result.block_data.value.block.header.height []
    then ok 0
    else parse_uint t.result.block_data.value.block.header.height
