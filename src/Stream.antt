-- ===== src/Stream.antt =====
-- feeder/eventstream/stream.go: two loops run side by side. One reads block heights from the websocket
-- and signals the voting periods, the other fetches the parameters at every tick and signals their
-- changes. They share the pointer to the last parameters.
pub mod Periods
pub mod Updates
pub mod Closes
pub mod Dial
pub mod Feeds
pub mod Signals
use pricefeeder.Base.{
  ℕ, ◌+◌, ◌%◌, ◌≡◌, Bool, true, false, not, Option, none, some, List, [], ◌∷◌, ◌++◌, Text, ◌==◌,
  if◌then◌else◌, Result, ok, err, panic, u64_mod,
}
use pricefeeder.Types.{
  Params, VotingPeriod, OracleParams, params_from_oracle_params, equal, NewBlockJson,
  get_block_height,
}

-- What the first loop does with the height of a message: the signal to send, if any. A vote period of
-- no blocks divides by zero, which panics.
unfoldable pub voting_period_of : Option Params → Result ℕ → Result (Option VotingPeriod)
voting_period_of params (err e) = ok none
voting_period_of params panic = panic
voting_period_of none (ok height) = ok none
voting_period_of (some p) (ok height) =
    if height == 0
    then ok none
    else if p.vote_period_blocks == 0
    then panic
    else if not ((height + 1) % u64_mod % p.vote_period_blocks == 0)
    then ok none
    else ok (some (record { height = (height + 1) % u64_mod }))

unfoldable pub handle_message :
    (Text → Result NewBlockJson) → Option Params → Text → Result (Option VotingPeriod)
unfolding voting_period_of
handle_message unmarshal params msg = voting_period_of params (get_block_height unmarshal msg)

-- `fetchParams`, from the answer of the chain.
unfoldable pub fetch_params : Result OracleParams → Result Params
fetch_params (ok resp) = ok (params_from_oracle_params resp)
fetch_params (err e) = err e
fetch_params panic = panic

-- Whether the new parameters are signalled: not if they equal the old ones.
unfoldable pub is_news : Option Params → Params → Bool
is_news none new = true
is_news (some old) new = not (equal old new)

-- Where a loop stands: in its outer select, in the inner one with a value to send, or gone.
pub data LoopState (A : Type 0) : Type 0 where
  waiting : LoopState A
  sending : A → LoopState A
  exited : LoopState A

-- `buffer` is the channel of parameters, which holds one value; the channel of voting periods holds
-- none. `params_out` and `periods_out` are what the feeder received so far.
pub record Stream : Type 0 where
  pub params : Option Params
  pub voting_loop : LoopState VotingPeriod
  pub params_loop : LoopState Params
  pub buffer : Option Params
  pub stopped : Bool
  pub ws_closed : Bool
  pub params_out : List Params
  pub periods_out : List VotingPeriod

unfoldable pub new_stream : Stream
new_stream = record {
  params = none;
  voting_loop = waiting;
  params_loop = waiting;
  buffer = none;
  stopped = false;
  ws_closed = false;
  params_out = [];
  periods_out = [];
}

abbrev pub to_send : {A : Type 0} → Option A → LoopState A
to_send none = waiting
to_send (some a) = sending a

-- The steps of the two loops and of the feeder, in any order that the selects and the scheduler allow.
pub data Step (unmarshal : Text → Result NewBlockJson) (s : Stream) : Stream → Type 0 where
  message :
      (msg : Text) (signal : Option VotingPeriod)
      → s.voting_loop ≡ waiting
      → handle_message unmarshal s.params msg ≡ ok signal
      → Step unmarshal s (record s { voting_loop = to_send signal })
  period_sent :
      (vp : VotingPeriod)
      → s.voting_loop ≡ sending vp
      → Step unmarshal s
          (record s { voting_loop = waiting; periods_out = s.periods_out ++ (vp ∷ []) })
  period_dropped :
      (vp : VotingPeriod)
      → s.voting_loop ≡ sending vp
      → s.stopped ≡ true
      → Step unmarshal s (record s { voting_loop = waiting })
  voting_exits :
      s.voting_loop ≡ waiting
      → s.stopped ≡ true
      → Step unmarshal s (record s { voting_loop = exited; ws_closed = true })
  tick_failed :
      (answer : Result OracleParams) (e : Text)
      → s.params_loop ≡ waiting
      → fetch_params answer ≡ err e
      → Step unmarshal s s
  tick_same :
      (answer : Result OracleParams) (new : Params)
      → s.params_loop ≡ waiting
      → fetch_params answer ≡ ok new
      → is_news s.params new ≡ false
      → Step unmarshal s (record s { params = some new })
  tick_news :
      (answer : Result OracleParams) (new : Params)
      → s.params_loop ≡ waiting
      → fetch_params answer ≡ ok new
      → is_news s.params new ≡ true
      → Step unmarshal s (record s { params = some new; params_loop = sending new })
  params_sent :
      (new : Params)
      → s.params_loop ≡ sending new
      → s.buffer ≡ none
      → Step unmarshal s (record s { params_loop = waiting; buffer = some new })
  params_dropped :
      (new : Params)
      → s.params_loop ≡ sending new
      → s.stopped ≡ true
      → Step unmarshal s (record s { params_loop = waiting })
  params_exits :
      s.params_loop ≡ waiting
      → s.stopped ≡ true
      → Step unmarshal s (record s { params_loop = exited })
  params_received :
      (new : Params)
      → s.buffer ≡ some new
      → Step unmarshal s (record s { buffer = none; params_out = s.params_out ++ (new ∷ []) })
  close_called : s.stopped ≡ false → Step unmarshal s (record s { stopped = true })

pub data Reach (unmarshal : Text → Result NewBlockJson) : Stream → Type 0 where
  start : Reach unmarshal new_stream
  next : {s t : Stream} → Reach unmarshal s → Step unmarshal s t → Reach unmarshal t
