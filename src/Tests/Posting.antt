-- ===== src/Tests/Posting.antt =====
-- The poster, the transactions and the texts of prices (feeder/priceposter) at concrete inputs, with a
-- chain that answers as it should.
use pricefeeder.Base.{
  ℕ, zero, suc, ◌+◌, ◌*◌, ◌^◌, ◌≤◌, ◌<◌, ◌≡◌, refl, ◌⊎◌, ◌↔◌, true, false, some, none, List, [],
  ◌∷◌, ◌++◌, Text, text, Result, ok, err, panic, arith, text_eq, decimal, if◌then◌else◌, ltb,
  ok-injective,
}
use pricefeeder.Sample.{Number, pos, nan, number_float, print}
use pricefeeder.Types.{Pair, Price, VotingPeriod, Params}
use pricefeeder.PriceText.{cut_price, split_at, decimal_part, float64_to_dec}
use pricefeeder.PriceText.Cut.{cut_price-floor, value}
use pricefeeder.Signing.{Msg, prevote_msg, vote_msg, TxDeps, TxResponse, send_tx, get_account}
use pricefeeder.Signing.Outcomes.{Broadcast, Refused, send_tx_iff}
use pricefeeder.Poster.{
  OracleLib, Deps, Prevote, Client, new_prevote, prepare_vote, round_msgs, vote, send_prices,
}
use pricefeeder.Poster.Reveal.{round_msgs-reveal, AnswersOtherwise}
use pricefeeder.Poster.Round.{IsCommitted, send_prices-ends}
use pricefeeder.Poster.Next.{next_round-reveals}
use pricefeeder.Poster.History.{History, fresh, posted, FollowsAll, History-FollowsAll}
use pricefeeder.Poster.Chain.{Round, run_rounds, IsText, run_rounds-reveals}
use pricefeeder.Poster.Retry.{try_until_done}
use pricefeeder.Poster.Malformed.{send_prices_malformed}

abbrev pub new_dec : Text → Result Text
new_dec s = if text_eq s (text "NaN") then err (text "invalid decimal") else ok s

-- A pair and its rate in parentheses, with a bar between two of them.
abbrev print_tuples : List (Pair × Text) → Text
print_tuples [] = []
print_tuples ((pair, rate) ∷ []) = text "(" ++ (pair ++ (text "," ++ (rate ++ text ")")))
print_tuples ((pair, rate) ∷ tuples) =
    text "(" ++ (pair ++ (text "," ++ (rate ++ (text ")|" ++ print_tuples tuples))))

abbrev pub oracle_lib : OracleLib
oracle_lib = record {
  Decimal = Text;
  new_dec = new_dec;
  tuples_to_string = λ tuples. ok (print_tuples tuples);
  vote_hash = λ salt rates validator. salt ++ (rates ++ validator);
}

abbrev pub accepted : TxResponse
accepted = record { code = 0; tx_hash = text "AB"; raw_log = [] }

abbrev pub tx_deps : TxDeps
tx_deps = record {
  RawAccount = ℕ;
  SignedTx = Text;
  key_by_address = λ address. ok (text "feeder");
  set_msgs = λ msgs. ok tt;
  account = λ address. ok 4;
  unpack_any = λ raw. ok (raw, 17);
  sign = λ tx. ok tx.key_name;
  encode = λ signed. ok signed;
  broadcast_tx = λ bytes. ok accepted;
  chain_id = text "vsc-1";
}

-- The largest number below the bound.
abbrev pub rand_int : ℕ → Result ℕ
rand_int zero = panic
rand_int (suc n) = ok n

abbrev validator : Text
validator = text "val"

abbrev feeder : Text
feeder = text "feed"

-- A chain that holds the hash of the salt 9998.
abbrev pub deps : Deps
deps = record {
  tx_deps = tx_deps;
  aggregate_prevote = λ v. ok (text "9998(ubtc:uusd,30)|(ueth:uusd,2)val");
  rand_int = rand_int;
}

abbrev prices : List (Price Number)
prices =
    record { pair = text "ubtc:uusd"; price = pos 30; source_name = text "okex"; valid = true }
    ∷ record { pair = text "ueth:uusd"; price = pos 2; source_name = text "okex"; valid = true }
    ∷ []

abbrev prevote : Prevote
prevote = record {
  msg = prevote_msg (text "9998(ubtc:uusd,30)|(ueth:uusd,2)val") feeder validator;
  salt = text "9998";
  vote = text "(ubtc:uusd,30)|(ueth:uusd,2)";
}

abbrev fresh_client : Client
fresh_client = record { validator = validator; feeder = feeder; previous_prevote = none }

abbrev committed_client : Client
committed_client = record {
  validator = validator;
  feeder = feeder;
  previous_prevote = some prevote;
}

abbrev period : VotingPeriod
period = record { height = 30 }

abbrev first_round : List Msg
first_round = prevote.msg ∷ []

abbrev second_round : List Msg
second_round =
    vote_msg (text "9998") (text "(ubtc:uusd,30)|(ueth:uusd,2)") feeder validator ∷ prevote.msg ∷ []

two_rounds :
    History oracle_lib Number validator feeder committed_client (second_round ∷ first_round ∷ [])
unfolding send_prices new_prevote round_msgs prepare_vote vote send_tx get_account float64_to_dec
    cut_price print decimal text_eq split_at decimal_part
two_rounds =
    posted {c = committed_client} {c' = committed_client}
      (posted {c = fresh_client} {c' = committed_client} fresh deps period prices prevote
        first_round refl refl refl)
      deps period prices prevote second_round refl refl refl

History-FollowsAll_example :
    FollowsAll oracle_lib Number validator feeder (second_round ∷ first_round ∷ [])
History-FollowsAll_example = History-FollowsAll oracle_lib Number validator feeder two_rounds

round_msgs-reveal_example :
    ((round_msgs oracle_lib deps prevote (some prevote) validator feeder
        ≡ ok (
            vote_msg (text "9998") (text "(ubtc:uusd,30)|(ueth:uusd,2)") feeder validator
            ∷ prevote.msg
            ∷ []))
      ↔ (deps.aggregate_prevote validator ≡ ok (text "9998(ubtc:uusd,30)|(ueth:uusd,2)val")))
    × ((round_msgs oracle_lib deps prevote (some prevote) validator feeder ≡ ok (prevote.msg ∷ []))
        ↔ AnswersOtherwise oracle_lib deps validator feeder prevote
            (deps.aggregate_prevote validator))
    × (round_msgs oracle_lib deps prevote none validator feeder ≡ ok (prevote.msg ∷ []))
round_msgs-reveal_example = round_msgs-reveal oracle_lib deps validator feeder prevote prevote

send_prices-ends_example :
    ((true ≡ true)
      × (new : Prevote) × (msgs : List Msg) × (r : TxResponse) × (new_prevote oracle_lib rand_int
            prices validator feeder
          ≡ ok new)
      × (round_msgs oracle_lib deps new none validator feeder ≡ ok msgs)
      × Broadcast tx_deps feeder msgs r
      × (r.code ≡ 0)
      × (committed_client ≡ record fresh_client { previous_prevote = some new }))
    ⊎ ((true ≡ false) × (committed_client ≡ fresh_client))
unfolding send_prices new_prevote round_msgs prepare_vote vote send_tx get_account float64_to_dec
    cut_price print decimal text_eq split_at decimal_part
send_prices-ends_example =
    send_prices-ends oracle_lib deps fresh_client committed_client period prices true refl

abbrev nan_price : Price Number
nan_price = record { pair = text "ueth:uusd"; price = nan; source_name = text "okex"; valid = true }

send_prices_malformed_example :
    send_prices oracle_lib deps fresh_client period (prices ++ (nan_price ∷ prices)) ≡ panic
unfolding cut_price print text_eq split_at decimal_part
send_prices_malformed_example =
    send_prices_malformed oracle_lib nan_price (text "invalid decimal") refl deps fresh_client
      period prices prices

rand_int-lt : (bound n : ℕ) → rand_int bound ≡ ok n → n < bound
rand_int-lt zero n h = ground arith
rand_int-lt (suc m) n h = ground (arith, ok-injective h)

send_tx_iff_example :
    ((send_tx tx_deps feeder first_round ≡ ok accepted)
      ↔ (Broadcast tx_deps feeder first_round accepted × (accepted.code ≡ 0)))
    × ((send_tx tx_deps feeder first_round ≡ err (text "tx failed: out of gas"))
        ↔ Refused tx_deps feeder first_round (text "tx failed: out of gas"))
send_tx_iff_example = send_tx_iff tx_deps feeder first_round accepted (text "tx failed: out of gas")

cut_price-floor_example :
    let kept = text "123456789012345678" in
    (cut_price (text "30.12345678901234567891") ≡ text "30" ++ (b'.' ∷ kept))
    × (value (text "30" ++ kept) * 10 ^ 2 ≤ value (text "30" ++ text "12345678901234567891"))
    × (value (text "30" ++ text "12345678901234567891") < (value (text "30" ++ kept) + 1) * 10 ^ 2)
cut_price-floor_example =
    cut_price-floor (text "30") (text "12345678901234567891") (refl, (refl, tt))
      (
        refl,
        (
          refl,
          (
            refl,
            (
              refl,
              (
                refl,
                (
                  refl,
                  (
                    refl,
                    (
                      refl,
                      (
                        refl,
                        (
                          refl,
                          (
                            refl,
                            (
                              refl,
                              (refl, (refl, (refl, (refl, (refl, (refl, (refl, (refl, tt)))))))),
                            ),
                          ),
                        ),
                      ),
                    ),
                  ),
                ),
              ),
            ),
          ),
        ),
      )
      (omega arith)

abbrev params : ℕ → Params
params blocks = record { pairs = text "ubtc:uusd" ∷ []; vote_period_blocks = blocks }

next_round-reveals_example :
    (p : Prevote) × (some prevote ≡ some p)
    × IsCommitted oracle_lib validator feeder p
    × ((round_msgs oracle_lib deps prevote (some prevote) validator feeder
          ≡ ok (vote_msg p.salt p.vote feeder validator ∷ prevote.msg ∷ []))
        ↔ (deps.aggregate_prevote validator ≡ ok (oracle_lib.vote_hash p.salt p.vote validator)))
unfolding send_prices new_prevote round_msgs prepare_vote vote send_tx get_account float64_to_dec
    cut_price print decimal text_eq split_at decimal_part
next_round-reveals_example =
    next_round-reveals oracle_lib deps deps fresh_client committed_client period prices prevote refl

abbrev rounds : List (Round Number)
rounds = (deps, period, prices) ∷ []

run_rounds-reveals_example :
    (second_round ≡ prevote.msg ∷ [])
    ⊎ ((accepted : List (Price Number)) × (earlier : List (List (Price Number))) × (salt : Text)
        × (rates : Text) × (prices ∷ [] ≡ accepted ∷ earlier)
        × IsText oracle_lib accepted rates
        × (second_round ≡ vote_msg salt rates feeder validator ∷ prevote.msg ∷ []))
unfolding run_rounds send_prices new_prevote round_msgs prepare_vote vote send_tx get_account
    float64_to_dec cut_price print decimal text_eq split_at decimal_part
run_rounds-reveals_example =
    run_rounds-reveals oracle_lib rounds validator feeder committed_client (prices ∷ []) deps
      prevote second_round refl refl

-- Two failures, then a success.
try_until_done_test :
    try_until_done 4 (λ n. none) (λ n. if ltb n 2 then err (text "busy") else ok tt) 0
    ≡ some (ok tt, 2)
unfolding try_until_done
try_until_done_test = refl
