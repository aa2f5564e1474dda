-- ===== src/Signing/Outcomes.antt =====
-- How `sendTx` can end.
use mathlib.Core.Path.{subst}
use pricefeeder.Base.{
  ℕ, ◌↔◌, ◌⊎◌, ◌≢◌, Bool-cases, ◌≡◌, List, Text, text, ◌++◌, refl, ok, err, must, >>=-eq-ok,
  >>=-eq-err, must-never-err, must-eq-ok, arith, inl, inr, ◌==◌,
}
use pricefeeder.Signing.{Msg, TxResponse, TxDeps, send_tx, get_account, check_code}

-- `bytes` are one transaction: it carries the messages, pays 3500000 avsg for at most 500000 gas, has the
-- number and the sequence of the feeder's account, and is signed with the key of the feeder's address.
pub record Signed (deps : TxDeps) (feeder : Text) (msgs : List Msg) (bytes : Text) : Type 0 where
  pub key_name : Text
  pub raw : deps.RawAccount
  pub number : ℕ
  pub sequence : ℕ
  pub signed : deps.SignedTx
  pub key_found : deps.key_by_address feeder ≡ ok key_name
  pub msgs_set : deps.set_msgs msgs ≡ ok tt
  pub account_found : deps.account feeder ≡ ok raw
  pub account_read : deps.unpack_any raw ≡ ok (number, sequence)
  pub signed_with :
      deps.sign (record {
        msgs = msgs;
        fee_denom = text "avsg";
        fee_amount = 3_500_000;
        gas_limit = 500_000;
        chain_id = deps.chain_id;
        account_number = number;
        sequence = sequence;
        key_name = key_name;
      })
      ≡ ok signed
  pub encoded : deps.encode signed ≡ ok bytes

-- `r` is the chain's answer to such a transaction.
abbrev pub Broadcast : TxDeps → Text → List Msg → TxResponse → Type 0
Broadcast deps feeder msgs r =
    (bytes : Text) × Signed deps feeder msgs bytes × (deps.broadcast_tx bytes ≡ ok r)

-- The chain does not answer the query for the account or the broadcast, or it answers the transaction with a
-- code other than 0.
abbrev pub Refused : TxDeps → Text → List Msg → Text → Type 0
Refused deps feeder msgs e =
    ((key_name : Text) × (deps.key_by_address feeder ≡ ok key_name)
      × (deps.set_msgs msgs ≡ ok tt)
      × (deps.account feeder ≡ err e))
    ⊎ (((bytes : Text) × Signed deps feeder msgs bytes × (deps.broadcast_tx bytes ≡ err e))
        ⊎ ((r : TxResponse) × Broadcast deps feeder msgs r
            × (r.code ≢ 0)
            × (e ≡ text "tx failed: " ++ r.raw_log)))

module _ (deps : TxDeps) (feeder : Text) (msgs : List Msg) where
  check_code-eq-ok : (s r : TxResponse) → check_code deps s ≡ ok r → (s ≡ r) × (r.code ≡ 0)
  unfolding check_code
  check_code-eq-ok s r h = elim (Bool-cases (s.code == 0)) [
    | inl zero_code ↦
        let same : s ≡ r = ground arith in
        (same, subst (λ (t : TxResponse). t.code ≡ 0) same (ground arith))
    | inr other_code ↦ absurd (ground arith)
  ]

  check_code-eq-err :
      (s : TxResponse) (e : Text)
      → check_code deps s ≡ err e
      → (s.code ≢ 0) × (e ≡ text "tx failed: " ++ s.raw_log)
  unfolding check_code
  check_code-eq-err s e h = elim (Bool-cases (s.code == 0)) [
    | inl zero_code ↦ absurd (ground arith)
    | inr other_code ↦ ((λ zero_code. ground arith), ground arith)
  ]

  get_account-inverts :
      (numbers : ℕ × ℕ)
      → get_account deps feeder ≡ ok numbers
      → (raw : deps.RawAccount) × (deps.account feeder ≡ ok raw)
        × (deps.unpack_any raw ≡ ok numbers)
  unfolding get_account
  get_account-inverts numbers h =
      let (raw, found, h₁) = >>=-eq-ok (deps.account feeder) _ h in (raw, found, must-eq-ok _ h₁)

  get_account-eq-err : (e : Text) → get_account deps feeder ≡ err e → deps.account feeder ≡ err e
  unfolding get_account
  get_account-eq-err e h = elim (>>=-eq-err (deps.account feeder) _ h) [
    | inl failed ↦ failed
    | inr (raw, found, h₁) ↦ absurd (must-never-err (deps.unpack_any raw) h₁)
  ]

  pub Broadcast-of_ok :
      (r : TxResponse)
      → send_tx deps feeder msgs ≡ ok r
      → Broadcast deps feeder msgs r × (r.code ≡ 0)
  unfolding send_tx
  Broadcast-of_ok r h =
      let (key_name, key_found, h₁) = >>=-eq-ok (must (deps.key_by_address feeder)) _ h in
      let (done, msgs_set, h₂) = >>=-eq-ok (must (deps.set_msgs msgs)) _ h₁ in
      let (numbers, read, h₃) = >>=-eq-ok (get_account deps feeder) _ h₂ in
      let (raw, account_found, account_read) = get_account-inverts numbers read in
      let (signed, signed_with, h₄) = >>=-eq-ok (must (deps.sign _)) _ h₃ in
      let (bytes, encoded, h₅) = >>=-eq-ok (must (deps.encode signed)) _ h₄ in
      let (resp, answered, h₆) = >>=-eq-ok (deps.broadcast_tx bytes) _ h₅ in
      let (same, zero_code) = check_code-eq-ok resp r h₆ in
      (
        (
          bytes,
          record {
            key_name = key_name;
            raw = raw;
            number = numbers.0;
            sequence = numbers.1;
            signed = signed;
            key_found = must-eq-ok _ key_found;
            msgs_set = must-eq-ok _ msgs_set;
            account_found = account_found;
            account_read = account_read;
            signed_with = must-eq-ok _ signed_with;
            encoded = must-eq-ok _ encoded;
          },
          subst (λ t. deps.broadcast_tx bytes ≡ ok t) same answered,
        ),
        zero_code,
      )

  ok_of_Broadcast :
      (r : TxResponse) → Broadcast deps feeder msgs r → r.code ≡ 0 → send_tx deps feeder msgs ≡ ok r
  unfolding send_tx check_code get_account
  ok_of_Broadcast r (bytes, b, answered) zero_code =
      rw
        (
          b.key_found, b.msgs_set, b.account_found, b.account_read, b.signed_with, b.encoded,
          answered,
        )
        (ground arith)

  Refused-of_err : (e : Text) → send_tx deps feeder msgs ≡ err e → Refused deps feeder msgs e
  unfolding send_tx
  Refused-of_err e h = elim (>>=-eq-err (must (deps.key_by_address feeder)) _ h) [
    | inl never ↦ absurd (must-never-err _ never)
    | inr (key_name, key_found, h₁) ↦ elim (>>=-eq-err (must (deps.set_msgs msgs)) _ h₁) [
      | inl never ↦ absurd (must-never-err _ never)
      | inr (done, msgs_set, h₂) ↦ elim (>>=-eq-err (get_account deps feeder) _ h₂) [
        | inl failed ↦
            inl
              (key_name, must-eq-ok _ key_found, must-eq-ok _ msgs_set, get_account-eq-err e failed)
        | inr (numbers, read, h₃) ↦ elim (>>=-eq-err (must (deps.sign _)) _ h₃) [
          | inl never ↦ absurd (must-never-err _ never)
          | inr (signed, signed_with, h₄) ↦ elim (>>=-eq-err (must (deps.encode signed)) _ h₄) [
            | inl never ↦ absurd (must-never-err _ never)
            | inr (bytes, encoded, h₅) ↦
                let (raw, account_found, account_read) = get_account-inverts numbers read in
                let one : Signed deps feeder msgs bytes = record {
                  key_name = key_name;
                  raw = raw;
                  number = numbers.0;
                  sequence = numbers.1;
                  signed = signed;
                  key_found = must-eq-ok _ key_found;
                  msgs_set = must-eq-ok _ msgs_set;
                  account_found = account_found;
                  account_read = account_read;
                  signed_with = must-eq-ok _ signed_with;
                  encoded = must-eq-ok _ encoded;
                } in
                inr (elim (>>=-eq-err (deps.broadcast_tx bytes) _ h₅) [
                  | inl failed ↦ inl (bytes, one, failed)
                  | inr (r, answered, h₆) ↦
                      let (code, log) = check_code-eq-err r e h₆ in
                      inr (r, (bytes, one, answered), code, log)
                ])
          ]
        ]
      ]
    ]
  ]

  err_of_Refused : (e : Text) → Refused deps feeder msgs e → send_tx deps feeder msgs ≡ err e
  unfolding send_tx check_code get_account
  err_of_Refused e (inl (key_name, key_found, msgs_set, failed)) =
      rw (key_found, msgs_set, failed) refl
  err_of_Refused e (inr (inl (bytes, b, failed))) =
      rw
        (b.key_found, b.msgs_set, b.account_found, b.account_read, b.signed_with, b.encoded, failed)
        refl
  err_of_Refused e (inr (inr (r, (bytes, b, answered), code, log))) =
      rw
        (
          b.key_found, b.msgs_set, b.account_found, b.account_read, b.signed_with, b.encoded,
          answered,
        )
        (ground (arith, code, log))

  -- `sendTx` returns a response and no error exactly if one transaction with these messages, a fee of 3500000
  -- avsg, a gas limit of 500000 and the account's number and sequence was signed with the feeder's key and
  -- broadcast, and the chain answered it with this response and code 0. It returns an error exactly if the query
  -- for the account failed with it, or the broadcast of such a transaction did, or the chain's answer has another
  -- code and the error is its log behind "tx failed: ".
  pub send_tx_iff :
      (r : TxResponse) (e : Text)
      → ((send_tx deps feeder msgs ≡ ok r) ↔ (Broadcast deps feeder msgs r × (r.code ≡ 0)))
        × ((send_tx deps feeder msgs ≡ err e) ↔ Refused deps feeder msgs e)
  send_tx_iff r e = (
    (Broadcast-of_ok r, λ (b, zero_code). ok_of_Broadcast r b zero_code),
    (Refused-of_err e, err_of_Refused e),
  )
