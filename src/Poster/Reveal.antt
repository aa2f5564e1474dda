-- ===== src/Poster/Reveal.antt =====
-- What a round reveals: exactly the prices that an earlier round committed to.
use pricefeeder.Base.{
  ◌≡◌, refl, ◌↔◌, ◌≢◌, Option, none, some, List, [], ◌∷◌, Text, text_eq_iff, text_eq_refl, inl, inr,
  Result, ok, err, panic, arith, >>=-eq-ok, ◌⊎◌,
}
use pricefeeder.Signing.{Msg, vote_msg}
use pricefeeder.Poster.{OracleLib, Deps, Prevote, round_msgs, prepare_vote}

module _ (lib : OracleLib) (deps : Deps) (validator feeder : Text) where
  -- The salt and the rates of a prevote hash to what the chain holds for the validator.
  abbrev pub Matches : Prevote → Type 0
  Matches p = deps.aggregate_prevote validator ≡ ok (lib.vote_hash p.salt p.vote validator)

  prepare-matching :
      (old : Prevote)
      → Matches old
      → prepare_vote lib deps validator feeder old
        ≡ ok (some (vote_msg old.salt old.vote feeder validator))
  unfolding prepare_vote
  prepare-matching old held =
      ground (arith, text_eq_refl (lib.vote_hash old.salt old.vote validator))

  prepare-other :
      (old : Prevote) (hash : Text)
      → deps.aggregate_prevote validator ≡ ok hash
      → ¬ Matches old
      → prepare_vote lib deps validator feeder old ≡ ok none
  unfolding prepare_vote
  prepare-other old hash answer differs =
      let local = lib.vote_hash old.salt old.vote validator in
      ground (arith, text_eq_iff local hash)

  prepare-failed :
      (old : Prevote) (e : Text)
      → deps.aggregate_prevote validator ≡ err e
      → prepare_vote lib deps validator feeder old ≡ ok none
  unfolding prepare_vote
  prepare-failed old e failed = ground arith

  prepare-only :
      (p : Prevote) (o : Option Msg)
      → prepare_vote lib deps validator feeder p ≡ ok o
      → (o ≡ none) ⊎ (o ≡ some (vote_msg p.salt p.vote feeder validator))
  unfolding prepare_vote
  prepare-only p o h = ground arith

  -- What any round sends: the new prevote, behind the vote for the old one or alone.
  pub round_msgs-shape :
      (new : Prevote) (old : Option Prevote) (msgs : List Msg)
      → round_msgs lib deps new old validator feeder ≡ ok msgs
      → (msgs ≡ new.msg ∷ [])
        ⊎ ((p : Prevote) × (old ≡ some p)
            × (msgs ≡ vote_msg p.salt p.vote feeder validator ∷ new.msg ∷ []))
  unfolding round_msgs prepare_vote
  round_msgs-shape new none msgs h = inl (ground arith)
  round_msgs-shape new (some p) msgs h =
      let (o, prepared, e) = >>=-eq-ok (prepare_vote lib deps validator feeder p) _ h in
      elim (prepare-only p o prepared) [
        | inl unprepared ↦ inl (ground arith)
        | inr ready ↦ inr (p, refl, ground arith)
      ]

  -- What the chain answers when it does not hold the hash of a prevote.
  abbrev pub AnswersOtherwise : Prevote → Result Text → Type 0
  AnswersOtherwise p (ok hash) = hash ≢ lib.vote_hash p.salt p.vote validator
  AnswersOtherwise p (err e) = Unit
  AnswersOtherwise p panic = ⊥

  reveals :
      (new old : Prevote) (answer : Result Text)
      → deps.aggregate_prevote validator ≡ answer
      → ((round_msgs lib deps new (some old) validator feeder
            ≡ ok (vote_msg old.salt old.vote feeder validator ∷ new.msg ∷ []))
          ↔ (answer ≡ ok (lib.vote_hash old.salt old.vote validator)))
        × ((round_msgs lib deps new (some old) validator feeder ≡ ok (new.msg ∷ []))
            ↔ AnswersOtherwise old answer)
  unfolding round_msgs prepare_vote
  reveals new old (ok hash) e =
      let local = lib.vote_hash old.salt old.vote validator in
      ground (arith, text_eq_iff local hash)
  reveals new old (err e') e = ground arith
  reveals new old panic e = ground arith

  -- A round with an old prevote sends its vote in front of the new prevote exactly if the chain answers
  -- with the old prevote's hash. It sends the new prevote alone exactly if the chain answers with
  -- another hash or the query fails. Without an old prevote it sends the new prevote alone.
  pub round_msgs-reveal :
      (new old : Prevote)
      → ((round_msgs lib deps new (some old) validator feeder
            ≡ ok (vote_msg old.salt old.vote feeder validator ∷ new.msg ∷ []))
          ↔ (deps.aggregate_prevote validator ≡ ok (lib.vote_hash old.salt old.vote validator)))
        × ((round_msgs lib deps new (some old) validator feeder ≡ ok (new.msg ∷ []))
            ↔ AnswersOtherwise old (deps.aggregate_prevote validator))
        × (round_msgs lib deps new none validator feeder ≡ ok (new.msg ∷ []))
  unfolding round_msgs
  round_msgs-reveal new old = let (votes, alone) = reveals new old _ refl in (votes, alone, refl)
