-- ===== src/Poster/History.antt =====
-- The rounds of one client, one after the other: what it reveals is what it committed to before.
use mathlib.Core.Path.{subst, subst₂}
use pricefeeder.Base.{
  ◌≡◌, refl, true, false, Option, none, some, List, [], ◌∷◌, ◌++◌, Text, ok, arith, sym,
  ok-injective, ap, ◌∙◌, inl, inr,
}
use pricefeeder.Float.{Float}
use pricefeeder.Types.{Price, VotingPeriod}
use pricefeeder.Signing.{Msg, prevote_msg, vote_msg}
use pricefeeder.Poster.{OracleLib, Deps, Prevote, Client, new_prevote, round_msgs, send_prices}
use pricefeeder.Poster.Reveal.{round_msgs-shape}
use pricefeeder.Poster.Round.{IsCommitted, new_prevote-commits, send_prices-outcome}

last_message :
    (lib : OracleLib) (deps : Deps) (validator feeder : Text) (new : Prevote) (old : Option Prevote)
    (msgs : List Msg)
    → round_msgs lib deps new old validator feeder ≡ ok msgs
    → (front : List Msg) × (msgs ≡ front ++ (new.msg ∷ []))
last_message lib deps validator feeder new old msgs h =
    elim (round_msgs-shape lib deps validator feeder new old msgs h) [
      | inl alone ↦ ([], alone)
      | inr (p, _, both) ↦ (vote_msg p.salt p.vote feeder validator ∷ [], both)
    ]

module _ (lib : OracleLib) (F : Type 0) ⦃d : Float F⦄ (validator feeder : Text) where
  -- A client and the messages of its successful rounds, the last round first. Between two rounds the
  -- chain may do anything, so every round has its own answers.
  pub data History : Client → List (List Msg) → Type 1 where
    fresh : History (record { validator = validator; feeder = feeder; previous_prevote = none }) []
    posted :
        {c c' : Client} {h : List (List Msg)}
        → History c h
        → (deps : Deps) (vp : VotingPeriod) (prices : List (Price F)) (new : Prevote)
          (msgs : List Msg)
        → send_prices lib deps c vp prices ≡ ok (c', true)
        → new_prevote lib deps.rand_int prices c.validator c.feeder ≡ ok new
        → round_msgs lib deps new c.previous_prevote c.validator c.feeder ≡ ok msgs
        → History c' (msgs ∷ h)
    failed :
        {c c' : Client} {h : List (List Msg)}
        → History c h
        → (deps : Deps) (vp : VotingPeriod) (prices : List (Price F))
        → send_prices lib deps c vp prices ≡ ok (c', false)
        → History c' h

  -- The kept prevote commits to its salt and rates, and its message ended the last successful round.
  Kept : Option Prevote → List (List Msg) → Type 0
  Kept none h = h ≡ []
  Kept (some p) h =
      IsCommitted lib validator feeder p
      × (front : List Msg) × (earlier : List (List Msg)) × (h ≡ (front ++ (p.msg ∷ [])) ∷ earlier)

  record Inv (c : Client) (h : List (List Msg)) : Type 0 where
    own_validator : c.validator ≡ validator
    own_feeder : c.feeder ≡ feeder
    kept : Kept c.previous_prevote h

  posted-Inv :
      {c c' : Client} {h : List (List Msg)}
      → Inv c h
      → (deps : Deps) (vp : VotingPeriod) (prices : List (Price F)) (new : Prevote)
        (msgs : List Msg)
      → send_prices lib deps c vp prices ≡ ok (c', true)
      → new_prevote lib deps.rand_int prices c.validator c.feeder ≡ ok new
      → round_msgs lib deps new c.previous_prevote c.validator c.feeder ≡ ok msgs
      → Inv c' (msgs ∷ h)
  unfolding Kept
  posted-Inv {c} {c'} {h} inv deps vp prices new msgs sent made prepared =
      let (new', msgs', r, made', _, _, _, same) =
        (send_prices-outcome lib deps c c' vp prices true sent).0 refl in
      let same_new : new' ≡ new = ok-injective (sym made' ∙ made) in
      let commits = new_prevote-commits lib deps.rand_int prices c.validator c.feeder new made in
      let (front, ends) =
        last_message lib deps c.validator c.feeder new c.previous_prevote msgs prepared in
      subst (λ (k : Client). Inv k (msgs ∷ h))
        (sym (same ∙ ap (λ q. record c { previous_prevote = some q }) same_new))
        (record {
          own_validator = inv.own_validator;
          own_feeder = inv.own_feeder;
          kept = (
            subst₂ (λ v f. IsCommitted lib v f new) inv.own_validator inv.own_feeder commits,
            front,
            h,
            ap (λ m. m ∷ h) ends,
          );
        })

  History-Inv : {c : Client} {h : List (List Msg)} → History c h → Inv c h
  unfolding Kept
  History-Inv fresh = record { own_validator = refl; own_feeder = refl; kept = refl }
  History-Inv (posted r deps vp prices new msgs sent made prepared) =
      posted-Inv (History-Inv r) deps vp prices new msgs sent made prepared
  History-Inv (failed {c} {c'} {h} r deps vp prices sent) =
      subst (λ (k : Client). Inv k h)
        (sym ((send_prices-outcome lib deps c c' vp prices false sent).1 refl)) (History-Inv r)

  -- A vote is preceded by the round whose last message committed to it.
  abbrev pub Follows : List Msg → List (List Msg) → Type 0
  Follows (vote_msg salt rates f v ∷ rest) h =
      (front : List Msg) × (earlier : List (List Msg)) × (h
        ≡ (front ++ (prevote_msg (lib.vote_hash salt rates v) f v ∷ [])) ∷ earlier)
  Follows _ h = Unit

  Follows-if :
      (msgs : List Msg) (h : List (List Msg))
      → ((salt rates f v : Text) (rest : List Msg)
          → msgs ≡ vote_msg salt rates f v ∷ rest
          → Follows (vote_msg salt rates f v ∷ rest) h)
      → Follows msgs h
  Follows-if [] h k = tt
  Follows-if (prevote_msg hash f v ∷ rest) h k = tt
  Follows-if (vote_msg salt rates f v ∷ rest) h k = k salt rates f v rest refl

  abbrev pub FollowsAll : List (List Msg) → Type 0
  FollowsAll [] = Unit
  FollowsAll (msgs ∷ h) = Follows msgs h × FollowsAll h

  posted-Follows :
      {c : Client} {h : List (List Msg)}
      → Inv c h
      → (deps : Deps) (prices : List (Price F)) (new : Prevote) (msgs : List Msg)
      → new_prevote lib deps.rand_int prices c.validator c.feeder ≡ ok new
      → round_msgs lib deps new c.previous_prevote c.validator c.feeder ≡ ok msgs
      → Follows msgs h
  unfolding Kept
  posted-Follows {c} {h} inv deps prices new msgs made prepared =
      Follows-if msgs h λ salt rates f v rest e.
        let commits = new_prevote-commits lib deps.rand_int prices c.validator c.feeder new made in
        elim (round_msgs-shape lib deps c.validator c.feeder new c.previous_prevote msgs prepared) [
          | inl alone ↦ absurd (ground arith)
          | inr (p, old, both) ↦
              let (held, front, earlier, before) = subst (λ o. Kept o h) old inv.kept in
              let opens : p.msg ≡ prevote_msg (lib.vote_hash salt rates v) f v =
                ground (arith, inv.own_validator, inv.own_feeder) in
              (front, earlier, before ∙ ap (λ m. (front ++ (m ∷ [])) ∷ earlier) opens)
        ]

  -- Whatever the chain answers, the votes that a client broadcasts reveal what it committed to: the
  -- vote at the head of a successful round opens the hash of the prevote at the end of the successful
  -- round before it, with the same feeder and validator.
  pub History-FollowsAll : {c : Client} {h : List (List Msg)} → History c h → FollowsAll h
  History-FollowsAll fresh = tt
  History-FollowsAll (posted r deps vp prices new msgs sent made prepared) =
      (posted-Follows (History-Inv r) deps prices new msgs made prepared, History-FollowsAll r)
  History-FollowsAll (failed r deps vp prices sent) = History-FollowsAll r
