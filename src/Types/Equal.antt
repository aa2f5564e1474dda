-- ===== src/Types/Equal.antt =====
-- `Params.Equal` decides equality, so that the stream drops an update only if nothing changed.
use pricefeeder.Base.{
  ◌≡◌, refl, ◌↔◌, true, List, [], ◌∷◌, Text, text_eq_iff, text_eq_refl, length, arith,
}
use pricefeeder.Types.{Params, equal, same_pairs}

same_pairs_sound : (ps qs : List Text) → length ps ≡ length qs → same_pairs ps qs ≡ true → ps ≡ qs
unfolding same_pairs
same_pairs_sound [] [] e h = refl
same_pairs_sound [] (q ∷ qs) e h = absurd (ground arith)
same_pairs_sound (p ∷ ps) [] e h = ground arith
same_pairs_sound (p ∷ ps) (q ∷ qs) e h = ground (arith, text_eq_iff p q, same_pairs_sound ps qs)

same_pairs_refl : (ps : List Text) → same_pairs ps ps ≡ true
unfolding same_pairs
same_pairs_refl [] = refl
same_pairs_refl (p ∷ ps) = ground (arith, text_eq_refl p, same_pairs_refl ps)

equal_sound : (p q : Params) → equal p q ≡ true → p ≡ q
unfolding equal
equal_sound p q h = ground (arith, same_pairs_sound p.pairs q.pairs)

equal_refl : (p : Params) → equal p p ≡ true
unfolding equal
equal_refl p = ground (arith, same_pairs_refl p.pairs)

-- `Equal` answers true exactly on equal parameters: the same pairs in the same order, and the same
-- voting period.
pub equal_iff : (p q : Params) → (equal p q ≡ true) ↔ (p ≡ q)
equal_iff p q = (equal_sound p q, λ e. rw e (equal_refl q))
