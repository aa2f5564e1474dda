-- ===== src/Provider/Symbols.antt =====
-- `mapValues`: the symbols that the provider asks its source for.
use pricefeeder.Base.{
  ◌≡◌, ◌↔◌, some, [], ◌∷◌, Text, Dict, lookup, NodupKeys, lookup-insert, has, text_eq, text_eq_iff,
  text_eq_refl, true, arith, Bool-cases, inl, inr,
}
use pricefeeder.Types.{Symbol}
use pricefeeder.Provider.{map_values}

has-map_values :
    (m : Dict Symbol) (pair s : Text) → lookup pair m ≡ some s → has s (map_values m) ≡ true
unfolding map_values lookup
has-map_values [] pair s h = ground arith
has-map_values ((p, t) ∷ m) pair s h =
    ground (arith, lookup-insert t s tt (map_values m), text_eq_iff t s, has-map_values m pair s)

pair_of_symbol :
    (m : Dict Symbol) (s : Text)
    → NodupKeys m
    → has s (map_values m) ≡ true
    → (pair : Text) × (lookup pair m ≡ some s)
unfolding map_values lookup
pair_of_symbol [] s u h = absurd (ground arith)
pair_of_symbol ((p, t) ∷ m) s (fresh, u) h = elim (Bool-cases (text_eq t s)) [
  | inl here ↦ (p, ground (arith, text_eq_refl p, text_eq_iff t s))
  | inr there ↦
      let (pair, found) =
        pair_of_symbol m s u (ground (arith, lookup-insert t s tt (map_values m))) in
      (pair, ground (arith, text_eq_iff p pair))
]

-- A symbol is asked for exactly if some pair is mapped to it.
pub map_values_iff :
    (m : Dict Symbol) (s : Text)
    → NodupKeys m
    → (has s (map_values m) ≡ true) ↔ ((pair : Text) × (lookup pair m ≡ some s))
map_values_iff m s u = (pair_of_symbol m s u, λ (pair, h). has-map_values m pair s h)
