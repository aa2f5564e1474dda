-- ===== src/Base/Maps.antt =====
-- A Go map with string keys, as an association list: `m[k]`, `m[k] = v` and `v, ok := m[k]`.
use mathlib.Core.Path.{◌≡◌, refl}
use mathlib.Core.List.{List, [], ◌∷◌}
use mathlib.Core.Option.{Option, none, some}
use mathlib.Core.Bool.{Bool, true, false}
use native.Mathlib.Omega.{arith}
use pricefeeder.Base.Tests.{if◌then◌else◌}
use pricefeeder.Base.Strings.{Text, text_eq, text_eq_iff, text_eq_refl}

abbrev pub Dict {ℓ} : Type ℓ → Type ℓ
Dict V = List (Text × V)

module _ {ℓ} {V : Type ℓ} where
  unfoldable pub lookup : Text → Dict V → Option V
  lookup k [] = none
  lookup k ((j, v) ∷ m) = if text_eq j k then some v else lookup k m

  unfoldable pub insert : Text → V → Dict V → Dict V
  insert k v [] = (k, v) ∷ []
  insert k v ((j, w) ∷ m) = if text_eq j k then (k, v) ∷ m else (j, w) ∷ insert k v m

  pub lookup-insert :
      (k j : Text) (v : V) (m : Dict V)
      → lookup j (insert k v m) ≡ (if text_eq k j then some v else lookup j m)
  unfolding lookup insert
  lookup-insert k j v [] = refl
  lookup-insert k j v ((i, w) ∷ m) =
      ground (arith, text_eq_iff k j, text_eq_iff i k, text_eq_iff i j, lookup-insert k j v m)

  pub lookup-insert_self : (k : Text) (v : V) (m : Dict V) → lookup k (insert k v m) ≡ some v
  lookup-insert_self k v m = rw (lookup-insert, text_eq_refl)

  -- `for k, v := range from { to[k] = v }`, the keys of `from` in the order of its list.
  unfoldable pub merge : Dict V → Dict V → Dict V
  merge [] to = to
  merge ((k, v) ∷ from) to = merge from (insert k v to)

  -- A Go map has one entry for a key.
  abbrev pub NodupKeys : Dict V → Type ℓ
  NodupKeys [] = Unit
  NodupKeys ((k, v) ∷ m) = (lookup k m ≡ none) × NodupKeys m

  pub insert-NodupKeys : (k : Text) (v : V) (m : Dict V) → NodupKeys m → NodupKeys (insert k v m)
  unfolding insert lookup
  insert-NodupKeys k v [] u = (refl, tt)
  insert-NodupKeys k v ((j, w) ∷ m) (fresh, u) =
      ground
        (arith, text_eq_iff j k, text_eq_iff k j, lookup-insert k j v m, insert-NodupKeys k v m u)

  pub merge-NodupKeys : (from to : Dict V) → NodupKeys to → NodupKeys (merge from to)
  unfolding merge
  merge-NodupKeys [] to u = u
  merge-NodupKeys ((k, v) ∷ from) to u =
      merge-NodupKeys from (insert k v to) (insert-NodupKeys k v to u)

  -- The first value that is there.
  abbrev pub or_else : Option V → Option V → Option V
  or_else none b = b
  or_else (some a) b = some a

  pub or_else-none : (a : Option V) → or_else a none ≡ a
  or_else-none none = refl
  or_else-none (some p) = refl

  pub or_else_assoc : (a b c : Option V) → or_else a (or_else b c) ≡ or_else (or_else a b) c
  or_else_assoc none b c = refl
  or_else_assoc (some p) b c = refl

  pub lookup-merge :
      (j : Text) (from to : Dict V)
      → NodupKeys from
      → lookup j (merge from to) ≡ or_else (lookup j from) (lookup j to)
  unfolding lookup merge
  lookup-merge j [] to u = refl
  lookup-merge j ((k, v) ∷ from) to (fresh, u) =
      ground (arith, lookup-merge j from (insert k v to) u, lookup-insert k j v to, text_eq_iff k j)

  -- `_, ok := m[k]`
  abbrev pub has : Text → Dict V → Bool
  has k m = elim (lookup k m) [ none ↦ false | some v ↦ true ]
