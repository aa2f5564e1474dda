-- ===== src/Sources/Csv.antt =====
-- The symbols of a request, joined by commas (bitfinex.go, binance.go, coingecko.go,
-- coinmarketcap.go). The order of the set's iteration is the order of its list.
use pricefeeder.Base.{
  ℕ, suc, ◌≡◌, refl, ◌∙◌, ap, List, [], ◌∷◌, ◌++◌, Text, text, Result, ok, panic, length,
  length-append, take, All, arith,
}
use mathlib.Core.List.{append_assoc}
use pricefeeder.Provider.{SymbolSet}
use pricefeeder.PriceText.{split_at}
use pricefeeder.PriceText.Split.{LacksByte, split_at-lacking, split_at-whole}

-- `s[:len(s)-1]`, which panics on the empty string.
unfoldable pub chop_last : Text → Result Text
chop_last [] = panic
chop_last (c ∷ s) = ok (take (length s) (c ∷ s))

csv_loop : Text → SymbolSet → Text
csv_loop s [] = s
csv_loop s ((symbol, _) ∷ symbols) = csv_loop (s ++ (symbol ++ text ",")) symbols

unfoldable pub bitfinex_symbol_csv : SymbolSet → Result Text
unfolding csv_loop
bitfinex_symbol_csv symbols = chop_last (csv_loop [] symbols)

unfoldable pub coingecko_symbol_csv : SymbolSet → Result Text
unfolding csv_loop
coingecko_symbol_csv symbols = chop_last (csv_loop [] symbols)

unfoldable pub coinmarketcap_symbol_csv : SymbolSet → Result Text
unfolding csv_loop
coinmarketcap_symbol_csv symbols = chop_last (csv_loop [] symbols)

binance_loop : Text → SymbolSet → Text
binance_loop s [] = s
binance_loop s ((symbol, _) ∷ symbols) =
    binance_loop (s ++ (text "%22" ++ (symbol ++ text "%22,"))) symbols

unfoldable pub binance_symbol_csv : SymbolSet → Result Text
unfolding binance_loop
binance_symbol_csv symbols = chop_last (binance_loop [] symbols)

-- The text in front of the last comma.
joined : Text → List Text → Text
joined first [] = first
joined first (symbol ∷ symbols) = first ++ (b',' ∷ joined symbol symbols)

abbrev pub symbol_texts : SymbolSet → List Text
symbol_texts [] = []
symbol_texts ((symbol, _) ∷ symbols) = symbol ∷ symbol_texts symbols

csv_loop-joined :
    (s symbol : Text) (mark : Unit {0}) (symbols : SymbolSet)
    → csv_loop s ((symbol, mark) ∷ symbols)
      ≡ s ++ (joined symbol (symbol_texts symbols) ++ (b',' ∷ []))
unfolding csv_loop joined
csv_loop-joined s symbol mark [] = refl
csv_loop-joined s symbol mark ((next, m) ∷ symbols) =
    csv_loop-joined (s ++ (symbol ++ (b',' ∷ []))) next m symbols ∙ simp append_assoc

take-length : (t u : Text) → take (length t) (t ++ u) ≡ t
take-length [] u = refl
take-length (c ∷ t) u = ap (◌∷◌ c) (take-length t u)

chop_last-append : (t : Text) (c : ℕ) → chop_last (t ++ (c ∷ [])) ≡ ok t
unfolding chop_last
chop_last-append [] c = refl
chop_last-append (a ∷ t) c =
    let count : length (t ++ (c ∷ [])) ≡ suc (length t) = omega (arith, length-append t (c ∷ [])) in
    rw (count, take-length t (c ∷ [])) refl

split_at-joined :
    (first : Text) (symbols : List Text)
    → All (LacksByte b',') (first ∷ symbols)
    → split_at b',' (joined first symbols) ≡ (first, symbols)
unfolding joined
split_at-joined first [] (h, _) = split_at-whole b',' first h
split_at-joined first (symbol ∷ symbols) (h, hs) =
    rw (split_at-lacking b',' first (joined symbol symbols) h, split_at-joined symbol symbols hs)

-- The comma separated symbols of a request, split at the commas, are the symbols in the order of the
-- set's iteration, if no symbol has a comma. With no symbol at all the function panics. The three
-- sources that build such a text build the same one.
pub symbol_csv-split :
    (symbol : Text) (mark : Unit {0}) (symbols : SymbolSet)
    → All (LacksByte b',') (symbol ∷ symbol_texts symbols)
    → (csv : Text) × (bitfinex_symbol_csv ((symbol, mark) ∷ symbols) ≡ ok csv)
      × (coingecko_symbol_csv ((symbol, mark) ∷ symbols) ≡ ok csv)
      × (coinmarketcap_symbol_csv ((symbol, mark) ∷ symbols) ≡ ok csv)
      × (split_at b',' csv ≡ (symbol, symbol_texts symbols))
      × (bitfinex_symbol_csv [] ≡ panic)
      × (coingecko_symbol_csv [] ≡ panic)
      × (coinmarketcap_symbol_csv [] ≡ panic)
unfolding bitfinex_symbol_csv coingecko_symbol_csv coinmarketcap_symbol_csv chop_last
symbol_csv-split symbol mark symbols h =
    let csv = joined symbol (symbol_texts symbols) in
    let made = ap chop_last (csv_loop-joined [] symbol mark symbols) ∙ chop_last-append csv b',' in
    (csv, made, made, made, split_at-joined symbol (symbol_texts symbols) h, refl, refl, refl)
