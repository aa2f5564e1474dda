-- ===== src/Keyring/Auth.antt =====
-- What the keyring of `GetAuth` answers.
use mathlib.Core.Path.{subst₂}
use pricefeeder.Base.{
  sym, ℕ, ◌/◌, ◌%◌, ◌<◌, ◌≡◌, refl, ◌∙◌, ap, some, [], ◌∷◌, ◌++◌, Text, text, text_eq, text_eq_refl,
  if◌then◌else◌, ok, err, ◌>>=◌, must, must-eq-ok, >>=-eq-ok, ok-injective, All, arith,
}
use pricefeeder.Keyring.{
  hex_digit, from_hex, from_hex_pair, hex_encode, hex_decode, KeyDeps, PrivKeyKeyring,
  new_priv_key_keyring, get_auth, key_by_address, key, sign_by_address, sign,
}

-- The elements are bytes.
abbrev pub IsBytes : Text → Type 0
IsBytes = All (λ b. b < 256)

from_hex-hex_digit : (n : ℕ) → n < 16 → from_hex (hex_digit n) ≡ some n
unfolding from_hex hex_digit
from_hex-hex_digit n h = ground arith

pub hex_decode-hex_encode : (s : Text) → IsBytes s → hex_decode (hex_encode s) ≡ ok s
unfolding hex_decode hex_encode from_hex_pair
hex_decode-hex_encode [] h = refl
hex_decode-hex_encode (b ∷ s) (byte, h) =
    rw
      (
        from_hex-hex_digit (b / 16) (omega arith),
        from_hex-hex_digit (b % 16) (omega arith),
        hex_decode-hex_encode s h,
      )
      (ap (λ x. ok (x ∷ s)) (omega arith))

module _ (deps : KeyDeps) where
  -- A keyring of one key: its answers for its own address, and an error for every other.
  pub record Holds (kr : PrivKeyKeyring) (priv addr : Text) : Type 0 where
    pub finds :
        (a : Text)
        → key_by_address deps kr a ≡ (
            if text_eq a addr
            then deps.new_local_record addr priv (deps.pub_key priv)
            else err (text "key not found: " ++ a))
    pub signs :
        (a msg : Text)
        → sign_by_address deps kr a msg ≡ (
            if text_eq addr a
            then (deps.sign priv msg >>= λ signed. ok (signed, deps.pub_key priv))
            else err (text "key not found"))
    pub finds_any :
        (uid : Text) → key deps kr uid ≡ deps.new_local_record addr priv (deps.pub_key priv)
    pub signs_any :
        (uid msg : Text)
        → sign deps kr uid msg ≡ (deps.sign priv msg >>= λ signed. ok (signed, deps.pub_key priv))

  Holds-derived :
      (priv : Text)
      → let kr : PrivKeyKeyring = record {
        addr = deps.address (deps.pub_key priv);
        pub_key = deps.pub_key priv;
        priv_key = priv;
      } in
        Holds kr priv (deps.address (deps.pub_key priv))
  unfolding key_by_address sign_by_address key sign
  Holds-derived priv = record {
    finds = λ a. ground arith;
    signs = λ a msg. ground arith;
    finds_any = λ uid. ground (arith, text_eq_refl (deps.address (deps.pub_key priv)));
    signs_any = λ uid msg. ground (arith, text_eq_refl (deps.address (deps.pub_key priv)));
  }

  -- If `GetAuth` returns, the key that was derived from the mnemonic went through hexadecimal unchanged: the
  -- keyring finds and signs with that key for the feeder's address, and for no other, the names of keys
  -- are not read, and the validator's address has the bytes of the feeder's.
  pub get_auth-Holds :
      (mnemonic : Text) (kr : PrivKeyKeyring) (validator feeder : Text)
      → ((seed path priv : Text) → deps.derive seed path ≡ ok priv → IsBytes priv)
      → get_auth deps mnemonic ≡ ok (kr, validator, feeder)
      → (priv : Text) × (deps.derive (deps.new_seed mnemonic) (text "m/44'/118'/0'/0/0") ≡ ok priv)
        × (feeder ≡ deps.address (deps.pub_key priv))
        × (validator ≡ feeder)
        × Holds kr priv feeder
  unfolding get_auth new_priv_key_keyring
  get_auth-Holds mnemonic kr validator feeder bytes h =
      let (priv, derived, h₁) =
        >>=-eq-ok (must (deps.derive (deps.new_seed mnemonic) (text "m/44'/118'/0'/0/0"))) _ h in
      let from = must-eq-ok _ derived in
      let kept : hex_decode (hex_encode priv) ≡ ok priv =
        hex_decode-hex_encode priv (bytes _ _ priv from) in
      let made = ok-injective (rw kept at h₁) in
      (
        priv,
        from,
        sym (ap (λ p. p.2) made),
        sym (ap (λ p. p.1) made) ∙ ap (λ p. p.2) made,
        subst₂ (λ k f. Holds k priv f) (ap (λ p. p.0) made) (ap (λ p. p.2) made)
            (Holds-derived priv),
      )
