-- ===== src/Keyring.antt =====
-- config/keyring.go: a keyring with one key. Deriving the key from the mnemonic, its public key and
-- address, and signing are code of other packages: parameters. Keys and addresses are bytes.
pub mod Auth
use pricefeeder.Base.{
  ℕ, suc, ◌+◌, ◌-◌, ◌*◌, ◌/◌, ◌%◌, Bool, ◌&&◌, Option, none, some, List, [], ◌∷◌, ◌++◌, Text, text,
  text_eq, ltb, leb, if◌then◌else◌, not, Result, ok, err, panic, ◌>>=◌, must,
}

-- `hex.EncodeToString` and `hex.DecodeString`.
hex_digit : ℕ → ℕ
hex_digit n = if ltb n 10 then b'0' + n else b'a' + (n - 10)

unfoldable pub hex_encode : Text → Text
unfolding hex_digit
hex_encode [] = []
hex_encode (b ∷ s) = hex_digit (b / 16) ∷ hex_digit (b % 16) ∷ hex_encode s

from_hex : ℕ → Option ℕ
from_hex c =
    if leb b'0' c && leb c b'9'
    then some (c - b'0')
    else if leb b'a' c && leb c b'f'
    then some (c - b'a' + 10)
    else if leb b'A' c && leb c b'F'
    then some (c - b'A' + 10)
    else none

invalid_byte : Text
invalid_byte = text "encoding/hex: invalid byte"

from_hex_pair : Option ℕ → Option ℕ → Result Text → Result Text
unfolding invalid_byte
from_hex_pair (some high) (some low) rest = rest >>= λ s. ok ((high * 16 + low) ∷ s)
from_hex_pair _ _ rest = err invalid_byte

-- The text of the error for an invalid byte is cut short.
unfoldable pub hex_decode : Text → Result Text
unfolding from_hex from_hex_pair
hex_decode [] = ok []
hex_decode (c ∷ []) = err (text "encoding/hex: odd length hex string")
hex_decode (c ∷ e ∷ s) = from_hex_pair (from_hex c) (from_hex e) (hex_decode s)

pub record KeyDeps : Type 0 where
  -- `bip39.NewSeed` with no password
  pub new_seed : Text → Text
  -- `hd.ComputeMastersFromSeed` and `hd.DerivePrivateKeyForPath`
  pub derive : Text → Text → Result Text
  pub pub_key : Text → Text
  pub address : Text → Text
  pub sign : Text → Text → Result Text
  -- `keyring.NewLocalRecord`
  pub new_local_record : Text → Text → Text → Result Text

pub record PrivKeyKeyring : Type 0 where
  pub addr : Text
  pub pub_key : Text
  pub priv_key : Text

module _ (deps : KeyDeps) where
  unfoldable pub new_priv_key_keyring : Text → Result PrivKeyKeyring
  new_priv_key_keyring hex_key = must (hex_decode hex_key) >>= λ b.
      ok (record { addr = deps.address (deps.pub_key b); pub_key = deps.pub_key b; priv_key = b })

  -- The keyring, the validator's address and the feeder's.
  unfoldable pub get_auth : Text → Result (PrivKeyKeyring × Text × Text)
  get_auth mnemonic =
      must (deps.derive (deps.new_seed mnemonic) (text "m/44'/118'/0'/0/0")) >>= λ priv.
      new_priv_key_keyring (hex_encode priv) >>= λ kr. ok (kr, kr.addr, kr.addr)

  unfoldable pub key_by_address : PrivKeyKeyring → Text → Result Text
  key_by_address p address =
      if not (text_eq address p.addr)
      then err (text "key not found: " ++ address)
      else deps.new_local_record p.addr p.priv_key p.pub_key

  unfoldable pub key : PrivKeyKeyring → Text → Result Text
  key p uid = key_by_address p p.addr

  unfoldable pub sign_by_address : PrivKeyKeyring → Text → Text → Result (Text × Text)
  sign_by_address p address msg =
      if not (text_eq p.addr address)
      then err (text "key not found")
      else (deps.sign p.priv_key msg >>= λ signed. ok (signed, p.pub_key))

  unfoldable pub sign : PrivKeyKeyring → Text → Text → Result (Text × Text)
  sign p uid msg = sign_by_address p p.addr msg

-- The methods that must never be called all panic.
pub data Unused : Type 0 where
  backend rename list supported_algorithms delete delete_by_address new_mnemonic new_account :
      Unused
  save_ledger_key save_offline_key save_pub_key save_multisig : Unused
  import_priv_key import_priv_key_hex import_pub_key : Unused
  export_pub_key_armor export_pub_key_armor_by_address : Unused
  export_priv_key_armor export_priv_key_armor_by_address migrate_all : Unused

unfoldable pub call_unused : Unused → Result (Unit {0})
call_unused method = panic
