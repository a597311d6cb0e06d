-- ===== src/Bitcoin/Identity/Wallet.antt =====
-- HardwareWalletIntegration and HardenedWallet (src/bitcoin/identity-hardened.ts). The Bitcoin libraries
-- are the parameter `Library`, whose keys are of a type `K`; `none` is a call that throws. The display of an
-- address, the public keys that are drawn at random and the warnings stay out.
pub mod Hardware
pub mod Unkeyed
use abundance_protocol.Prelude.{
  ℕ, zero, suc, ◌+◌, ◌<◌, Bool, true, false, not, Option, none, some, List, [], ◌∷◌, ◌++◌, ltb,
  ◌==◌, if◌then◌else◌, length, includes, take,
}
use abundance_protocol.Prelude.Slices.{slice}
use abundance_protocol.Prelude.Text.{codes, ◌===◌}
use abundance_protocol.Result.{Result, ok, err, or_throw, throw_if, ◌>>=◌, ◌>>◌}
use abundance_protocol.Bitcoin.Identity.{
  Text, Bytes, NetworkType, mainnet, testnet, regtest, AddressType, p2tr, p2wsh, p2sh, SecureWallet,
  DerivedAddress, MultiSigConfig, EncryptedData,
}
use abundance_protocol.Bitcoin.Identity.Encryption.{
  Cipher, encrypt, decrypt, serialize, deserialize,
}

-- bip39, bip32, tiny-secp256k1 and bitcoinjs-lib, as far as they are called.
pub record Library (K : Type 0) : Type 0 where
  pub validate_mnemonic : Text → Bool
  pub from_mnemonic : NetworkType → Text → K
  pub from_base58 : NetworkType → Text → Option K
  pub fingerprint_of : K → Text
  pub neutered : K → Text
  pub to_base58 : K → Text
  pub derive_path : K → Text → Option K
  pub public_key : K → Bytes
  pub private_key : K → Option Bytes
  pub taproot : NetworkType → Bytes → Text
  pub sha256 : Bytes → Bytes
  pub ecdsa_sign : Bytes → Bytes → Bytes
  pub ecdsa_verify : Bytes → Bytes → Bytes → Option Bool
  pub hex : Bytes → Text
  pub from_hex : Text → Bytes
  -- the output script of p2ms, and the addresses that are made of it
  pub multi_sig : ℕ → List Bytes → Option Bytes
  pub script_address : AddressType → NetworkType → Bytes → Text
  pub decimal : ℕ → Text

pub data WalletError : Type 0 where
  invalid_mnemonic : WalletError
  no_device : WalletError
  password_required : WalletError
  no_private_key : WalletError
  hardware_signs : WalletError
  not_implemented : WalletError
  library_error : WalletError

pub record HardenedWallet : Type 0 where
  pub network : NetworkType
  pub wallets : List (Text × SecureWallet)

-- What is drawn at random for one encryption.
pub record Entropy : Type 0 where
  pub salt : Bytes
  pub iv : Bytes

pub record DecryptedWallet : Type 0 where
  pub mnemonic : Option Text
  pub xprv : Option Text

-- if (text), where the empty text counts as none
abbrev pub given : Option Text → Option Text
given none = none
given (some []) = none
given (some (c ∷ cs)) = some (c ∷ cs)

-- this.wallets.set(fingerprint, wallet)
unfoldable pub set_wallet :
    Text → SecureWallet → List (Text × SecureWallet) → List (Text × SecureWallet)
set_wallet fingerprint wallet [] = (fingerprint, wallet) ∷ []
set_wallet fingerprint wallet ((f, w) ∷ ws) =
    if f === fingerprint then (f, wallet) ∷ ws else (f, w) ∷ set_wallet fingerprint wallet ws

-- A wallet that is made is stored under its fingerprint.
abbrev pub store_wallet :
    Result WalletError SecureWallet
    → HardenedWallet
    → Result WalletError SecureWallet × HardenedWallet
store_wallet (err e) s = (err e, s)
store_wallet (ok wallet) s =
    (ok wallet, record s { wallets = set_wallet wallet.fingerprint wallet s.wallets })

module _ {K : Type 0} (c : Cipher) (lib : Library K) where
  -- SecureEncryption.serialize(SecureEncryption.encrypt(text, password))
  abbrev pub sealed : Text → Text → Entropy → Result WalletError Text
  sealed text password drawn = do
    e ← or_throw (encrypt c (c.utf8 text) password drawn.salt drawn.iv) library_error
    ok (serialize c e)

  unfoldable pub import_from_mnemonic :
      Text
      → Text
      → Entropy
      → Entropy
      → ℕ
      → HardenedWallet
      → Result WalletError SecureWallet × HardenedWallet
  import_from_mnemonic mnemonic password first second now s =
      let root = lib.from_mnemonic s.network mnemonic in
      let made : Result WalletError SecureWallet = do
        throw_if (not (lib.validate_mnemonic mnemonic)) invalid_mnemonic
        mnemonic_encrypted ← sealed mnemonic password first
        xprv_encrypted ← sealed (lib.to_base58 root) password second
        ok (record {
          fingerprint = lib.fingerprint_of root;
          xpub = lib.neutered root;
          xprv_encrypted = some xprv_encrypted;
          mnemonic_encrypted = some mnemonic_encrypted;
          network = s.network;
          created_at = now;
          hardware_wallet = none;
        })
      in store_wallet made s

  -- `generate` draws a mnemonic of so many bits.
  unfoldable pub create_wallet :
      (ℕ → Text)
      → Text
      → Bool
      → Entropy
      → Entropy
      → ℕ
      → HardenedWallet
      → Result WalletError SecureWallet × HardenedWallet
  create_wallet generate password use_12_words =
      import_from_mnemonic (generate (if use_12_words then 128 else 256)) password

  abbrev pub opened : Option Text → Text → Result WalletError (Option Text)
  opened none password = ok none
  opened (some text) password = do
    bytes ← or_throw (decrypt c (deserialize c text) password) library_error
    ok (some (c.from_utf8 bytes))

  unfoldable pub decrypt_wallet : SecureWallet → Text → Result WalletError DecryptedWallet
  decrypt_wallet wallet password = do
    mnemonic ← opened (given wallet.mnemonic_encrypted) password
    xprv ← opened (given wallet.xprv_encrypted) password
    ok (record { mnemonic = mnemonic; xprv = xprv })

  -- password, if it is not empty
  abbrev pub password_of : Option Text → Result WalletError Text
  password_of password = or_throw (given password) password_required

  abbrev pub key_text : SecureWallet → Option Text → Result WalletError Text
  key_text wallet password = elim wallet.hardware_wallet [
    | some device ↦ ok wallet.xpub
    | none ↦ do
      word ← password_of password
      secrets ← decrypt_wallet wallet word
      ok (elim (given secrets.xprv) [ none ↦ wallet.xpub | some xprv ↦ xprv ])
  ]

  -- A text with a space is a mnemonic.
  unfoldable pub root_of : NetworkType → Text → Result WalletError K
  root_of network text =
      if includes b' ' text
      then ok (lib.from_mnemonic network text)
      else or_throw (lib.from_base58 network text) library_error

  unfoldable pub derive_address :
      SecureWallet → Text → Option Text → HardenedWallet → Result WalletError DerivedAddress
  derive_address wallet path password s = do
    text ← key_text wallet password
    root ← root_of s.network text
    child ← or_throw (lib.derive_path root path) library_error
    let internal = slice 1 33 (lib.public_key child)
    ok (record {
      address = lib.taproot s.network internal;
      path = path;
      public_key = lib.hex (lib.public_key child);
      internal_key = lib.hex internal;
      fingerprint = wallet.fingerprint;
      network = s.network;
    })

  abbrev pub coin_type : NetworkType → Text
  coin_type mainnet = codes "0"
  coin_type _ = codes "1"

  -- `m/86'/…'/0'/…`
  abbrev pub base_path : NetworkType → Bool → Text
  base_path network change =
      codes "m/86'/"
      ++ (coin_type network ++ (codes "'/0'/" ++ (if change then codes "1" else codes "0")))

  -- the loop from i on
  unfoldable pub range_loop :
      ℕ
      → ℕ
      → Text
      → SecureWallet
      → Option Text
      → HardenedWallet
      → Result WalletError (List DerivedAddress)
  range_loop zero i base wallet password s = ok []
  range_loop (suc n) i base wallet password s = do
    a ← derive_address wallet (base ++ (codes "/" ++ lib.decimal i)) password s
    rest ← range_loop n (i + 1) base wallet password s
    ok (a ∷ rest)

  unfoldable pub derive_address_range :
      SecureWallet
      → ℕ
      → ℕ
      → Bool
      → Option Text
      → HardenedWallet
      → Result WalletError (List DerivedAddress)
  derive_address_range wallet start count change password s =
      range_loop count start (base_path s.network change) wallet password s

  abbrev pub from_hex_all : List Text → List Bytes
  from_hex_all [] = []
  from_hex_all (k ∷ ks) = lib.from_hex k ∷ from_hex_all ks

  -- Returns the address and the script.
  unfoldable pub generate_multi_sig_address :
      MultiSigConfig → Option NetworkType → HardenedWallet → Result WalletError (Text × Text)
  generate_multi_sig_address config network s =
      let net = elim network as (λ _. NetworkType) [ none ↦ s.network | some n ↦ n ] in
      let scripted = do
        script ←
            or_throw (lib.multi_sig config.required (from_hex_all config.pubkeys)) library_error
        ok (lib.script_address config.address_type net script, lib.hex script)
      in elim config.address_type [
        | p2tr ↦ err not_implemented
        | p2wsh ↦ scripted
        | p2sh ↦ scripted
      ]

  unfoldable pub sign_message :
      SecureWallet → Text → Text → Option Text → HardenedWallet → Result WalletError Text
  sign_message wallet message path password s = elim wallet.hardware_wallet [
    | some device ↦ err hardware_signs
    | none ↦ do
      word ← password_of password
      secrets ← decrypt_wallet wallet word
      xprv ← or_throw (given secrets.xprv) no_private_key
      root ← root_of s.network xprv
      child ← or_throw (lib.derive_path root path) library_error
      key ← or_throw (lib.private_key child) library_error
      ok (lib.hex (lib.ecdsa_sign (lib.sha256 (c.utf8 message)) key))
  ]

  unfoldable pub verify_message : Text → Text → Text → Bool
  verify_message public_key message signature =
      elim (lib.ecdsa_verify (lib.sha256 (c.utf8 message)) (lib.from_hex public_key)
        (lib.from_hex signature)) [ none ↦ false | some valid ↦ valid ]
