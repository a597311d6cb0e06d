-- ===== src/Bitcoin/Identity.antt =====
-- src/bitcoin/identity-hardened.ts: networks, and the data of wallets. A text is the list of its
-- characters, a buffer the list of its bytes, and an environment variable `none` where it is not set.
pub mod Networks
pub mod Encryption
pub mod Wallet
use abundance_protocol.Prelude.{
  ℕ, ◌≡◌, ◌⊎◌, ◌↔◌, Bool, true, false, ◌&&◌, ◌||◌, Option, none, some, List, [], ◌∷◌, if◌then◌else◌,
  not, arith, inl, inr, refl, Bool-cases,
}
use abundance_protocol.Prelude.Text.{codes, ◌===◌, lower, ===_eq, ===_self}

abbrev pub Text : Type 0
Text = List ℕ

abbrev pub Bytes : Type 0
Bytes = List ℕ

pub data NetworkType : Type 0 where
  mainnet testnet regtest : NetworkType

pub record NetworkConfig : Type 0 where
  pub type : NetworkType
  pub bech32 : Text
  pub bip32_public : ℕ
  pub bip32_private : ℕ

abbrev pub networks : NetworkType → NetworkConfig
networks mainnet = record {
  type = mainnet;
  bech32 = codes "bc";
  bip32_public = 0x0488b21e;
  bip32_private = 0x0488ade4;
}
networks testnet = record {
  type = testnet;
  bech32 = codes "tb";
  bip32_public = 0x043587cf;
  bip32_private = 0x04358394;
}
networks regtest = record {
  type = regtest;
  bech32 = codes "bcrt";
  bip32_public = 0x043587cf;
  bip32_private = 0x04358394;
}

-- `x === text`, for what may be undefined
abbrev pub is_text : Option Text → Text → Bool
is_text none text = false
is_text (some t) text = t === text

abbrev pub lower_of : Option Text → Option Text
lower_of none = none
lower_of (some t) = some (lower t)

-- The environment: BITCOIN_NETWORK and BITCOIN_MAINNET_CONFIRMED.
unfoldable pub detect_network : Option Text → Option Text → NetworkType
detect_network network confirmed =
    let env = lower_of network in
    if is_text env (codes "mainnet") || is_text env (codes "bitcoin")
    then (if not (is_text confirmed (codes "yes")) then testnet else mainnet)
    else if is_text env (codes "regtest")
    then regtest
    else testnet

unfoldable pub get_network_config : Option NetworkType → NetworkType → NetworkConfig
get_network_config none detected = networks detected
get_network_config (some net) detected = networks net

pub data HardwareWalletType : Type 0 where
  trezor ledger coldcard bitbox : HardwareWalletType

pub record HardwareWalletStub : Type 0 where
  pub type : HardwareWalletType
  pub connected : Bool
  pub model : Text
  pub firmware_version : Text
  pub path_prefix : Text

pub record SecureWallet : Type 0 where
  pub fingerprint : Text
  pub xpub : Text
  pub xprv_encrypted : Option Text
  pub mnemonic_encrypted : Option Text
  pub network : NetworkType
  pub created_at : ℕ
  pub hardware_wallet : Option HardwareWalletStub

pub record DerivedAddress : Type 0 where
  pub address : Text
  pub path : Text
  pub public_key : Text
  pub internal_key : Text
  pub fingerprint : Text
  pub network : NetworkType

pub data AddressType : Type 0 where
  p2tr p2wsh p2sh : AddressType

pub record MultiSigConfig : Type 0 where
  pub required : ℕ
  pub total : ℕ
  pub pubkeys : List Text
  pub address_type : AddressType

pub record EncryptedData : Type 0 where
  pub ciphertext : Bytes
  pub iv : Bytes
  pub salt : Bytes
  pub tag : Bytes
  pub version : Option ℕ
