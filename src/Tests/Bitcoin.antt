-- ===== src/Tests/Bitcoin.antt =====
-- A wallet over encodings that change nothing, keys that are texts, and a cipher that hides nothing.
use abundance_protocol.Prelude.{
  ℕ, ◌+◌, ◌*◌, ltb, if◌then◌else◌, ◌≡◌, ◌⊎◌, ◌↔◌, refl, Bool, true, false, not, Option, none, some,
  [], ◌∷◌, includes, replicate, arith,
}
use abundance_protocol.Prelude.Text.{codes, ◌===◌}
use abundance_protocol.Result.{err}
use abundance_protocol.Bitcoin.Identity.{
  Text, Bytes, mainnet, testnet, lower_of, detect_network, SecureWallet, EncryptedData,
}
use abundance_protocol.Bitcoin.Identity.Networks.{detect_network_mainnet}
use abundance_protocol.Bitcoin.Identity.Encryption.{Cipher, serialize, deserialize}
use abundance_protocol.Bitcoin.Identity.Encryption.RoundTrip.{IsCipher, deserialize-serialize}
use abundance_protocol.Bitcoin.Identity.Wallet.{
  Library, library_error, Entropy, HardenedWallet, import_from_mnemonic, decrypt_wallet,
}
use abundance_protocol.Bitcoin.Identity.Wallet.Unkeyed.{IsLimited, import_from_mnemonic_unkeyed}

detect_network_mainnet_example :
    (detect_network (some (codes "MainNet")) (some (codes "yes")) ≡ mainnet) ↔ (
      ((lower_of (some (codes "MainNet")) ≡ some (codes "mainnet"))
        ⊎ (lower_of (some (codes "MainNet")) ≡ some (codes "bitcoin")))
      × (◌≡◌ {A = Option Text} (some (codes "yes")) (some (codes "yes"))))
detect_network_mainnet_example =
    detect_network_mainnet (some (codes "MainNet")) (some (codes "yes"))

abbrev zeros : ℕ → Bytes
zeros n = replicate n 0

abbrev plain : Cipher
plain = record {
  scrypt = λ n r p size password salt.
      if ltb 33554432 (128 * r * p + 128 * r * (n + 2)) then none else some password;
  seal = λ key iv data'. (data', zeros 16);
  unseal = λ key iv tag ciphertext. some ciphertext;
  base64 = λ bytes. bytes;
  from_base64 = λ text. text;
  utf8 = λ text. text;
  from_utf8 = λ bytes. bytes;
}

plain-IsCipher : IsCipher plain
plain-IsCipher = record {
  opens = λ key iv data'. refl;
  tagged = λ key iv data'. refl;
  decoded = λ bytes. refl;
  read = λ text. refl;
  shown = λ b bs. omega arith;
}

abbrev key_bytes : Bool → Bytes
key_bytes true = 1 ∷ []
key_bytes false = 2 ∷ []

-- Keys are Booleans: whether the mnemonic has an 'a'.
abbrev toy : Library Bool
toy = record {
  validate_mnemonic = λ m. true;
  from_mnemonic = λ net m. includes b'a' m;
  from_base58 = λ net t. some (includes 1 t);
  fingerprint_of = λ k. codes "f";
  neutered = λ k. codes "x";
  to_base58 = key_bytes;
  derive_path = λ k path. some (not k);
  public_key = key_bytes;
  private_key = λ k. some (key_bytes k);
  taproot = λ net key. key;
  sha256 = λ bytes. bytes;
  ecdsa_sign = λ hash key. key;
  ecdsa_verify = λ hash public signature. some (public === signature);
  hex = λ bytes. bytes;
  from_hex = λ text. text;
  multi_sig = λ m keys. none;
  script_address = λ type net script. script;
  decimal = λ n. n ∷ [];
}

abbrev drawn : Entropy
drawn = record { salt = zeros 32; iv = zeros 16 }

abbrev empty_wallet : HardenedWallet
empty_wallet = record { network = testnet; wallets = [] }

plain-IsLimited : IsLimited plain
plain-IsLimited n r p size password salt above = ground arith

-- A wallet of another place.
abbrev kept_wallet : SecureWallet
kept_wallet = record {
  fingerprint = codes "f";
  xpub = codes "x";
  xprv_encrypted = none;
  mnemonic_encrypted = some (codes "abc");
  network = testnet;
  created_at = 5;
  hardware_wallet = none;
}

import_from_mnemonic_unkeyed_example :
    (import_from_mnemonic plain toy (codes "a b") (codes "pw") drawn drawn 5 empty_wallet
      ≡ (err library_error, empty_wallet))
    × (decrypt_wallet plain toy kept_wallet (codes "pw") ≡ err library_error)
import_from_mnemonic_unkeyed_example =
    import_from_mnemonic_unkeyed plain plain-IsLimited toy (codes "a b") (codes "pw") drawn drawn 5
      empty_wallet kept_wallet {text = codes "abc"} refl

abbrev sealed_text : EncryptedData
sealed_text = record {
  ciphertext = codes "text";
  iv = zeros 16;
  salt = zeros 32;
  tag = zeros 16;
  version = some 1;
}

deserialize-serialize_example : deserialize plain (serialize plain sealed_text) ≡ sealed_text
deserialize-serialize_example =
    deserialize-serialize plain plain-IsCipher sealed_text {v = 1} refl refl refl refl (omega arith)
