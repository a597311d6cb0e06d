-- ===== src/Bitcoin/Identity/Encryption.antt =====
-- SecureEncryption (src/bitcoin/identity-hardened.ts). scrypt, AES-256-GCM, base64 and UTF-8 are
-- parameters; `none` is a call that throws, as scrypt does where it would need more memory than its limit. Salts and vectors are drawn by the caller.
pub mod RoundTrip
use abundance_protocol.Prelude.{
  ℕ, ◌+◌, ◌%◌, Option, none, some, List, [], ◌∷◌, ◌++◌, length, get_elem?,
}
use abundance_protocol.Prelude.Slices.{drop, slice}
use abundance_protocol.Bitcoin.Identity.{Text, Bytes, EncryptedData}

pub record Cipher : Type 0 where
  -- by cost, block size and parallelisation, the length of the key, password and salt
  pub scrypt : ℕ → ℕ → ℕ → ℕ → Text → Bytes → Option Bytes
  -- the ciphertext and the tag, by key and vector
  pub seal : Bytes → Bytes → Bytes → Bytes × Bytes
  pub unseal : Bytes → Bytes → Bytes → Bytes → Option Bytes
  pub base64 : Bytes → Text
  pub from_base64 : Text → Bytes
  pub utf8 : Text → Bytes
  pub from_utf8 : Bytes → Text

abbrev pub salt_length : ℕ
salt_length = 32

abbrev pub iv_length : ℕ
iv_length = 16

abbrev pub tag_length : ℕ
tag_length = 16

-- Buffer.from([version])
abbrev pub version_byte : Option ℕ → ℕ
version_byte none = 0
version_byte (some v) = v % 256

abbrev pub key_length : ℕ
key_length = 32

-- SCRYPT_PARAMS
abbrev pub scrypt_n : ℕ
scrypt_n = 32768

abbrev pub scrypt_r : ℕ
scrypt_r = 8

abbrev pub scrypt_p : ℕ
scrypt_p = 1

module _ (c : Cipher) where
  abbrev pub derive_key : Text → Bytes → Option Bytes
  derive_key password salt = c.scrypt scrypt_n scrypt_r scrypt_p key_length password salt

  unfoldable pub encrypt : Bytes → Text → Bytes → Bytes → Option EncryptedData
  encrypt data' password salt iv = elim (derive_key password salt) [
    | none ↦ none
    | some key ↦
        let (ciphertext, tag) = c.seal key iv data' in
        some (record { ciphertext = ciphertext; iv = iv; salt = salt; tag = tag; version = some 1 })
  ]

  unfoldable pub decrypt : EncryptedData → Text → Option Bytes
  decrypt e password = elim (derive_key password e.salt) [
    | none ↦ none
    | some key ↦ c.unseal key e.iv e.tag e.ciphertext
  ]

  unfoldable pub serialize : EncryptedData → Text
  serialize e =
      c.base64 ((version_byte e.version ∷ []) ++ (e.salt ++ (e.iv ++ (e.tag ++ e.ciphertext))))

  -- The offsets are 1, 33, 49 and 65.
  unfoldable pub deserialize : Text → EncryptedData
  deserialize serialized =
      let combined = c.from_base64 serialized in
      record {
        version = get_elem? combined 0;
        salt = slice 1 (1 + salt_length) combined;
        iv = slice (1 + salt_length) (1 + salt_length + iv_length) combined;
        tag =
            slice (1 + salt_length + iv_length) (1 + salt_length + iv_length + tag_length) combined;
        ciphertext = drop (1 + salt_length + iv_length + tag_length) combined;
      }
