-- ===== src/Bitcoin/Identity/Wallet/Unkeyed.antt =====
-- What becomes of wallets where scrypt keeps to its memory limit (src/bitcoin/identity-hardened.ts: encrypt,
-- decrypt, importFromMnemonic, decryptWallet).
use abundance_protocol.Prelude.{
  ℕ, ◌+◌, ◌*◌, ◌<◌, ◌≡◌, refl, if◌then◌else◌, none, some, arith, inl, inr, Bool-cases,
}
use abundance_protocol.Result.{err}
use abundance_protocol.Bitcoin.Identity.{Text, Bytes, SecureWallet, EncryptedData}
use abundance_protocol.Bitcoin.Identity.Encryption.{
  Cipher, scrypt_n, scrypt_r, scrypt_p, key_length, derive_key, encrypt, decrypt, deserialize,
}
use abundance_protocol.Bitcoin.Identity.Wallet.{
  Library, invalid_mnemonic, library_error, HardenedWallet, Entropy, given, import_from_mnemonic,
  decrypt_wallet,
}

-- scryptSync throws where its blocks need more than 32 MiB, its limit unless `maxmem` is given.
abbrev pub IsLimited : Cipher → Type 0
IsLimited c =
    (n r p length : ℕ) (password : Text) (salt : Bytes)
    → 32 * 1024 * 1024 < 128 * r * p + 128 * r * (n + 2)
    → c.scrypt n r p length password salt ≡ none

module _ (c : Cipher) (limited : IsLimited c) where
  derive_key-none : (password : Text) (salt : Bytes) → derive_key c password salt ≡ none
  derive_key-none password salt =
      limited scrypt_n scrypt_r scrypt_p key_length password salt (omega arith)

  encrypt-none :
      (data' : Bytes) (password : Text) (salt iv : Bytes) → encrypt c data' password salt iv ≡ none
  unfolding encrypt
  encrypt-none data' password salt iv = rw (derive_key-none password salt, encrypt) refl

  decrypt-none : (e : EncryptedData) (password : Text) → decrypt c e password ≡ none
  unfolding decrypt
  decrypt-none e password = rw (derive_key-none password e.salt, decrypt) refl

  module _ {K : Type 0} (lib : Library K) where
    -- No wallet is ever imported, if scrypt throws above its limit of 32 MiB: whatever the mnemonic and the
    -- password, the call throws, by the key's derivation where the mnemonic is valid, and stores nothing; and
    -- a wallet that has an encrypted mnemonic cannot be decrypted by any password.
    pub import_from_mnemonic_unkeyed :
        (mnemonic password : Text) (first second : Entropy) (now : ℕ) (s : HardenedWallet)
        (w : SecureWallet) {text : Text}
        → given w.mnemonic_encrypted ≡ some text
        → (import_from_mnemonic c lib mnemonic password first second now s
            ≡ (err (if lib.validate_mnemonic mnemonic then library_error else invalid_mnemonic), s))
          × (decrypt_wallet c lib w password ≡ err library_error)
    unfolding import_from_mnemonic decrypt_wallet
    import_from_mnemonic_unkeyed mnemonic password first second now s w {text} kept =
        let none_sealed = encrypt-none (c.utf8 mnemonic) password first.salt first.iv in
        (
          elim (Bool-cases (lib.validate_mnemonic mnemonic)) [
            | inl valid ↦ rw (valid, none_sealed) refl
            | inr bad ↦ rw bad refl
          ],
          rw (kept, decrypt-none (deserialize c text) password) refl,
        )
