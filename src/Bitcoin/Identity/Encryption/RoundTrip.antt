-- ===== src/Bitcoin/Identity/Encryption/RoundTrip.antt =====
-- What is encrypted and serialised can be read again.
use abundance_protocol.Prelude.{
  ℕ, ◌<◌, ◌≡◌, refl, sym, ap, ◌∙◌, none, inl, inr, Option-cases, some, [], ◌∷◌, ◌++◌, length, arith,
  length-append,
}
use mathlib.Core.List.{append_assoc}
use abundance_protocol.Prelude.Slices.{drop, slice, slice-append_at, drop-append_at}
use abundance_protocol.Bitcoin.Identity.{Text, Bytes, EncryptedData}
use abundance_protocol.Bitcoin.Identity.Encryption.{
  Cipher, derive_key, encrypt, decrypt, serialize, deserialize, version_byte,
}

-- What the program relies on: what was sealed opens under the same key and vector, a tag has 16 bytes, and
-- the encodings are undone by their inverses. What is not empty is not encoded as the empty text.
pub record IsCipher (c : Cipher) : Type 0 where
  pub opens :
      (key iv data' : Bytes)
      → c.unseal key iv (c.seal key iv data').1 (c.seal key iv data').0 ≡ some data'
  pub tagged : (key iv data' : Bytes) → length (c.seal key iv data').1 ≡ 16
  pub decoded : (bytes : Bytes) → c.from_base64 (c.base64 bytes) ≡ bytes
  pub read : (text : Text) → c.from_utf8 (c.utf8 text) ≡ text
  pub shown : (b : ℕ) (bs : Bytes) → 0 < length (c.base64 (b ∷ bs))

-- The parts of a buffer of five parts.
module _ (v : ℕ) (salt iv tag rest : Bytes) (salted : length salt ≡ 32) (ived : length iv ≡ 16)
    (tagged : length tag ≡ 16) where
  abbrev whole : Bytes
  whole = (v ∷ []) ++ (salt ++ (iv ++ (tag ++ rest)))

  part_salt : slice 1 33 whole ≡ salt
  part_salt = slice-append_at (v ∷ []) salt (iv ++ (tag ++ rest)) 1 33 refl (omega arith)

  part_iv : slice 33 49 whole ≡ iv
  part_iv = slice-append_at (v ∷ salt) iv (tag ++ rest) 33 49 (omega arith) (omega arith)

  part_tag : slice 49 65 whole ≡ tag
  part_tag =
      ap (λ r. slice 49 65 (v ∷ r)) (sym (append_assoc salt iv (tag ++ rest)))
      ∙ slice-append_at (v ∷ (salt ++ iv)) tag rest 49 65 (omega (arith, length-append salt iv))
          (omega arith)

  part_rest : drop 65 whole ≡ rest
  part_rest =
      ap (λ r. drop 64 r)
        (ap (λ r. salt ++ r) (sym (append_assoc iv tag rest))
          ∙ sym (append_assoc salt (iv ++ tag) rest))
      ∙ drop-append_at (v ∷ (salt ++ (iv ++ tag))) rest 65
          (omega (arith, length-append salt (iv ++ tag), length-append iv tag))

module _ (c : Cipher) (laws : IsCipher c) where
  -- Serialisation loses nothing: what deserialize makes of it is what was serialised, where the salt has
  -- 32 bytes, the vector and the tag 16 each, and the version fits a byte.
  pub deserialize-serialize :
      (e : EncryptedData) {v : ℕ}
      → length e.salt ≡ 32
      → length e.iv ≡ 16
      → length e.tag ≡ 16
      → e.version ≡ some v
      → v < 256
      → deserialize c (serialize c e) ≡ e
  unfolding deserialize serialize
  deserialize-serialize e {v} salted ived tagged versioned fits =
      let byte : version_byte e.version ≡ v = ground arith in
      rw (laws.decoded, byte)
        (λ i. record {
          ciphertext = part_rest v e.salt e.iv e.tag e.ciphertext salted ived tagged i;
          iv = part_iv v e.salt e.iv e.tag e.ciphertext salted ived tagged i;
          salt = part_salt v e.salt e.iv e.tag e.ciphertext salted ived tagged i;
          tag = part_tag v e.salt e.iv e.tag e.ciphertext salted ived tagged i;
          version = sym versioned i;
        })

  pub serialize-shown : (e : EncryptedData) → 0 < length (serialize c e)
  unfolding serialize
  serialize-shown e = laws.shown _ _

  -- A serialised text is decrypted by the password that it was encrypted with, where the key is derived.
  pub decrypt-encrypt :
      (data' : Bytes) (password : Text) (salt iv : Bytes) {e : EncryptedData}
      → length salt ≡ 32
      → length iv ≡ 16
      → encrypt c data' password salt iv ≡ some e
      → decrypt c (deserialize c (serialize c e)) password ≡ some data'
  unfolding encrypt decrypt
  decrypt-encrypt data' password salt iv {e} salted ived made =
      elim (Option-cases (derive_key c password salt)) [
        | inl missing ↦ let made' : none ≡ some e = rw (missing, encrypt) at made in cc
        | inr (key, derived) ↦
            let (ciphertext, tag) = c.seal key iv data' in
            let sealed : EncryptedData = record {
              ciphertext = (c.seal key iv data').0;
              iv = iv;
              salt = salt;
              tag = (c.seal key iv data').1;
              version = some 1;
            } in
            let made' : some sealed ≡ some e = rw (derived, encrypt) at made in
            let same : sealed ≡ e = cc in
            let kept : deserialize c (serialize c sealed) ≡ sealed =
              deserialize-serialize sealed {v = 1} salted ived (laws.tagged key iv data') refl
                (omega arith) in
            rw (← same, kept) (rw (derived, decrypt) (laws.opens key iv data'))
      ]
