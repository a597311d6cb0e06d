-- ===== src/Security/Lightning/Treasury/Threshold.antt =====
-- What becomes of a proposal that enough signers sign.
use abundance_protocol.Prelude.{ℕ, ◌≡◌, false, [], ◌∷◌, includes}
use abundance_protocol.Dict.{Dict, insert}
use abundance_protocol.Security.Lightning.{Text, LightningHardening}
use abundance_protocol.Security.Lightning.Treasury.{add_signature}
use abundance_protocol.Security.Lightning.Treasury.Signed.{keys}

-- One call of addSignature after the other.
abbrev pub sign_all : ℕ → Dict Text → LightningHardening → LightningHardening
sign_all tx_id [] s = s
sign_all tx_id ((signer, signature) ∷ m) s =
    sign_all tx_id m (add_signature tx_id signer signature s).1

-- The signatures of a transaction after them.
insert_all : Dict Text → Dict Text → Dict Text
insert_all [] m = m
insert_all ((k, v) ∷ xs) m = insert_all xs (insert k v m)

-- No key of the first map is one of the second.
abbrev Apart : Dict Text → Dict Text → Type 0
Apart [] m = Unit
Apart ((k, _) ∷ xs) m = (includes k (keys m) ≡ false) × Apart xs m
