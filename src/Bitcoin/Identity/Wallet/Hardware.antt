-- ===== src/Bitcoin/Identity/Wallet/Hardware.antt =====
-- Hardware wallets (src/bitcoin/identity-hardened.ts: HardwareWalletIntegration, createHardwareWallet).
use abundance_protocol.Prelude.{
  Option, none, some, Bool, true, false, List, [], ◌∷◌, ℕ, if◌then◌else◌,
}
use abundance_protocol.Prelude.Text.{codes}
use abundance_protocol.Result.{Result, ok, err}
use abundance_protocol.Bitcoin.Identity.{
  Text, HardwareWalletType, trezor, ledger, coldcard, bitbox, HardwareWalletStub, SecureWallet,
  is_text,
}
use abundance_protocol.Bitcoin.Identity.Wallet.{WalletError, no_device, HardenedWallet, set_wallet}

-- The environment: BITCOIN_DEBUG_HW.
unfoldable pub detect_devices : Option Text → List HardwareWalletStub
detect_devices debug =
    if is_text debug (codes "1")
    then record {
      type = trezor;
      connected = true;
      model = codes "Trezor Model T";
      firmware_version = codes "2.6.0";
      path_prefix = codes "m/86'/0'/0'";
    }
      ∷ record {
        type = ledger;
        connected = true;
        model = codes "Ledger Nano S Plus";
        firmware_version = codes "1.1.0";
        path_prefix = codes "m/86'/0'/0'";
      }
      ∷ []
    else []

abbrev pub same_type : HardwareWalletType → HardwareWalletType → Bool
same_type trezor trezor = true
same_type ledger ledger = true
same_type coldcard coldcard = true
same_type bitbox bitbox = true
same_type _ _ = false

-- devices.find
unfoldable pub find_device :
    HardwareWalletType → List HardwareWalletStub → Result WalletError HardwareWalletStub
find_device type [] = err no_device
find_device type (d ∷ ds) =
    let rest = find_device type ds in if same_type d.type type then ok d else rest

-- `fingerprint` and `xpub` are drawn at random.
unfoldable pub create_hardware_wallet :
    Option Text
    → HardwareWalletType
    → Text
    → Text
    → ℕ
    → HardenedWallet
    → Result WalletError SecureWallet × HardenedWallet
create_hardware_wallet debug type fingerprint xpub now s =
    elim (find_device type (detect_devices debug)) [
      | err e ↦ (err e, s)
      | ok device ↦
          let wallet : SecureWallet = record {
            fingerprint = fingerprint;
            xpub = xpub;
            xprv_encrypted = none;
            mnemonic_encrypted = none;
            network = s.network;
            created_at = now;
            hardware_wallet = some device;
          } in
          (ok wallet, record s { wallets = set_wallet fingerprint wallet s.wallets })
    ]
