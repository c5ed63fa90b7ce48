-- ===== src/Samples/VaultExamples.antt =====
-- The theorems on crates/jkr/src/host/vault with a cipher that leaves a text as it is.
use tkr.Prelude.{◌≡◌, refl, none, some, [], codes, StdResult, ok, sym}
use tkr.Mesh.Bytes.{Bytes}
use tkr.Vault.Seal.{SensitivityClass, subkey}
use tkr.Vault.Codec.{CodecApi, CodecLaws}
use tkr.Vault.{VaultError, HostVault, write, read}
use tkr.Vault.Stored.{read-write}
use tkr.Samples.{filled}
use tkr.Samples.Json.{toy_json}

abbrev toy_codec : CodecApi
toy_codec = record {
  aead_encrypt = λ key nonce plain. some plain;
  aead_decrypt = λ key nonce body. some body;
  decrypt_legacy_age = λ key body. none;
  hkdf = λ master info. info;
}

toy_codec_laws : CodecLaws toy_codec
toy_codec_laws = record { aead_sound = λ key nonce plain body made. sym made }

abbrev vault : HostVault
vault = record {
  sm = record {
    master = filled 32;
    pub_key = some (codes "jkr.vault.subkey.public");
    priv_key = none;
    sec_key = none;
  };
  store = [];
  audit = none;
}

abbrev nonce : Bytes
nonce = filled 24

abbrev written : StdResult (Unit {0}) VaultError × HostVault
written =
    write toy_codec toy_json SensitivityClass.public (codes "k") (codes "v") (codes "demo") nonce 7
      vault

key_at_hand : subkey SensitivityClass.public vault.sm ≡ some (codes "jkr.vault.subkey.public")
unfolding subkey
key_at_hand = refl

read-write_example :
    (written.0 ≡ ok tt)
    × ((read toy_codec toy_json SensitivityClass.public (codes "k") (codes "demo") 9 written.1).0
        ≡ ok (some (codes "v")))
    × ((read toy_codec toy_json SensitivityClass.public (codes "l") (codes "demo") 9 written.1).0
        ≡ (read toy_codec toy_json SensitivityClass.public (codes "l") (codes "demo") 9 vault).0)
read-write_example =
    read-write toy_codec toy_json toy_codec_laws SensitivityClass.public (codes "k") (codes "v")
      (codes "demo") nonce 7 vault (codes "jkr.vault.subkey.public") (codes "v")
      SensitivityClass.public (codes "l") (codes "demo") 9 key_at_hand refl refl refl
