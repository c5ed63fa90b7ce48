-- ===== src/Samples.antt =====
-- Small instances of the parameters, for the examples of the child modules.
pub mod Regexes
pub mod Json
pub mod FilterExamples
pub mod StreamExamples
pub mod MeshExamples
pub mod BrokerExamples
pub mod AuditExamples
pub mod SandboxExamples
pub mod RecorderExamples
pub mod AgentExamples
pub mod HostExamples
pub mod VaultExamples
use tkr.Prelude.{
  ℕ, zero, suc, ◌+◌, ◌<◌, ◌≡◌, refl, Bool, true, false, Option, none, some, List, [], ◌∷◌, ◌++◌,
  Text, length, drop, All, leb, arith,
}
use tkr.Filter.Apply.Words.{CaseApi}
use tkr.Mesh.Bytes.{Bytes}
use tkr.Mesh.Crypto.{CryptoApi, CryptoLaws, IsByte}

-- ASCII letters.
abbrev pub ascii_case : CaseApi
ascii_case = record {
  is_alphabetic = λ c. leb b'A' c;
  is_uppercase = λ c. leb c b'Z';
  char_to_uppercase = λ c. c ∷ [];
  to_uppercase = λ s. s;
  to_lowercase = λ s. s;
}

abbrev pub filled : ℕ → Bytes
filled zero = []
filled (suc n) = 0 ∷ filled n

-- Two keys; a signature begins with the byte of its key.
abbrev pub key_byte : Bool → ℕ
key_byte true = 1
key_byte false = 2

abbrev pub sign : Bool → Bytes
sign key = key_byte key ∷ filled 63

abbrev pub recover : Bytes → Option Bytes
recover [] = none
recover (b ∷ _) = some (4 ∷ b ∷ [])

abbrev pub toy_crypto : CryptoApi
toy_crypto = record {
  SigningKey = Bool;
  encoded_point = λ key. 4 ∷ key_byte key ∷ [];
  sign_prehash = λ key digest. (sign key, 0);
  recover_from_prehash = λ digest sig recid. recover sig;
  keccak256 = λ bs. filled 12 ++ bs;
  hex_encode = λ bs. bs;
  hex_decode = λ s. some s;
}

sign-length : (key : Bool) → length (sign key) ≡ 64
sign-length true = refl
sign-length false = refl

pub filled-bytes : (n : ℕ) → All IsByte (filled n)
filled-bytes zero = tt
filled-bytes (suc n) = (omega arith, filled-bytes n)

sign-bytes : (key : Bool) → All IsByte (sign key)
sign-bytes true = (omega arith, filled-bytes 63)
sign-bytes false = (omega arith, filled-bytes 63)

pub toy_crypto_laws : CryptoLaws toy_crypto
toy_crypto_laws = record {
  sign_length = λ key digest. sign-length key;
  sign_bytes = λ key digest. sign-bytes key;
  recovery_id = λ key digest. omega arith;
  recover_sign = λ key digest. refl;
  hex_decode_encode = λ bs small. refl;
}
