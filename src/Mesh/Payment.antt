-- ===== src/Mesh/Payment.antt =====
-- crates/jkr-mesh/src/payment.rs: receipts that authorise a payout.
use tkr.Prelude.{
  ℕ, zero, suc, ◌+◌, ◌%◌, ◌/◌, ◌<◌, ◌≡◌, refl, ap, ◌∙◌, Bool, true, false, ◌&&◌, [], ◌∷◌, ◌++◌,
  Text, codes, All, all, length, decimal, digits_before, value_from, value_from-decimal,
  is_ascii_digit, ltb, ◌==◌, if◌then◌else◌, if_cases, arith,
}
use tkr.Mesh.Bytes.{Bytes, Error, Result, ok, err, ◌>>=◌, ◌>>◌, checked, to_be_bytes, zeros}
use tkr.Mesh.Crypto
use tkr.Mesh.Crypto.{
  CryptoApi, CryptoLaws, IsByte, parse_hex, print_hex, parse_hex-print_hex, signature_of,
  require_signer, require_signer_iff, check_signer-signature_of,
}
use tkr.Mesh.Invite.{address_padded}

pub record EscrowDomain : Type 0 where
  pub chain_id : ℕ
  pub verifying_contract : Bytes

pub record Receipt : Type 0 where
  pub session_id : Text
  pub cumulative : Text
  pub domain : EscrowDomain
  pub signature : Text

-- `u256_be` of a 128-bit number.
unfoldable pub u256_of_u128 : ℕ → Bytes
unfolding zeros to_be_bytes
u256_of_u128 n = zeros 16 ++ to_be_bytes 16 n

abbrev pub u128_bound : ℕ
u128_bound = 340282366920938463463374607431768211456

unfoldable pub without_plus : Text → Text
without_plus [] = []
without_plus (c ∷ cs) = if c == b'+' then cs else c ∷ cs

abbrev pub nonempty : Text → Bool
nonempty [] = false
nonempty (_ ∷ _) = true

-- `str::parse` to a `u128`: digits behind an optional plus sign, and no overflow.
unfoldable pub parse_digits : Text → Result ℕ
unfolding is_ascii_digit value_from
parse_digits digits =
    if nonempty digits && all is_ascii_digit digits && ltb (value_from 0 digits) u128_bound
    then ok (value_from 0 digits)
    else err Error.encoding

unfoldable pub parse_u128 : Text → Result ℕ
unfolding parse_digits without_plus
parse_u128 s = parse_digits (without_plus s)

module _ (api : CryptoApi) where
  open api use {SigningKey}

  unfoldable pub separator : EscrowDomain → Bytes
  unfolding u256_of_u128 address_padded
  separator domain = api.keccak256 (
      api.keccak256
        (codes "EIP712Domain(string name,string version,uint256 chainId,address verifyingContract)")
      ++ api.keccak256 (codes "jkr-mesh")
      ++ api.keccak256 (codes "1")
      ++ u256_of_u128 domain.chain_id
      ++ address_padded domain.verifying_contract)

  unfoldable pub receipt_struct_hash : Bytes → ℕ → Bytes
  unfolding u256_of_u128
  receipt_struct_hash session_id cumulative = api.keccak256 (
      api.keccak256 (codes "Receipt(bytes32 sessionId,uint256 cumulative)")
      ++ session_id
      ++ u256_of_u128 cumulative)

  unfoldable pub digest_internal : EscrowDomain → Bytes → ℕ → Bytes
  unfolding separator receipt_struct_hash
  digest_internal domain session_id cumulative =
      api.keccak256
        (0x19 ∷ 0x01 ∷ [] ++ separator domain ++ receipt_struct_hash session_id cumulative)

  -- `Receipt::issue`
  unfoldable pub issue : SigningKey → Bytes → ℕ → EscrowDomain → Receipt
  unfolding digest_internal decimal
  issue payer session_id cumulative domain = record {
    session_id = print_hex api session_id;
    cumulative = decimal cumulative;
    domain = domain;
    signature = signature_of api payer (digest_internal domain session_id cumulative);
  }

  unfoldable pub parse_session_id : Text → Result Bytes
  parse_session_id s = parse_hex api 32 s

  -- `Receipt::digest`
  unfoldable pub digest : Receipt → Result Bytes
  unfolding parse_session_id parse_u128 digest_internal
  digest receipt = do
    session_id ← parse_session_id receipt.session_id
    cumulative ← parse_u128 receipt.cumulative
    ok (digest_internal receipt.domain session_id cumulative)

  -- `Receipt::verify`
  unfoldable pub verify : Receipt → Bytes → Result (Bytes × ℕ)
  unfolding parse_session_id parse_u128 digest_internal
  verify receipt expected_payer = do
    session_id ← parse_session_id receipt.session_id
    cumulative ← parse_u128 receipt.cumulative
    require_signer api (digest_internal receipt.domain session_id cumulative) receipt.signature
        expected_payer
    ok (session_id, cumulative)

digits_before-all :
    (fuel n : ℕ) (acc : Text)
    → all is_ascii_digit acc ≡ true
    → all is_ascii_digit (digits_before fuel n acc) ≡ true
unfolding digits_before is_ascii_digit
digits_before-all zero n acc h = h
digits_before-all (suc fuel) n acc h =
    let acc' : Text = (48 + n % 10) ∷ acc in
    let digit : all is_ascii_digit acc' ≡ true = ground (arith, h) in
    if_cases (λ (t : Text). all is_ascii_digit t ≡ true) (ltb n 10) acc'
      (digits_before fuel (n / 10) acc') (λ _. digit)
      (λ _. digits_before-all fuel (n / 10) acc' digit)

digits_before-nonempty :
    (fuel n : ℕ) (acc : Text) → nonempty acc ≡ true → nonempty (digits_before fuel n acc) ≡ true
unfolding digits_before
digits_before-nonempty zero n acc h = h
digits_before-nonempty (suc fuel) n acc h =
    if_cases (λ (t : Text). nonempty t ≡ true) (ltb n 10) ((48 + n % 10) ∷ acc)
      (digits_before fuel (n / 10) ((48 + n % 10) ∷ acc)) (λ _. refl)
      (λ _. digits_before-nonempty fuel (n / 10) ((48 + n % 10) ∷ acc) refl)

digits_before-some :
    (fuel n : ℕ) (acc : Text) → 0 < fuel → nonempty (digits_before fuel n acc) ≡ true
unfolding digits_before
digits_before-some zero n acc h = absurd (omega arith)
digits_before-some (suc fuel) n acc h =
    if_cases (λ (t : Text). nonempty t ≡ true) (ltb n 10) ((48 + n % 10) ∷ acc)
      (digits_before fuel (n / 10) ((48 + n % 10) ∷ acc)) (λ _. refl)
      (λ _. digits_before-nonempty fuel (n / 10) ((48 + n % 10) ∷ acc) refl)

parse_digits-value :
    (digits : Text) (n : ℕ)
    → nonempty digits ≡ true
    → all is_ascii_digit digits ≡ true
    → value_from 0 digits ≡ n
    → n < u128_bound
    → parse_digits digits ≡ ok n
unfolding parse_digits
parse_digits-value digits n some_digits all_digits value h =
    let small : ltb n u128_bound ≡ true = ground (arith, h) in
    rw (some_digits, all_digits, value, small) refl

without_plus-digits : (s : Text) → all is_ascii_digit s ≡ true → without_plus s ≡ s
unfolding without_plus is_ascii_digit
without_plus-digits [] h = refl
without_plus-digits (c ∷ cs) h =
    let plain : (c == b'+') ≡ false = ground (arith, h) in rw plain refl

-- A 128-bit number is parsed back from its decimal digits.
parse_u128-decimal : (n : ℕ) → n < u128_bound → parse_u128 (decimal n) ≡ ok n
unfolding parse_u128 decimal
parse_u128-decimal n h =
    let digits = digits_before (n + 1) n [] in
    let all_digits = digits_before-all (n + 1) n [] refl in
    ap parse_digits (without_plus-digits digits all_digits)
    ∙ parse_digits-value digits n (digits_before-some (n + 1) n [] (omega arith)) all_digits
        (value_from-decimal n) h

module _ (api : CryptoApi) (laws : CryptoLaws api) where
  open api use {SigningKey}

  require_signer-signature_of :
      (payer : SigningKey) (message : Bytes)
      → require_signer api message
          (signature_of api payer message)
          (tkr.Mesh.Crypto.address api payer)
        ≡ ok checked
  require_signer-signature_of payer message =
      (require_signer_iff api message (signature_of api payer message)
          (tkr.Mesh.Crypto.address api payer)).1
        (check_signer-signature_of api laws payer message)

  -- A receipt that a payer issues for a session of 32 bytes and a total below 2 ^ 128 verifies
  -- against the payer's address, and the session and the total come back.
  pub verify-receipt_issue :
      (payer : SigningKey) (session_id : Bytes) (cumulative : ℕ) (domain : EscrowDomain)
      → All IsByte session_id
      → length session_id ≡ 32
      → cumulative < u128_bound
      → verify api
          (issue api payer session_id cumulative domain)
          (tkr.Mesh.Crypto.address api payer)
        ≡ ok (session_id, cumulative)
  unfolding verify issue parse_session_id
  verify-receipt_issue payer session_id cumulative domain small same fits =
      rw
        (
          parse_hex-print_hex api laws 32 session_id small same,
          parse_u128-decimal cumulative fits,
          require_signer-signature_of payer (digest_internal api domain session_id cumulative),
        )
        refl
