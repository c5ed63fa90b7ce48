-- ===== src/Samples/MeshExamples.antt =====
-- The theorems on crates/jkr-mesh at small inputs.
use tkr.Prelude.{refl, All, ◌≡◌, ◌≤◌, ◌<◌, ◌↔◌, true, false, codes, arith}
use tkr.Mesh.Bytes.{Bytes, ok, checked, as_bytes, abs_diff}
use tkr.Mesh.Crypto.{IsByte, address, check_signer}
use tkr.Mesh.Attestation
use tkr.Mesh.Attestation.{
  JoinAttestation, keccak256_hex, digest_of, verify_with_now_iff, verify_with_now-issue,
}
use tkr.Mesh.Hello
use tkr.Mesh.Hello.{Hello, hello_digest, verify_with_now-hello_iff, verify_with_now-new}
use tkr.Mesh.Invite
use tkr.Mesh.Invite.{Invite, Role, eip712_digest, verify-invite_iff, verify-issue}
use tkr.Mesh.Payment
use tkr.Mesh.Payment.{EscrowDomain, verify-receipt_issue}
use tkr.Samples.{filled, filled-bytes, toy_crypto, toy_crypto_laws}

abbrev att : JoinAttestation
att = tkr.Mesh.Attestation.issue toy_crypto true (codes "mesh") (codes "token") 1000

abbrev hello : Hello
hello = tkr.Mesh.Hello.new toy_crypto true (codes "mesh") (codes "session") 1000

abbrev invite : Invite
invite =
    tkr.Mesh.Invite.issue toy_crypto false (codes "mesh") (codes "slug") (codes "wss://b") 2000
      Role.member

verify_with_now_iff_example :
    (tkr.Mesh.Attestation.verify_with_now toy_crypto att (codes "token") 1500 600 ≡ ok checked) ↔ (
      (att.invite_token_hash ≡ keccak256_hex toy_crypto (as_bytes (codes "token")))
      × (check_signer toy_crypto (digest_of toy_crypto att) att.signature ≡ ok att.address)
      × (abs_diff att.timestamp_ms 1500 ≤ 600))
verify_with_now_iff_example = verify_with_now_iff toy_crypto att (codes "token") 1500 600

verify_with_now-issue_example :
    tkr.Mesh.Attestation.verify_with_now toy_crypto
      (tkr.Mesh.Attestation.issue toy_crypto true (codes "mesh") (codes "token") 1000)
      (codes "token")
      1500
      600
    ≡ ok checked
verify_with_now-issue_example =
    verify_with_now-issue toy_crypto toy_crypto_laws true (codes "mesh") (codes "token") 1000 1500
      600 (omega arith)

verify-invite_iff_example : (tkr.Mesh.Invite.verify toy_crypto invite 1500 ≡ ok checked) ↔ (
    (invite.v ≡ 1)
    × (1500 < invite.expires_at)
    × (check_signer toy_crypto (eip712_digest toy_crypto invite) invite.signature
        ≡ ok invite.owner))
verify-invite_iff_example = verify-invite_iff toy_crypto invite 1500

verify-issue_example :
    tkr.Mesh.Invite.verify toy_crypto
      (tkr.Mesh.Invite.issue toy_crypto false
        (codes "mesh")
        (codes "slug")
        (codes "wss://b")
        2000
        Role.member)
      1500
    ≡ ok checked
verify-issue_example =
    verify-issue toy_crypto toy_crypto_laws false (codes "mesh") (codes "slug") (codes "wss://b")
      2000 1500 Role.member (omega arith)

abbrev session : Bytes
session = filled 32

abbrev escrow : EscrowDomain
escrow = record { chain_id = 8453; verifying_contract = filled 20 }

session-bytes : All IsByte session
session-bytes = filled-bytes 32

verify-receipt_issue_example :
    tkr.Mesh.Payment.verify toy_crypto
      (tkr.Mesh.Payment.issue toy_crypto true session 12345000 escrow)
      (address toy_crypto true)
    ≡ ok (session, 12345000)
verify-receipt_issue_example =
    verify-receipt_issue toy_crypto toy_crypto_laws true session 12345000 escrow session-bytes refl
      (omega arith)
