-- ===== src/Stream/Signature/Placeholders.antt =====
-- crates/jkr/src/signature.rs: what a signature looks like.
use tkr.Prelude.{
  ℕ, zero, suc, ◌+◌, ◌≤◌, ◌≡◌, refl, Bool, true, false, not, [], ◌∷◌, ◌++◌, Text, length,
  length-append, length-take, take, all, is_ascii_digit, leb, leb→le, if_cases, arith,
}
use tkr.Stream.Signature.{
  digit_runs_from, replace_digit_runs, truncate_with_ellipsis, signature_of, ellipsis, max_sig_len,
  replace_iso_timestamps, replace_uuids, replace_long_hex, replace_ipv4,
}

-- No ASCII digit.
unfoldable pub HasNoDigit : Text → Type 0
unfolding is_ascii_digit
HasNoDigit s = all (λ c. not (is_ascii_digit c)) s ≡ true

digit_runs_from-HasNoDigit : (inside : Bool) (s : Text) → HasNoDigit (digit_runs_from inside s)
unfolding HasNoDigit digit_runs_from is_ascii_digit
digit_runs_from-HasNoDigit inside [] = refl
digit_runs_from-HasNoDigit inside (c ∷ cs) =
    ground (arith, digit_runs_from-HasNoDigit true cs, digit_runs_from-HasNoDigit false cs)

take-HasNoDigit : (n : ℕ) (s : Text) → HasNoDigit s → HasNoDigit (take n s ++ ellipsis ∷ [])
unfolding HasNoDigit is_ascii_digit
take-HasNoDigit zero s h = refl
take-HasNoDigit (suc n) [] h = refl
take-HasNoDigit (suc n) (c ∷ cs) h =
    let parts : (is_ascii_digit c ≡ false) × (all (λ d. not (is_ascii_digit d)) cs ≡ true) =
      ground arith in
    ground (arith, parts.0, take-HasNoDigit n cs parts.1)

truncate_with_ellipsis-short :
    (s : Text) (max : ℕ)
    → HasNoDigit s
    → HasNoDigit (truncate_with_ellipsis s max) × (length (truncate_with_ellipsis s max) ≤ max + 1)
unfolding truncate_with_ellipsis
truncate_with_ellipsis-short s max h =
    if_cases (λ (t : Text). HasNoDigit t × (length t ≤ max + 1)) (leb (length s) max) s
      (take max s ++ ellipsis ∷ []) (λ short. (h, omega (arith, leb→le (length s) max short)))
      (λ _. (
        take-HasNoDigit max s h,
        omega (arith, length-append (take max s) (ellipsis ∷ []), length-take max s),
      ))

-- The signature of a line, whatever the line, has no ASCII digit and at most 81 characters.
pub signature_of-short :
    (line : Text) → HasNoDigit (signature_of line) × (length (signature_of line) ≤ 81)
unfolding signature_of replace_digit_runs
signature_of-short line =
    truncate_with_ellipsis-short
      (replace_digit_runs
        (replace_ipv4 (replace_long_hex (replace_uuids (replace_iso_timestamps line)))))
      max_sig_len
      (digit_runs_from-HasNoDigit false
        (replace_ipv4 (replace_long_hex (replace_uuids (replace_iso_timestamps line)))))
