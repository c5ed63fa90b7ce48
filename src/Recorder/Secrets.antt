-- ===== src/Recorder/Secrets.antt =====
-- crates/jkr-session-recorder/src/scrub.rs: what becomes of the lines that show a secret.
use tkr.Prelude.{
  ℕ, ◌+◌, ◌≡◌, refl, sym, ap, subst, ◌∙◌, Bool, true, ◌⊎◌, inl, inr, ◌≢◌, none, some, ◌++◌, Text,
  codes, any, length, take, drop, leb, contains, to_ascii_lowercase, text_eq, arith,
}
use tkr.Recorder.Scrub.{
  redacted, scrub_line, has_aws_key, has_key, has_bearer, has_env_value, key_prefixes, env_markers,
  is_key_char, is_bearer_char, is_value_char, find_from, count_while, count_of, or_else,
}
use tkr.Recorder.Reasons.{IsMatched-reasons, IsMatched-cases}
use tkr.Recorder.Shown.{IsMatched-ShowsSecret}
use tkr.Recorder.Shapes.{
  IsMatched, openssh, HasPart, HasToken, HasValue, ShowsSecret, redactions, is_id_char, pem,
  access_key, temporary_key, api_key, bearer, lower_bearer, upper_bearer, variable,
}
use tkr.Recorder.Found.{
  find_from-first, find_from-missing, contains-part, drop-front, take-token, count_while-token,
  count_of-token, lowercase-append, length-lowercase, any-listed,
}

HasPart-contains : (pattern line : Text) → HasPart pattern line → contains line pattern ≡ true
HasPart-contains pattern line h =
    ap (λ l. contains l pattern) h.split ∙ contains-part h.front pattern h.behind

module _ {pattern line : Text} {size : ℕ} {accepts : ℕ → Bool} where
  -- The search finds the token's pattern, and the token follows.
  HasToken-found :
      (h : HasToken pattern size accepts line) → find_from 0 line pattern ≡ some (length h.front)
  HasToken-found h =
      ap (λ l. find_from 0 l pattern) h.split
      ∙ find_from-first 0 h.front pattern (h.token ++ h.behind) h.is_first
      ∙ ap some (let e : 0 + length h.front ≡ length h.front = omega arith in e)

  HasToken-behind :
      (h : HasToken pattern size accepts line)
      → drop (length h.front + length pattern) line ≡ h.token ++ h.behind
  HasToken-behind h =
      ap (drop (length h.front + length pattern)) h.split
      ∙ drop-front h.front pattern (h.token ++ h.behind)

  HasToken-count :
      (h : HasToken pattern size accepts line)
      → leb size (count_while accepts (drop (length h.front + length pattern) line)) ≡ true
  HasToken-count h =
      rw (HasToken-behind h)
        (ground (arith, h.long, count_while-token accepts h.token h.behind h.accepted))

HasToken-has_key :
    (prefix line : Text) → HasToken prefix 16 is_key_char line → has_key line prefix ≡ true
unfolding has_key
HasToken-has_key prefix line h = rw (has_key, HasToken-found h) (HasToken-count h)

-- The token is all that the bearer's test reads.
HasToken-has_bearer :
    (pattern line : Text) (h : HasToken pattern 16 is_bearer_char line)
    → length pattern ≡ 7
    → or_else
        (or_else (find_from 0 line (codes "Bearer ")) (find_from 0 line (codes "bearer ")))
        (find_from 0 line (codes "BEARER "))
      ≡ some (length h.front)
    → has_bearer line ≡ true
unfolding has_bearer
HasToken-has_bearer pattern line h size found =
    rw (has_bearer, found)
      (subst (λ n. leb 16 (count_while is_bearer_char (drop (length h.front + n) line)) ≡ true) size
        (HasToken-count h))

HasToken-has_aws_key :
    (pattern line : Text) (h : HasToken pattern 16 is_id_char line)
    → length pattern ≡ 4
    → or_else (find_from 0 line (codes "AKIA")) (find_from 0 line (codes "ASIA"))
      ≡ some (length h.front)
    → has_aws_key line ≡ true
unfolding has_aws_key
HasToken-has_aws_key pattern line h size found =
    let token : take 16 (drop (length h.front + 4) line) ≡ h.token =
      ap (take 16) (ap (λ n. drop (length h.front + n) line) (sym size) ∙ HasToken-behind h)
      ∙ ap (λ n. take n (h.token ++ h.behind)) (sym h.long)
      ∙ take-token h.token h.behind in
    let count : count_of is_id_char h.token ≡ 16 =
      count_of-token is_id_char h.token h.accepted ∙ h.long in
    rw (has_aws_key, found, token, count) refl

HasValue-has_env_value :
    (marker line : Text) → HasValue marker line → has_env_value line marker ≡ true
unfolding has_env_value
HasValue-has_env_value marker line h =
    let behind = h.val ++ h.behind in
    let lower : to_ascii_lowercase line
        ≡ to_ascii_lowercase h.front ++ (marker ++ to_ascii_lowercase behind) =
      ap to_ascii_lowercase h.split
      ∙ lowercase-append h.front (h.name ++ behind)
      ∙ ap (λ s. to_ascii_lowercase h.front ++ s) (lowercase-append h.name behind)
      ∙ ap (λ m. to_ascii_lowercase h.front ++ (m ++ to_ascii_lowercase behind)) h.named in
    let found : find_from 0 (to_ascii_lowercase line) marker ≡ some (length h.front) =
      ap (λ l. find_from 0 l marker) lower
      ∙ find_from-first 0 (to_ascii_lowercase h.front) marker (to_ascii_lowercase behind) h.is_first
      ∙ ap some (
          let e : 0 + length (to_ascii_lowercase h.front) ≡ length h.front =
            omega (arith, length-lowercase h.front) in
          e) in
    let size : length marker ≡ length h.name = ap length (sym h.named) ∙ length-lowercase h.name in
    let rest : drop (length h.front + length marker) line ≡ behind =
      ap (λ n. drop (length h.front + n) line) size
      ∙ ap (drop (length h.front + length h.name)) h.split
      ∙ drop-front h.front h.name behind in
    rw (has_env_value, found, rest)
      (ground (arith, h.long, count_while-token is_value_char h.val h.behind h.accepted))

ShowsSecret-IsMatched : (line : Text) → ShowsSecret line → IsMatched line
unfolding IsMatched
ShowsSecret-IsMatched line (pem begin_part key_part) =
    inl (rw (HasPart-contains _ line begin_part, HasPart-contains _ line key_part) refl)
ShowsSecret-IsMatched line (openssh part) = inr (inl (HasPart-contains _ line part))
ShowsSecret-IsMatched line (access_key h) = inr (
    inr (
      inl (
        HasToken-has_aws_key _ line h refl
          (ap (λ o. or_else o (find_from 0 line (codes "ASIA"))) (HasToken-found h)))))
ShowsSecret-IsMatched line (temporary_key missing h) = inr (
    inr (
      inl (
        HasToken-has_aws_key _ line h refl
          (rw (find_from-missing 0 line (codes "AKIA") missing) (HasToken-found h)))))
ShowsSecret-IsMatched line (api_key prefix listed h) = inr (
    inr (
      inr (
        inl (
          any-listed (λ p. has_key line p) prefix key_prefixes listed
            (HasToken-has_key prefix line h)))))
ShowsSecret-IsMatched line (bearer h) =
    inr (inr (inr (inr (inl (HasToken-has_bearer _ line h refl (rw (HasToken-found h) refl))))))
ShowsSecret-IsMatched line (lower_bearer missing h) = inr (
    inr (
      inr (
        inr (
          inl (
            HasToken-has_bearer _ line h refl
              (rw (find_from-missing 0 line (codes "Bearer ") missing, HasToken-found h) refl))))))
ShowsSecret-IsMatched line (upper_bearer missing none_lower h) = inr (
    inr (
      inr (
        inr (
          inl (
            HasToken-has_bearer _ line h refl (
              rw
                (
                  find_from-missing 0 line (codes "Bearer ") missing,
                  find_from-missing 0 line (codes "bearer ") none_lower,
                )
                (HasToken-found h)))))))
ShowsSecret-IsMatched line (variable marker listed h) = inr (
    inr (
      inr (
        inr (
          inr (
            any-listed (λ m. has_env_value line m) marker env_markers listed
              (HasValue-has_env_value marker line h))))))

-- Every line either shows a secret, which is the head of a private key, or an access key, an API
-- key, a bearer token or the value of a variable at the first occurrence of what marks it, and then
-- it is replaced by one of the six fixed texts; or it shows none, and then it stays as it is.
pub scrub_line-ShowsSecret :
    (line : Text)
    → (ShowsSecret line × (any (text_eq (scrub_line line)) redactions ≡ true))
      ⊎ ((¬ ShowsSecret line) × (scrub_line line ≡ line))
unfolding scrub_line redacted
scrub_line-ShowsSecret line = elim (IsMatched-cases line) [
  | inl matched ↦ inl (
    IsMatched-ShowsSecret line matched,
    IsMatched-reasons (λ o. any (text_eq (redacted line o)) redactions ≡ true) line refl refl refl
        refl refl refl matched,
  )
  | inr e ↦ inr (
    λ shown.
        IsMatched-reasons (λ o. o ≢ none) line some_reason some_reason some_reason some_reason
          some_reason some_reason (ShowsSecret-IsMatched line shown) e,
    ap (redacted line) e,
  )
]
  where
    some_reason : {why : Text} → some why ≢ none
    some_reason h = absurd (ground (arith, h))
