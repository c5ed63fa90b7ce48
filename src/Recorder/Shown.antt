-- ===== src/Recorder/Shown.antt =====
-- crates/jkr-session-recorder/src/scrub.rs: each of its tests finds a secret.
use tkr.Prelude.{
  ℕ, ◌+◌, ◌≤◌, ◌≡◌, refl, ap, sym, subst, ◌∙◌, Bool, true, false, inl, inr, some, Option-cases,
  ◌++◌, Text, codes, all, length, take, drop, length-take, take-append-drop, leb, ◌==◌, contains,
  to_ascii_lowercase, arith, ==_iff,
}
use tkr.Recorder.Scrub.{
  has_aws_key, has_key, has_bearer, has_env_value, key_prefixes, env_markers, is_key_char,
  is_bearer_char, is_value_char, find_from, count_while, count_of,
}
use tkr.Recorder.Found.{IsFirst, drop-front, length-lowercase}
use tkr.Recorder.Searched.{
  contains-split, find_from-split, find_from-absent, all-take, count_while-length, count_of-length,
  count_of-all, any-found, lowercase-split,
}
use tkr.Recorder.Shapes.{
  HasPart, HasToken, HasValue, ShowsSecret, IsMatched, is_id_char, pem, openssh, access_key,
  temporary_key, api_key, bearer, lower_bearer, upper_bearer, variable,
}

contains-HasPart : (pattern line : Text) → contains line pattern ≡ true → HasPart pattern line
contains-HasPart pattern line h =
    let (front, behind, e) = contains-split line pattern h in
    record { front = front; behind = behind; split = e }

-- What the search finds and what follows it make a token.
module _ (pattern line : Text) (size : ℕ) (accepts : ℕ → Bool) (i : ℕ) where
  found-HasToken :
      find_from 0 line pattern ≡ some i
      → length (take size (drop (i + length pattern) line)) ≡ size
      → all accepts (take size (drop (i + length pattern) line)) ≡ true
      → HasToken pattern size accepts line
  found-HasToken found long accepted =
      let (front, tail, e, is_first, place) = find_from-split 0 line pattern i found in
      let behind : drop (i + length pattern) line ≡ tail =
        ap (λ n. drop (n + length pattern) line)
          (let p : i ≡ length front = omega (arith, place) in p)
        ∙ ap (drop (length front + length pattern)) e
        ∙ drop-front front pattern tail in
      let whole : take size tail ++ drop size tail ≡ tail = take-append-drop size tail in
      record {
        front = front;
        token = take size tail;
        behind = drop size tail;
        split = e ∙ ap (λ t. front ++ (pattern ++ t)) (sym whole);
        is_first = subst (IsFirst pattern front) (sym whole) is_first;
        long = ap (λ t. length (take size t)) (sym behind) ∙ long;
        accepted = ap (λ t. all accepts (take size t)) (sym behind) ∙ accepted;
      }

  counted-HasToken :
      find_from 0 line pattern ≡ some i
      → leb size (count_while accepts (drop (i + length pattern) line)) ≡ true
      → HasToken pattern size accepts line
  counted-HasToken found count =
      let tail = drop (i + length pattern) line in
      let enough : size ≤ count_while accepts tail = ground (arith, count) in
      found-HasToken found
        (length-take size tail ∙ omega (arith, enough, count_while-length accepts tail))
        (all-take accepts size tail enough)

  tallied-HasToken :
      find_from 0 line pattern ≡ some i
      → count_of accepts (take size (drop (i + length pattern) line)) ≡ size
      → HasToken pattern size accepts line
  tallied-HasToken found count =
      let token = take size (drop (i + length pattern) line) in
      let long : length token ≡ size = omega (
        arith,
        count,
        count_of-length accepts token,
        length-take size (drop (i + length pattern) line),
      ) in
      found-HasToken found long (count_of-all accepts token (omega (arith, count, long)))

has_aws_key-ShowsSecret : (line : Text) → has_aws_key line ≡ true → ShowsSecret line
unfolding has_aws_key
has_aws_key-ShowsSecret line h = elim (Option-cases (find_from 0 line (codes "AKIA"))) [
  | inr (i, found) ↦
      let e : has_aws_key line ≡ (count_of is_id_char (take 16 (drop (i + 4) line)) == 16) =
        rw (has_aws_key, found) refl in
      access_key (tallied-HasToken _ line 16 is_id_char i found ((==_iff _ 16).0 (sym e ∙ h)))
  | inl absent ↦ elim (Option-cases (find_from 0 line (codes "ASIA"))) [
    | inr (i, found) ↦
        let e : has_aws_key line ≡ (count_of is_id_char (take 16 (drop (i + 4) line)) == 16) =
          rw (has_aws_key, absent, found) refl in
        temporary_key (find_from-absent 0 line (codes "AKIA") absent)
          (tallied-HasToken _ line 16 is_id_char i found ((==_iff _ 16).0 (sym e ∙ h)))
    | inl missed ↦
        let e : has_aws_key line ≡ false = rw (has_aws_key, absent, missed) refl in
        absurd (ground (arith, e, h))
  ]
]

has_key-HasToken :
    (prefix line : Text) → has_key line prefix ≡ true → HasToken prefix 16 is_key_char line
unfolding has_key
has_key-HasToken prefix line h = elim (Option-cases (find_from 0 line prefix)) [
  | inr (i, found) ↦
      let e : has_key line prefix
          ≡ leb 16 (count_while is_key_char (drop (i + length prefix) line)) =
        rw (has_key, found) refl in
      counted-HasToken prefix line 16 is_key_char i found (sym e ∙ h)
  | inl missed ↦
      let e : has_key line prefix ≡ false = rw (has_key, missed) refl in
      absurd (ground (arith, e, h))
]

has_bearer-ShowsSecret : (line : Text) → has_bearer line ≡ true → ShowsSecret line
unfolding has_bearer
has_bearer-ShowsSecret line h = elim (Option-cases (find_from 0 line (codes "Bearer "))) [
  | inr (i, found) ↦
      let e : has_bearer line ≡ leb 16 (count_while is_bearer_char (drop (i + 7) line)) =
        rw (has_bearer, found) refl in
      bearer (counted-HasToken _ line 16 is_bearer_char i found (sym e ∙ h))
  | inl absent ↦ elim (Option-cases (find_from 0 line (codes "bearer "))) [
    | inr (i, found) ↦
        let e : has_bearer line ≡ leb 16 (count_while is_bearer_char (drop (i + 7) line)) =
          rw (has_bearer, absent, found) refl in
        lower_bearer (find_from-absent 0 line _ absent)
          (counted-HasToken _ line 16 is_bearer_char i found (sym e ∙ h))
    | inl missing ↦ elim (Option-cases (find_from 0 line (codes "BEARER "))) [
      | inr (i, found) ↦
          let e : has_bearer line ≡ leb 16 (count_while is_bearer_char (drop (i + 7) line)) =
            rw (has_bearer, absent, missing, found) refl in
          upper_bearer (find_from-absent 0 line _ absent) (find_from-absent 0 line _ missing)
            (counted-HasToken _ line 16 is_bearer_char i found (sym e ∙ h))
      | inl missed ↦
          let e : has_bearer line ≡ false = rw (has_bearer, absent, missing, missed) refl in
          absurd (ground (arith, e, h))
    ]
  ]
]

-- The name and the value stand in the line where the marker stands in lower case.
found-HasValue :
    (marker line : Text) (i : ℕ)
    → find_from 0 (to_ascii_lowercase line) marker ≡ some i
    → leb 8 (count_while is_value_char (drop (i + length marker) line)) ≡ true
    → HasValue marker line
found-HasValue marker line i found count =
    let (low_front, low_behind, low, is_first, place) =
      find_from-split 0 (to_ascii_lowercase line) marker i found in
    let (front, rest, split, low_f, low_r) =
      lowercase-split line low_front (marker ++ low_behind) low in
    let (name, tail, split', named, low_t) = lowercase-split rest marker low_behind low_r in
    let all_of : line ≡ front ++ (name ++ tail) = split ∙ ap (λ r. front ++ r) split' in
    let at : i + length marker ≡ length front + length name = omega (
      arith,
      place,
      length-lowercase front,
      ap length low_f,
      length-lowercase name,
      ap length named,
    ) in
    let behind : drop (i + length marker) line ≡ tail =
      ap (λ n. drop n line) at
      ∙ ap (drop (length front + length name)) all_of
      ∙ drop-front front name tail in
    let enough : 8 ≤ count_while is_value_char tail =
      subst (λ t. 8 ≤ count_while is_value_char t) behind (ground (arith, count)) in
    let whole : take 8 tail ++ drop 8 tail ≡ tail = take-append-drop 8 tail in
    record {
      front = front;
      name = name;
      val = take 8 tail;
      behind = drop 8 tail;
      split = all_of ∙ ap (λ t. front ++ (name ++ t)) (sym whole);
      named = named;
      is_first =
          subst (λ f. IsFirst marker f (to_ascii_lowercase (take 8 tail ++ drop 8 tail)))
            (sym low_f)
            (subst (IsFirst marker low_front) (sym (ap to_ascii_lowercase whole ∙ low_t)) is_first);
      long = length-take 8 tail ∙ omega (arith, enough, count_while-length is_value_char tail);
      accepted = all-take is_value_char 8 tail enough;
    }

has_env_value-HasValue :
    (marker line : Text) → has_env_value line marker ≡ true → HasValue marker line
unfolding has_env_value
has_env_value-HasValue marker line h =
    elim (Option-cases (find_from 0 (to_ascii_lowercase line) marker)) [
      | inr (i, found) ↦
          let e : has_env_value line marker
              ≡ leb 8 (count_while is_value_char (drop (i + length marker) line)) =
            rw (has_env_value, found) refl in
          found-HasValue marker line i found (sym e ∙ h)
      | inl missed ↦
          let e : has_env_value line marker ≡ false = rw (has_env_value, missed) refl in
          absurd (ground (arith, e, h))
    ]

pub IsMatched-ShowsSecret : (line : Text) → IsMatched line → ShowsSecret line
unfolding IsMatched
IsMatched-ShowsSecret line (inl h) =
    pem (contains-HasPart _ line (ground (arith, h))) (contains-HasPart _ line (ground (arith, h)))
IsMatched-ShowsSecret line (inr (inl h)) = openssh (contains-HasPart _ line h)
IsMatched-ShowsSecret line (inr (inr (inl h))) = has_aws_key-ShowsSecret line h
IsMatched-ShowsSecret line (inr (inr (inr (inl h)))) =
    let (prefix, listed, holds) = any-found (λ p. has_key line p) key_prefixes h in
    api_key prefix listed (has_key-HasToken prefix line holds)
IsMatched-ShowsSecret line (inr (inr (inr (inr (inl h))))) = has_bearer-ShowsSecret line h
IsMatched-ShowsSecret line (inr (inr (inr (inr (inr h))))) =
    let (marker, listed, holds) = any-found (λ m. has_env_value line m) env_markers h in
    variable marker listed (has_env_value-HasValue marker line holds)
