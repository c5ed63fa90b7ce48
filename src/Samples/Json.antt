-- ===== src/Samples/Json.antt =====
-- A line format for the entries of the audit log: a mark, and the fields with an end behind each.
use tkr.Prelude.{
  ℕ, ◌+◌, ◌-◌, ◌≡◌, refl, false, Option, none, some, [], ◌∷◌, Text, is_blank, is_whitespace, ◌==◌,
  if◌then◌else◌, arith,
}
use tkr.Lines.{IsLine}
use tkr.Audit.{Entry, JsonApi}
use tkr.Audit.Chain.{JsonLaws}

abbrev pub mark : ℕ
mark = 0x4000

abbrev pub field : Text → Text → Text
field [] rest = mark ∷ rest
field (c ∷ cs) rest = (c + 0x4001) ∷ field cs rest

-- A field, and what is behind it.
abbrev pub read_field : Text → Text × Text
read_field [] = ([], [])
read_field (c ∷ cs) =
    let (field, rest) = read_field cs in
    if c == mark then ([], cs) else ((c - 0x4001) ∷ field, rest)

abbrev pub print : Entry → Text
print e =
    mark
    ∷ field e.prev_hash (
        field e.event.actor
          (field e.event.op (field e.event.key (field (e.event.ts ∷ []) (field e.hash [])))))

abbrev pub number : Text → ℕ
number [] = 0
number (n ∷ _) = n

abbrev pub read : Text → Entry
read s =
    let (prev_hash, s1) = read_field s in
    let (actor, s2) = read_field s1 in
    let (op, s3) = read_field s2 in
    let (key, s4) = read_field s3 in
    let (ts, s5) = read_field s4 in
    record {
      prev_hash = prev_hash;
      event = record { actor = actor; op = op; key = key; ts = number ts };
      hash = (read_field s5).0;
    }

abbrev pub parse : Text → Option Entry
parse [] = none
parse (c ∷ cs) = if c == mark then some (read cs) else none

abbrev pub toy_json : JsonApi
toy_json = record {
  print_entry = print;
  parse_entry = parse;
  event_bytes = λ event. event.actor;
  sha256_hex = λ bytes. bytes;
}

read_field-field : (s rest : Text) → read_field (field s rest) ≡ (s, rest)
read_field-field [] rest = refl
read_field-field (c ∷ cs) rest =
    let back : c + 0x4001 - 0x4001 ≡ c = omega arith in
    let letter : (c + 0x4001 == mark) ≡ false = ground arith in
    rw (letter, back, read_field-field cs rest) refl

field-IsLine : (s rest : Text) → IsLine rest → IsLine (field s rest)
unfolding IsLine
field-IsLine [] rest h = ((refl, refl), h)
field-IsLine (c ∷ cs) rest h = ((ground arith, ground arith), field-IsLine cs rest h)

parse-print : (e : Entry) → parse (print e) ≡ some e
parse-print e =
    let event = e.event in
    let s5 = field e.hash [] in
    let s4 = field (event.ts ∷ []) s5 in
    let s3 = field event.key s4 in
    let s2 = field event.op s3 in
    let s1 = field event.actor s2 in
    rw
      (
        read_field-field e.prev_hash s1,
        read_field-field event.actor s2,
        read_field-field event.op s3,
        read_field-field event.key s4,
        read_field-field (event.ts ∷ []) s5,
        read_field-field e.hash [],
      )
      refl

pub toy_json_laws : JsonLaws toy_json
toy_json_laws = record {
  parse_print = parse-print;
  print_line = λ e.
      unfold IsLine in
      (
        (refl, refl),
        field-IsLine e.prev_hash _ (
            field-IsLine e.event.actor _ (
              field-IsLine e.event.op _ (
                field-IsLine e.event.key _
                  (field-IsLine (e.event.ts ∷ []) _ (field-IsLine e.hash [] tt))))),
      );
  print_visible = λ e. unfold is_blank is_whitespace in refl;
}
