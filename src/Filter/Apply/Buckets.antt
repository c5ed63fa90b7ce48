-- ===== src/Filter/Apply/Buckets.antt =====
-- What a `GroupByCapture` rule (crates/jkr-filter/src/rules.rs) holds after the lines of a command.
use tkr.Prelude.{
  ℕ, ◌+◌, ◌^◌, ◌≤◌, ◌<◌, ◌≡◌, refl, sym, subst, ap, ◌∙◌, Bool-cases, Option-cases, inl, inr, Option,
  none, some, List, [], ◌∷◌, ◌++◌, append_assoc, append-nil, Text, text_eq, text_eq_iff, length,
  length-append, if_cases, ltb, not, ◌&&◌, u32, arith,
}
use tkr.Filter.Regex.{RegexApi, Captures}
use tkr.Filter.Compiled.{Buckets}
use tkr.Filter.Apply.Groups.{key_of, bucket_of, put_bucket, Grouped, group_line, apply_group}
use tkr.Filter.Apply.Counts.{
  kept_lines, overflow_lines, kept-bucket_of, overflow-bucket_of, Capped, u32_small,
  group_line-counts,
}
use tkr.Filter.Apply.Held.{
  Bucket, IsHeld, of_key, of_key-same, of_key-other, bucket_of-put_bucket,
  bucket_of-put_bucket_other, IsHeld-later, IsHeld-push, IsHeld-over, IsHeld-left,
}
use tkr.Filter.Apply.Keyed.{keyed, keyed_lem}

-- After the matching lines with their keys.
pub record IsGrouped (cap_per_key total_cap : ℕ) (matched : List (Text × Text)) (g : Grouped)
    : Type 0 where
  -- `total_kept` counts the lines in the buckets,
  pub counted : kept_lines g.buckets ≡ g.total_kept
  -- each line is kept, in its bucket's overflow, or in the global overflow,
  pub conserved : g.total_kept + overflow_lines g.buckets + g.global_overflow ≡ length matched
  -- both caps hold,
  pub total : g.total_kept ≤ total_cap
  pub per_key : Capped cap_per_key g.buckets
  -- and each bucket holds what it must of its key's lines.
  pub held :
      (key : Text)
      → IsHeld cap_per_key total_cap g.total_kept (bucket_of key g.buckets) (of_key key matched)

module _ (cap_per_key total_cap : ℕ) (key line : Text) (matched : List (Text × Text)) where
  -- A line changes its own bucket only.
  put_bucket-IsHeld :
      (kept later : ℕ) (b : Bucket) (buckets : Buckets)
      → kept ≤ later
      → ((other : Text)
          → IsHeld cap_per_key total_cap kept (bucket_of other buckets) (of_key other matched))
      → IsHeld cap_per_key total_cap later b (of_key key matched ++ line ∷ [])
      → (other : Text)
      → IsHeld cap_per_key total_cap later
          (bucket_of other (put_bucket key b buckets))
          (of_key other (matched ++ (key, line) ∷ []))
  put_bucket-IsHeld kept later b buckets more h own other = elim (Bool-cases (text_eq key other)) [
    | inl same ↦
        subst
          (λ o.
            IsHeld cap_per_key total_cap later (bucket_of o (put_bucket key b buckets))
              (of_key o (matched ++ (key, line) ∷ [])))
          ((text_eq_iff key other).0 same)
          (rw (bucket_of-put_bucket key b buckets, of_key-same key line matched) own)
    | inr differ ↦
        rw
          (
            bucket_of-put_bucket_other key other b buckets differ,
            of_key-other key other line matched differ,
          )
          (IsHeld-later cap_per_key total_cap later more (h other))
  ]

  module _ (g : Grouped) (small : length matched + 1 < 2 ^ 32) where
    group_line-IsHeld :
        IsGrouped cap_per_key total_cap matched g
        → (other : Text)
        → IsHeld cap_per_key total_cap
            (group_line cap_per_key total_cap key line g).total_kept
            (bucket_of other (group_line cap_per_key total_cap key line g).buckets)
            (of_key other (matched ++ (key, line) ∷ []))
    unfolding group_line
    group_line-IsHeld h =
        let b = bucket_of key g.buckets in
        let few : length b.0 < 2 ^ 32 =
          omega (arith, kept-bucket_of key g.buckets, h.counted, h.conserved) in
        let held_by = λ (g' : Grouped).
          (other : Text)
          → IsHeld cap_per_key total_cap g'.total_kept (bucket_of other g'.buckets)
              (of_key other (matched ++ (key, line) ∷ [])) in
        let own = h.held key in
        let put = λ (later : ℕ) (c : Bucket). put_bucket-IsHeld g.total_kept later c g.buckets in
        let under_per_key = ltb (u32 (length b.0)) cap_per_key in
        let under_total = ltb g.total_kept total_cap in
        if_cases held_by (under_per_key && under_total) _ _
          (λ both. rw (u32_small (g.total_kept + 1) (omega (arith, h.conserved))) (
            put (g.total_kept + 1) (b.0 ++ line ∷ [], b.1) (omega arith) h.held
              (IsHeld-push cap_per_key total_cap line (ground (arith, both, few))
                (ground (arith, both)) own)))
          (λ no.
            if_cases held_by (not under_per_key && under_total) _ _
              (λ full.
                rw
                  (u32_small (b.1 + 1)
                    (omega (arith, overflow-bucket_of key g.buckets, h.conserved)))
                  (put g.total_kept (b.0, b.1 + 1) (omega arith) h.held
                    (IsHeld-over cap_per_key total_cap line (ground (arith, full, few))
                      (ground (arith, full)) own)))
              (λ reached.
                put g.total_kept b (omega arith) h.held
                  (IsHeld-left cap_per_key total_cap line (ground (arith, no, reached)) own)))

    group_line-IsGrouped :
        IsGrouped cap_per_key total_cap matched g
        → IsGrouped cap_per_key total_cap
            (matched ++ (key, line) ∷ [])
            (group_line cap_per_key total_cap key line g)
    group_line-IsGrouped h =
        let counts =
          group_line-counts cap_per_key total_cap key line g (length matched) small h.counted
            h.conserved h.total h.per_key in
        record {
          counted = counts.0;
          conserved = counts.1 ∙ sym (length-append matched ((key, line) ∷ []));
          total = counts.2;
          per_key = counts.3;
          held = group_line-IsHeld h;
        }

abbrev pub nothing_grouped : Grouped
nothing_grouped = record { buckets = []; total_kept = 0; global_overflow = 0 }

module _ (api : RegexApi) (re : api.Re) (key_capture : Option ℕ) where
  -- The state of a `GroupByCapture` rule after the lines of a command.
  unfoldable pub group_lines : ℕ → ℕ → Grouped → List Text → Grouped
  unfolding apply_group
  group_lines cap_per_key total_cap g [] = g
  group_lines cap_per_key total_cap g (line ∷ lines) =
      group_lines cap_per_key total_cap
        (apply_group api re key_capture cap_per_key total_cap g line).1 lines

  module _ (cap_per_key total_cap : ℕ) where
    apply_group_lem :
        (g : Grouped) (line : Text)
        → (api.captures re line ≡ none
            → (apply_group api re key_capture cap_per_key total_cap g line).1 ≡ g)
          × ((caps : Captures)
              → api.captures re line ≡ some caps
              → (apply_group api re key_capture cap_per_key total_cap g line).1
                ≡ group_line cap_per_key total_cap (key_of caps key_capture) line g)
    unfolding apply_group
    apply_group_lem g line = (λ e. rw (apply_group, e), λ caps e. rw (apply_group, e))

    -- From any state, a line that matches is one more of the lines accounted for.
    group_lines-IsGrouped_from :
        (lines : List Text) (matched all : List (Text × Text)) (g : Grouped)
        → matched ++ keyed api re key_capture lines ≡ all
        → length matched + length lines < 2 ^ 32
        → IsGrouped cap_per_key total_cap matched g
        → IsGrouped cap_per_key total_cap all (group_lines cap_per_key total_cap g lines)
    unfolding group_lines
    group_lines-IsGrouped_from [] matched all g e small h =
        subst (λ l. IsGrouped cap_per_key total_cap l g) (sym (append-nil matched) ∙ e) h
    group_lines-IsGrouped_from (line ∷ lines) matched all g e small h =
        let after = λ (g' : Grouped).
          IsGrouped cap_per_key total_cap all (group_lines cap_per_key total_cap g' lines) in
        elim (Option-cases (api.captures re line)) [
          | inl missed ↦ subst after (sym ((apply_group_lem g line).0 missed)) (
              group_lines-IsGrouped_from lines matched all g
                (ap (λ l. matched ++ l) (sym ((keyed_lem api re key_capture line lines).0 missed))
                  ∙ e)
                (omega arith) h)
          | inr (caps, hit) ↦
              let pair : Text × Text = (key_of caps key_capture, line) in
              subst after (sym ((apply_group_lem g line).1 caps hit)) (
                group_lines-IsGrouped_from lines (matched ++ pair ∷ []) all _
                  (append_assoc matched (pair ∷ []) (keyed api re key_capture lines)
                    ∙ ap (λ l. matched ++ l)
                        (sym ((keyed_lem api re key_capture line lines).1 caps hit))
                    ∙ e)
                  (omega (arith, length-append matched (pair ∷ [])))
                  (group_line-IsGrouped cap_per_key total_cap (key_of caps key_capture) line matched
                    g (omega arith) h))
        ]

  -- After fewer than 2^32 lines of a command: `total_kept` counts the lines in the buckets, every
  -- matching line is counted as kept, in its bucket's overflow or in the global overflow, at most
  -- `total_cap` lines are kept in all, and at most `cap_per_key` in each bucket; and for each key
  -- the bucket holds the first of the matching lines with that key, in their order: all of them,
  -- unless it holds `cap_per_key` lines or `total_cap` lines are kept in all; and unless
  -- `total_cap` lines are kept in all, its overflow counts all its others.
  pub group_lines-IsGrouped :
      (cap_per_key total_cap : ℕ) (lines : List Text)
      → length lines < 2 ^ 32
      → IsGrouped cap_per_key total_cap
          (keyed api re key_capture lines)
          (group_lines cap_per_key total_cap nothing_grouped lines)
  unfolding bucket_of of_key
  group_lines-IsGrouped cap_per_key total_cap lines short =
      group_lines-IsGrouped_from cap_per_key total_cap lines [] _ nothing_grouped refl (omega arith)
        nothing_grouped-IsGrouped
    where
      nothing_grouped-IsGrouped : IsGrouped cap_per_key total_cap [] nothing_grouped
      nothing_grouped-IsGrouped = record {
        counted = refl;
        conserved = refl;
        total = omega arith;
        per_key = tt;
        held = λ key. record { first = ([], refl); whole = inl refl; over = inl refl };
      }
