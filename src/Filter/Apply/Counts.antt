-- ===== src/Filter/Apply/Counts.antt =====
-- The counters of a `GroupByCapture` rule (crates/jkr-filter/src/rules.rs).
use tkr.Prelude.{
  ℕ, ◌+◌, ◌^◌, ◌≤◌, ◌<◌, ◌≡◌, [], ◌∷◌, ◌++◌, Text, length, length-append, All, u32, arith,
}
use tkr.Filter.Compiled.{Buckets}
use tkr.Filter.Apply.Groups.{bucket_of, put_bucket, Grouped, group_line}
use tkr.Filter.Apply.Held.{Bucket}

abbrev pub kept_lines : Buckets → ℕ
kept_lines [] = 0
kept_lines ((_, (lines, _)) ∷ buckets) = length lines + kept_lines buckets

abbrev pub overflow_lines : Buckets → ℕ
overflow_lines [] = 0
overflow_lines ((_, (_, overflow)) ∷ buckets) = overflow + overflow_lines buckets

kept-put_bucket :
    (key : Text) (b : Bucket) (buckets : Buckets)
    → kept_lines (put_bucket key b buckets) + length (bucket_of key buckets).0
      ≡ kept_lines buckets + length b.0
unfolding put_bucket bucket_of
kept-put_bucket key b [] = omega arith
kept-put_bucket key b ((k, c) ∷ buckets) = ground (arith, kept-put_bucket key b buckets)

overflow-put_bucket :
    (key : Text) (b : Bucket) (buckets : Buckets)
    → overflow_lines (put_bucket key b buckets) + (bucket_of key buckets).1
      ≡ overflow_lines buckets + b.1
unfolding put_bucket bucket_of
overflow-put_bucket key b [] = omega arith
overflow-put_bucket key b ((k, c) ∷ buckets) = ground (arith, overflow-put_bucket key b buckets)

pub kept-bucket_of :
    (key : Text) (buckets : Buckets) → length (bucket_of key buckets).0 ≤ kept_lines buckets
unfolding bucket_of
kept-bucket_of key [] = omega arith
kept-bucket_of key ((k, c) ∷ buckets) = ground (arith, kept-bucket_of key buckets)

pub overflow-bucket_of :
    (key : Text) (buckets : Buckets) → (bucket_of key buckets).1 ≤ overflow_lines buckets
unfolding bucket_of
overflow-bucket_of key [] = omega arith
overflow-bucket_of key ((k, c) ∷ buckets) = ground (arith, overflow-bucket_of key buckets)

abbrev pub Capped : ℕ → Buckets → Type 0
Capped cap = All (λ e. length e.1.0 ≤ cap)

Capped-bucket_of :
    (cap : ℕ) (key : Text) (buckets : Buckets)
    → Capped cap buckets
    → length (bucket_of key buckets).0 ≤ cap
unfolding bucket_of
Capped-bucket_of cap key [] h = omega arith
Capped-bucket_of cap key ((k, c) ∷ buckets) h = ground (arith, Capped-bucket_of cap key buckets h.1)

Capped-put_bucket :
    (cap : ℕ) (key : Text) (b : Bucket) (buckets : Buckets)
    → length b.0 ≤ cap
    → Capped cap buckets
    → Capped cap (put_bucket key b buckets)
unfolding put_bucket
Capped-put_bucket cap key b [] hb h = (hb, tt)
Capped-put_bucket cap key b ((k, c) ∷ buckets) hb h =
    ground (arith, Capped-put_bucket cap key b buckets hb h.1)

pub u32_small : (n : ℕ) → n < 2 ^ 32 → u32 n ≡ n
u32_small n h = omega arith

-- The counters after one more line.
pub group_line-counts :
    (cap_per_key total_cap : ℕ) (key line : Text) (g : Grouped) (n : ℕ)
    → n + 1 < 2 ^ 32
    → kept_lines g.buckets ≡ g.total_kept
    → g.total_kept + overflow_lines g.buckets + g.global_overflow ≡ n
    → g.total_kept ≤ total_cap
    → Capped cap_per_key g.buckets
    → let g' = group_line cap_per_key total_cap key line g in
      (kept_lines g'.buckets ≡ g'.total_kept)
      × (g'.total_kept + overflow_lines g'.buckets + g'.global_overflow ≡ n + 1)
      × (g'.total_kept ≤ total_cap)
      × Capped cap_per_key g'.buckets
unfolding group_line
group_line-counts cap_per_key total_cap key line g n small counted conserved total per_key =
    let (lines, overflow) = bucket_of key g.buckets in
    ground (
      arith,
      kept-bucket_of key g.buckets,
      overflow-bucket_of key g.buckets,
      Capped-bucket_of cap_per_key key g.buckets per_key,
      length-append lines (line ∷ []),
      kept-put_bucket key (lines ++ line ∷ [], overflow) g.buckets,
      overflow-put_bucket key (lines ++ line ∷ [], overflow) g.buckets,
      Capped-put_bucket cap_per_key key (lines ++ line ∷ [], overflow) g.buckets,
      kept-put_bucket key (lines, u32 (overflow + 1)) g.buckets,
      overflow-put_bucket key (lines, u32 (overflow + 1)) g.buckets,
      Capped-put_bucket cap_per_key key (lines, u32 (overflow + 1)) g.buckets,
      kept-put_bucket key (lines, overflow) g.buckets,
      overflow-put_bucket key (lines, overflow) g.buckets,
      Capped-put_bucket cap_per_key key (lines, overflow) g.buckets,
    )
