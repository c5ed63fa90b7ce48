-- ===== src/Audit/Chain.antt =====
-- crates/jkr/src/host/vault/audit.rs: the chain of hashes and the tip that anchors it.
use tkr.Prelude.{
  ℕ, ◌+◌, ◌<◌, ◌≡◌, refl, ◌⊎◌, inl, false, none, some, List, [], ◌∷◌, ◌++◌, Text, codes, length,
  map, text_eq_iff, is_blank, u64, arith, ap, sym, ◌∙◌, append_assoc, append-nil,
}
use tkr.Lines.{
  nonblank_lines, lines_of, drop_cr, split_lines, drop_blank, nonblank_lines-line, IsLine,
}
use tkr.Audit.{
  AuditEvent, Entry, JsonApi, AuditLog, text_of, scan_lines, entry_hash, next_entry, append,
  check_lines,
}

-- What `serde_json` documents: what it prints on one line is parsed back.
pub record JsonLaws (api : JsonApi) : Type 0 where
  pub parse_print : (e : Entry) → api.parse_entry (api.print_entry e) ≡ some e
  pub print_line : (e : Entry) → IsLine (api.print_entry e)
  pub print_visible : (e : Entry) → is_blank (api.print_entry e) ≡ false

unfoldable pub last_of : Text → List Entry → Text
last_of prev [] = prev
last_of prev (e ∷ es) = last_of e.hash es

unfoldable pub count_of : ℕ → List Entry → ℕ
count_of n [] = n
count_of n (e ∷ es) = count_of (u64 (n + 1)) es

pub last_of-append :
    (prev : Text) (es : List Entry) (e : Entry) → last_of prev (es ++ e ∷ []) ≡ e.hash
unfolding last_of
last_of-append prev [] e = refl
last_of-append prev (x ∷ es) e = last_of-append x.hash es e

count_of-append :
    (n : ℕ) (es : List Entry) (e : Entry) → count_of n (es ++ e ∷ []) ≡ u64 (count_of n es + 1)
unfolding count_of
count_of-append n [] e = refl
count_of-append n (x ∷ es) e = count_of-append (u64 (n + 1)) es e

pub count_of-length :
    (n : ℕ) (es : List Entry) → n + length es < 18446744073709551616 → count_of n es ≡ n + length es
unfolding count_of
count_of-length n [] h = omega arith
count_of-length n (e ∷ es) h = omega (arith, count_of-length (u64 (n + 1)) es (omega arith))

module _ (api : JsonApi) where
  -- Each entry names the hash of the one before it, and has its own.
  unfoldable pub Chained : Text → List Entry → Type 0
  Chained prev [] = Unit
  Chained prev (e ∷ es) =
      (e.prev_hash ≡ prev) × (entry_hash api e.prev_hash e.event ≡ e.hash) × Chained e.hash es

  -- The entries on a line each.
  unfoldable pub content_of : List Entry → Text
  content_of [] = []
  content_of (e ∷ es) = api.print_entry e ++ 10 ∷ content_of es

  pub content_of-append :
      (es : List Entry) (e : Entry)
      → content_of (es ++ e ∷ []) ≡ content_of es ++ api.print_entry e ++ codes "\n"
  unfolding content_of
  content_of-append [] e = refl
  content_of-append (x ∷ es) e =
      let line = api.print_entry x in
      let new = api.print_entry e in
      ap (λ t. line ++ 10 ∷ t) (content_of-append es e)
      ∙ sym (append_assoc line (10 ∷ (content_of es ++ new)) (codes "\n"))
      ∙ ap (λ t. t ++ codes "\n") (sym (append_assoc line (10 ∷ content_of es) new))

  pub Chained-append :
      (prev : Text) (es : List Entry) (event : AuditEvent)
      → Chained prev es
      → Chained prev (es ++ next_entry api (last_of prev es) event ∷ [])
  unfolding Chained last_of next_entry
  Chained-append prev [] event h = (refl, refl, tt)
  Chained-append prev (e ∷ es) event (link, own, h) = (link, own, Chained-append e.hash es event h)

  -- The entry `e` before those of `es`, as they stand in a list of lines.
  unfoldable pub Parsed : List Text → List Entry → Type 0
  Parsed [] [] = Unit
  Parsed (line ∷ lines) (e ∷ es) = (api.parse_entry line ≡ some e) × Parsed lines es
  Parsed _ _ = ⊥

  module _ (laws : JsonLaws api) where
    pub nonblank_lines-content :
        (es : List Entry) (tail : Text)
        → nonblank_lines (content_of es ++ tail) ≡ map api.print_entry es ++ nonblank_lines tail
    unfolding content_of
    nonblank_lines-content [] tail = refl
    nonblank_lines-content (e ∷ es) tail =
        let line = api.print_entry e in
        ap nonblank_lines (append_assoc line (10 ∷ content_of es) tail)
        ∙ nonblank_lines-line line (content_of es ++ tail) (laws.print_line e)
            (laws.print_visible e)
        ∙ ap (◌∷◌ line) (nonblank_lines-content es tail)

    pub check_lines-Chained :
        (prev : Text) (n : ℕ) (es : List Entry) (rest : List Text)
        → Chained prev es
        → check_lines api prev n (map api.print_entry es ++ rest)
          ≡ check_lines api (last_of prev es) (count_of n es) rest
    unfolding Chained last_of count_of check_lines
    check_lines-Chained prev n [] rest h = refl
    check_lines-Chained prev n (e ∷ es) rest (link, own, h) = ground (
      arith,
      laws.parse_print e,
      check_lines-Chained e.hash (u64 (n + 1)) es rest h,
      text_eq_iff e.prev_hash prev,
      text_eq_iff (entry_hash api e.prev_hash e.event) e.hash,
      link,
      own,
    )

    pub scan_lines-printed :
        (last : Text) (n : ℕ) (es : List Entry) (rest : List Text)
        → scan_lines api last n (map api.print_entry es ++ rest)
          ≡ scan_lines api (last_of last es) (count_of n es) rest
    unfolding last_of count_of scan_lines
    scan_lines-printed last n [] rest = refl
    scan_lines-printed last n (e ∷ es) rest =
        ground (arith, laws.parse_print e, scan_lines-printed e.hash (u64 (n + 1)) es rest)

    pub nonblank_lines-content_all :
        (es : List Entry) → nonblank_lines (content_of es) ≡ map api.print_entry es ++ []
    nonblank_lines-content_all es =
        ap nonblank_lines (sym (append-nil (content_of es)))
        ∙ nonblank_lines-content es []
        ∙ (unfold nonblank_lines lines_of drop_cr split_lines drop_blank in refl)

    -- What the loop of `verify` computes of a chain.
    pub check_lines-content :
        (es : List Entry)
        → Chained [] es
        → check_lines api [] 0 (nonblank_lines (content_of es))
          ≡ some (last_of [] es, count_of 0 es)
    check_lines-content es chain =
        ap (check_lines api [] 0) (nonblank_lines-content_all es)
        ∙ check_lines-Chained [] 0 es [] chain
        ∙ (unfold check_lines in refl)

  -- A log as appending leaves it: its file holds a chain of entries, and the memory and the tip tell
  -- the last hash and the number of the entries.
  unfoldable pub IsIntact : List Entry → AuditLog → Type 0
  IsIntact es log =
      (text_of log.file ≡ content_of es)
      × Chained [] es
      × (log.last_hash ≡ last_of [] es)
      × (log.entry_count ≡ count_of 0 es)
      × (((log.tip ≡ some (record { hash = last_of [] es; n = count_of 0 es }))
            × ((s : Text) × (log.file ≡ some s)))
          ⊎ ((log.tip ≡ none) × (es ≡ [])))

  pub append-IsIntact :
      (es : List Entry) (log : AuditLog) (event : AuditEvent)
      → IsIntact es log
      → IsIntact (es ++ next_entry api (last_of [] es) event ∷ []) (append api event log)
  unfolding IsIntact append
  append-IsIntact es log event (content, chain, last, count, tip) =
      let entry = next_entry api (last_of [] es) event in
      let same : next_entry api log.last_hash event ≡ entry =
        ap (λ h. next_entry api h event) last in
      let hash : (next_entry api log.last_hash event).hash ≡ last_of [] (es ++ entry ∷ []) =
        ap (λ (e : Entry). e.hash) same ∙ sym (last_of-append [] es entry) in
      let number : u64 (log.entry_count + 1) ≡ count_of 0 (es ++ entry ∷ []) =
        ap (λ n. u64 (n + 1)) count ∙ sym (count_of-append 0 es entry) in
      (
        ap (λ t. t ++ api.print_entry (next_entry api log.last_hash event) ++ codes "\n") content
            ∙ ap (λ e. content_of es ++ api.print_entry e ++ codes "\n") same
            ∙ sym (content_of-append es entry),
        Chained-append [] es event chain,
        hash,
        number,
        inl (rw (sym hash, sym number) refl, (text_of (append api event log).file, refl)),
      )
