-- ===== src/Audit/Torn.antt =====
-- crates/jkr/src/host/vault/audit.rs: what becomes of a log whose last write was torn.
use tkr.Prelude.{
  ◌≡◌, refl, false, none, some, List, [], ◌∷◌, ◌++◌, Text, codes, map, is_blank, All-append,
  append_assoc, arith, ap, ◌∙◌,
}
use tkr.Lines.{nonblank_lines, nonblank_lines-line, nonblank_lines-open, IsLine, is_blank-append}
use tkr.Audit.{
  AuditEvent, Entry, JsonApi, AuditLog, Opened, text_of, scan_lines, compute_last_hash, open_log,
  next_entry, append, check_lines, check_tip, verify,
}
use tkr.Audit.Chain.{
  JsonLaws, last_of, count_of, Chained, content_of, IsIntact, nonblank_lines-content,
  check_lines-Chained, scan_lines-printed,
}
use tkr.Audit.Verified.{verify-file, open_log-scanned}

-- The log after a write that stopped in the middle of a line.
unfoldable pub torn : Text → AuditLog → AuditLog
unfolding text_of
torn tail log = record log { file = some (text_of log.file ++ tail) }

assoc4 : (c t p : Text) → c ++ t ++ p ++ codes "\n" ≡ c ++ ((t ++ p) ++ 10 ∷ [])
assoc4 c t p = ap (λ x. x ++ codes "\n") (append_assoc c t p) ∙ append_assoc c (t ++ p) (codes "\n")

module _ (api : JsonApi) (laws : JsonLaws api) where
  scan_torn :
      (es : List Entry) (tail : Text)
      → IsLine tail
      → is_blank tail ≡ false
      → api.parse_entry tail ≡ none
      → scan_lines api [] 0 (nonblank_lines (content_of api es ++ tail))
        ≡ some (last_of [] es, count_of 0 es)
  scan_torn es tail line visible broken =
      ap (scan_lines api [] 0) (nonblank_lines-content api laws es tail)
      ∙ ap (λ rest. scan_lines api [] 0 (map api.print_entry es ++ rest))
          (nonblank_lines-open tail line visible)
      ∙ scan_lines-printed api laws [] 0 es (tail ∷ [])
      ∙ (unfold scan_lines in ground (arith, broken))

  check_torn :
      (es : List Entry) (tail : Text) (e : Entry)
      → Chained api [] es
      → IsLine tail
      → is_blank tail ≡ false
      → api.parse_entry (tail ++ api.print_entry e) ≡ none
      → check_lines api [] 0
          (nonblank_lines (content_of api es ++ tail ++ api.print_entry e ++ codes "\n"))
        ≡ none
  check_torn es tail e chain line visible broken =
      let last = tail ++ api.print_entry e in
      let whole : IsLine last =
        unfold IsLine in All-append _ tail (api.print_entry e) line (laws.print_line e) in
      ap (λ t. check_lines api [] 0 (nonblank_lines t))
        (assoc4 (content_of api es) tail (api.print_entry e))
      ∙ ap (check_lines api [] 0) (nonblank_lines-content api laws es (last ++ 10 ∷ []))
      ∙ ap (λ rest. check_lines api [] 0 (map api.print_entry es ++ rest))
          (nonblank_lines-line last [] whole (is_blank-append tail (api.print_entry e) visible))
      ∙ check_lines-Chained api laws [] 0 es (last ∷ nonblank_lines []) chain
      ∙ (unfold check_lines in ground (arith, broken))

  -- A visible torn end of an intact log that holds no line end and is no entry is passed over when
  -- the log is opened; but the next entry goes on the same line, and if what stands there then is no
  -- entry, the log does not verify.
  pub torn-append :
      (es : List Entry) (log : AuditLog) (tail : Text) (event : AuditEvent)
      → IsIntact api es log
      → IsLine tail
      → is_blank tail ≡ false
      → api.parse_entry tail ≡ none
      → api.parse_entry (tail ++ api.print_entry (next_entry api log.last_hash event)) ≡ none
      → (open_log api (torn tail log).file log.tip ≡ Opened.opened (torn tail log))
        × (verify api (append api event (torn tail log)) ≡ false)
  unfolding IsIntact torn append
  torn-append es log tail event (content, chain, last, count, tip) line visible broken lost =
      let entry = next_entry api log.last_hash event in
      let text = text_of log.file ++ tail in
      let after = text ++ api.print_entry entry ++ codes "\n" in
      let content' : after ≡ content_of api es ++ tail ++ api.print_entry entry ++ codes "\n" =
        ap (λ c. c ++ tail ++ api.print_entry entry ++ codes "\n") content in
      let log' = append api event (record log { file = some text }) in
      let checked = check_torn es tail entry chain line visible lost in
      (
        open_log-scanned api laws es log (some text) (content, chain, last, count, tip)
            (unfold compute_last_hash in
              ap (λ c. scan_lines api [] 0 (nonblank_lines (c ++ tail))) content
              ∙ scan_torn es tail line visible broken),
        verify-file api log' after refl
            ∙ ap (λ c. check_tip api log'.tip (check_lines api [] 0 (nonblank_lines c))) content'
            ∙ ap (check_tip api log'.tip) checked
            ∙ (unfold check_tip in refl),
      )
