-- ===== src/Audit/Verified.antt =====
-- crates/jkr/src/host/vault/audit.rs: what `verify` and `open` say of a log.
use tkr.Prelude.{
  ℕ, zero, suc, ◌<◌, ◌≡◌, refl, ◌⊎◌, inl, inr, true, false, Option, none, some, List, [], ◌∷◌, Text,
  length, take, length-take, text_eq_refl, Option-cases, arith, ap, sym, subst, ◌∙◌,
}
use tkr.Lines.{nonblank_lines}
use tkr.Audit.{
  AuditEvent, Entry, Tip, JsonApi, AuditLog, Opened, text_of, scan_lines, compute_last_hash,
  tip_agrees, open_log, open_with, append, check_lines, check_tip, verify,
}
use tkr.Audit.Chain.{
  JsonLaws, last_of, count_of, count_of-length, Chained, content_of, IsIntact, append-IsIntact,
  nonblank_lines-content_all, check_lines-content, scan_lines-printed,
}

abbrev pub empty_log : AuditLog
empty_log = record { file = none; tip = none; last_hash = []; entry_count = 0 }

module _ (api : JsonApi) where
  tip_agrees_self :
      (last : Text) (n : ℕ) → tip_agrees api (record { hash = last; n = n }) last n ≡ true
  unfolding tip_agrees
  tip_agrees_self last n = ground (arith, text_eq_refl last)

  unfoldable pub append_all : List AuditEvent → AuditLog → AuditLog
  unfolding append
  append_all [] log = log
  append_all (event ∷ events) log = append_all events (append api event log)

  open_with-anchored :
      (file : Option Text) (tip : Option Tip) (last : Text) (n : ℕ)
      → (tip ≡ some (record { hash = last; n = n })) ⊎ ((tip ≡ none) × (n ≡ 0))
      → open_with api file tip (some (last, n))
        ≡ Opened.opened (record { file = file; tip = tip; last_hash = last; entry_count = n })
  open_with-anchored file none last n h = ground (arith, h)
  open_with-anchored file (some tip) last n (inl e) =
      let agrees : tip_agrees api tip last n ≡ true =
        subst (λ (t : Tip). tip_agrees api t last n ≡ true) (ground (arith, e))
          (tip_agrees_self last n) in
      ground (arith, agrees)
  open_with-anchored file (some tip) last n (inr (e, _)) = absurd (ground (arith, e))

  append_all-IsIntact :
      (events : List AuditEvent) (es : List Entry) (log : AuditLog)
      → IsIntact api es log
      → (es' : List Entry) × IsIntact api es' (append_all events log)
  unfolding append_all
  append_all-IsIntact [] es log h = (es, h)
  append_all-IsIntact (event ∷ events) es log h =
      append_all-IsIntact events _ (append api event log) (append-IsIntact api es log event h)

  empty_log-IsIntact : IsIntact api [] empty_log
  unfolding IsIntact text_of content_of Chained last_of count_of
  empty_log-IsIntact = (refl, tt, refl, refl, inr (refl, refl))

  pub verify-file :
      (log : AuditLog) (s : Text)
      → log.file ≡ some s
      → verify api log ≡ check_tip api log.tip (check_lines api [] 0 (nonblank_lines s))
  verify-file log s there = unfold verify in ground (arith, there)

  module _ (laws : JsonLaws api) where
    check_content :
        (es : List Entry) (log : AuditLog) (s : Text)
        → IsIntact api es log
        → log.file ≡ some s
        → verify api log ≡ check_tip api log.tip (some (last_of [] es, count_of 0 es))
    unfolding IsIntact
    check_content es log s (content, chain, _, _, _) there =
        let whole : s ≡ content_of api es = unfold text_of in (sym (ap text_of there) ∙ content) in
        verify-file log s there
        ∙ ap (λ c. check_tip api log.tip (check_lines api [] 0 (nonblank_lines c))) whole
        ∙ ap (check_tip api log.tip) (check_lines-content api laws es chain)

    verify-IsIntact :
        (es : List Entry) (log : AuditLog) → IsIntact api es log → verify api log ≡ true
    unfolding IsIntact
    verify-IsIntact es log (content, chain, last, count, inl (tip, (s, there))) =
        check_content es log s (content, chain, last, count, inl (tip, (s, there))) there
        ∙ ap (λ t. check_tip api t (some (last_of [] es, count_of 0 es))) tip
        ∙ (unfold check_tip in tip_agrees_self (last_of [] es) (count_of 0 es))
    verify-IsIntact es log (content, chain, last, count, inr (tip, empty)) =
        let none_yet : count_of 0 es ≡ 0 = ap (count_of 0) empty ∙ (unfold count_of in refl) in
        elim (Option-cases log.file) [
          | inl missing ↦ unfold verify in ground (arith, missing, tip)
          | inr (s, there) ↦
              check_content es log s (content, chain, last, count, inr (tip, empty)) there
              ∙ ap (λ t. check_tip api t (some (last_of [] es, count_of 0 es))) tip
              ∙ (unfold check_tip in ground (arith, none_yet))
        ]

    compute_last_hash-content :
        (es : List Entry) (log : AuditLog)
        → IsIntact api es log
        → compute_last_hash api log.file ≡ some (last_of [] es, count_of 0 es)
    unfolding IsIntact compute_last_hash
    compute_last_hash-content es log (content, chain, last, count, tip) =
        ap (λ c. scan_lines api [] 0 (nonblank_lines c)) content
        ∙ ap (scan_lines api [] 0) (nonblank_lines-content_all api laws es)
        ∙ scan_lines-printed api laws [] 0 es []
        ∙ (unfold scan_lines in refl)

    -- A log that reads itself as its memory says is opened as it is.
    pub open_log-scanned :
        (es : List Entry) (log : AuditLog) (file : Option Text)
        → IsIntact api es log
        → compute_last_hash api file ≡ some (last_of [] es, count_of 0 es)
        → open_log api file log.tip ≡ Opened.opened (record log { file = file })
    unfolding IsIntact open_log
    open_log-scanned es log file (content, chain, last, count, tip) scanned =
        let anchored : (log.tip ≡ some (record { hash = last_of [] es; n = count_of 0 es }))
            ⊎ ((log.tip ≡ none) × (count_of 0 es ≡ 0)) =
          elim tip [
            | inl (tip, _) ↦ inl tip
            | inr (tip, empty) ↦ inr (tip, ap (count_of 0) empty ∙ (unfold count_of in refl))
          ] in
        ap (open_with api file log.tip) scanned
        ∙ open_with-anchored file log.tip (last_of [] es) (count_of 0 es) anchored
        ∙ rw (last, count) refl

    open_log-IsIntact :
        (es : List Entry) (log : AuditLog)
        → IsIntact api es log
        → open_log api log.file log.tip ≡ Opened.opened log
    open_log-IsIntact es log h =
        open_log-scanned es log log.file h (compute_last_hash-content es log h)

    Chained-take :
        (k : ℕ) (prev : Text) (es : List Entry) → Chained api prev es → Chained api prev (take k es)
    unfolding Chained
    Chained-take zero prev es h = tt
    Chained-take (suc k) prev [] h = tt
    Chained-take (suc k) prev (e ∷ es) (link, own, h) = (link, own, Chained-take k e.hash es h)

    -- An intact log of fewer than 2^64 entries from whose end entries are cut does not verify, with the
    -- tip file as it is.
    pub verify-truncated :
        (es : List Entry) (log : AuditLog) (k : ℕ)
        → IsIntact api es log
        → k < length es
        → length es < 18446744073709551616
        → verify api (record log { file = some (content_of api (take k es)) }) ≡ false
    unfolding IsIntact
    verify-truncated es log k (content, chain, last, count, inr (tip, empty)) cut small =
        absurd (omega (arith, ap (λ (xs : List Entry). length xs) empty))
    verify-truncated es log k (content, chain, last, count, inl (tip, _)) cut small =
        let cut_log = record log { file = some (content_of api (take k es)) } in
        let whole = count_of-length 0 es (omega (arith, small)) in
        let part = count_of-length 0 (take k es) (omega (arith, length-take k es)) in
        verify-file cut_log (content_of api (take k es)) refl
        ∙ ap (check_tip api log.tip)
            (check_lines-content api laws (take k es) (Chained-take k [] es chain))
        ∙ ap (λ t. check_tip api t (some (last_of [] (take k es), count_of 0 (take k es)))) tip
        ∙ (unfold check_tip tip_agrees in ground (arith, whole, part, length-take k es, cut))

    -- A log that starts without files and only appends verifies, and opening its files again gives
    -- the same log.
    pub verify-append_all :
        (events : List AuditEvent)
        → let log = append_all events empty_log in
          (verify api log ≡ true) × (open_log api log.file log.tip ≡ Opened.opened log)
    verify-append_all events =
        let (es, intact) = append_all-IsIntact events [] empty_log empty_log-IsIntact in
        let log = append_all events empty_log in
        (verify-IsIntact es log intact, open_log-IsIntact es log intact)
