-- ===== src/Samples/AuditExamples.antt =====
-- The theorems on crates/jkr/src/host/vault/audit.rs at small inputs.
use tkr.Prelude.{
  ◌≡◌, refl, inl, true, false, some, List, [], ◌∷◌, codes, take, is_blank, is_whitespace, arith,
}
use tkr.Lines.{IsLine}
use tkr.Audit.{AuditEvent, Entry, AuditLog, Opened, open_log, append, verify, next_entry, text_of}
use tkr.Audit.Chain.{IsIntact, content_of, Chained, last_of, count_of}
use tkr.Audit.Verified.{empty_log, append_all, verify-append_all, verify-truncated}
use tkr.Audit.Torn.{torn, torn-append}
use tkr.Samples.Json.{toy_json, toy_json_laws}

abbrev event : AuditEvent
event = record { actor = codes "p"; op = codes "read"; key = codes "k"; ts = 5 }

verify-append_all_example :
    let log = append_all toy_json (event ∷ event ∷ []) empty_log in
    (verify toy_json log ≡ true) × (open_log toy_json log.file log.tip ≡ Opened.opened log)
verify-append_all_example = verify-append_all toy_json toy_json_laws (event ∷ event ∷ [])

abbrev log : AuditLog
log = append toy_json event empty_log

abbrev entries : List Entry
entries = next_entry toy_json [] event ∷ []

log-IsIntact : IsIntact toy_json entries log
unfolding IsIntact append text_of content_of Chained last_of count_of
log-IsIntact = (refl, (refl, refl, tt), refl, refl, inl (refl, (text_of log.file, refl)))

verify-truncated_example :
    verify toy_json (record log { file = some (content_of toy_json (take 0 entries)) }) ≡ false
verify-truncated_example =
    verify-truncated toy_json toy_json_laws entries log 0 log-IsIntact (omega arith) (omega arith)

torn-append_example :
    (open_log toy_json (torn (codes "A") log).file log.tip ≡ Opened.opened (torn (codes "A") log))
    × (verify toy_json (append toy_json event (torn (codes "A") log)) ≡ false)
unfolding IsLine is_blank is_whitespace
torn-append_example =
    torn-append toy_json toy_json_laws entries log (codes "A") event log-IsIntact ((refl, refl), tt)
      refl refl refl
