-- ===== src/Samples/RecorderExamples.antt =====
-- The theorems on crates/jkr-session-recorder at small inputs.
use tkr.Prelude.{
  ◌⊎◌, ◌≡◌, refl, ◌≤◌, false, some, List, [], ◌∷◌, Text, codes, byte_len, any, true, text_eq,
  starts_with, arith,
}
use tkr.Recorder.{InFlight}
use tkr.Recorder.Scrub.{scrub_line}
use tkr.Recorder.Found.{IsFirst}
use tkr.Recorder.Shapes.{ShowsSecret, api_key, redactions}
use tkr.Recorder.Secrets.{scrub_line-ShowsSecret}
use tkr.Recorder.Preview.{IsAscii, observe_lines, observe_lines-fits}

abbrev key_line : Text
key_line = codes "key: sk-ant-0123456789abcdef"

key_shown : ShowsSecret key_line
unfolding IsFirst starts_with
key_shown = api_key (codes "sk-ant-") refl (record {
  front = codes "key: ";
  token = codes "0123456789abcdef";
  behind = [];
  split = refl;
  is_first = (refl, (refl, (refl, (refl, (refl, tt)))));
  long = refl;
  accepted = refl;
})

scrub_line-ShowsSecret_example :
    (ShowsSecret key_line × (any (text_eq (scrub_line key_line)) redactions ≡ true))
    ⊎ ((¬ ShowsSecret key_line) × (scrub_line key_line ≡ key_line))
scrub_line-ShowsSecret_example = scrub_line-ShowsSecret key_line

abbrev status_lines : List Text
status_lines = codes "M  Cargo.toml" ∷ key_line ∷ []

abbrev git_status : InFlight
git_status = record {
  started_at = 0;
  command = codes "git";
  args = codes "status";
  chars_in = 0;
  filter_savings_chars = 0;
  output_preview = [];
  suppress_preview = false;
}

status-IsAscii : IsAscii (codes "M  Cargo.toml")
unfolding IsAscii
status-IsAscii = refl

key_line-IsAscii : IsAscii key_line
unfolding IsAscii
key_line-IsAscii = refl

git_status-fits : byte_len git_status.output_preview ≤ 2049
unfolding byte_len
git_status-fits = omega arith

observe_lines-fits_example :
    (g : InFlight) × ((observe_lines status_lines git_status ≡ some g)
      × (byte_len g.output_preview ≤ 2049))
observe_lines-fits_example =
    observe_lines-fits status_lines git_status (status-IsAscii, (key_line-IsAscii, tt))
      git_status-fits
