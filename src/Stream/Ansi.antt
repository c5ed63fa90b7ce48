-- ===== src/Stream/Ansi.antt =====
-- `strip_ansi` of crates/jkr/src/stream.rs. The loops over the peeked characters are one automaton:
-- a mode says in which loop the scan stands.
use tkr.Prelude.{
  sym, All-append, append-nil, byte_len-append, ℕ, ◌≤◌, ◌≡◌, refl, ap, ◌∙◌, Bool, true, false, ◌&&◌,
  ◌||◌, [], ◌∷◌, ◌++◌, Text, All, byte_len, leb, ◌==◌, if◌then◌else◌, arith,
}

-- `text` is the outer loop; `escape` stands behind an ESC, `csi` in the parameters of a CSI,
-- `string` in an OSC, DCS, APC, PM or SOS, `string_escape` behind an ESC in one of those, and
-- `designator` before the character that a charset escape takes with it.
pub data Mode : Type 0 where
  text escape csi string string_escape designator : Mode

abbrev pub esc : ℕ
esc = 0x1b

abbrev bel : ℕ
bel = 0x07

-- Bell, backspace and carriage return, which are dropped wherever they stand.
abbrev pub is_dropped : ℕ → Bool
is_dropped c = c == bel || c == 0x08 || c == 0x0d

abbrev on_text : ℕ → Mode × Text
on_text c = if c == esc then (escape, []) else if is_dropped c then (text, []) else (text, c ∷ [])

abbrev on_escape : ℕ → Mode
on_escape c =
    if c == b'['
    then csi
    else if c == b']'
    then string
    else if c == b'(' || c == b')' || c == b'*' || c == b'+'
    then designator
    else if c == b'P' || c == b'_' || c == b'^' || c == b'X'
    then string
    else text

-- The next mode, and what goes to the output.
unfoldable pub step : Mode → ℕ → Mode × Text
step text c = on_text c
step escape c = (on_escape c, [])
step csi c = (if leb 0x40 c && leb c 0x7e then text else csi, [])
step string c = (if c == bel then text else if c == esc then string_escape else string, [])
step string_escape c = if c == b'\\' then (text, []) else on_text c
step designator c = (text, [])

unfoldable pub scan : Mode → Text → Text
unfolding step
scan mode [] = []
scan mode (c ∷ cs) = let (mode', out) = step mode c in out ++ scan mode' cs

unfoldable pub strip_ansi : Text → Text
unfolding scan
strip_ansi input = scan text input

-- A character that the pipeline lets through.
abbrev pub IsPlain : ℕ → Type 0
IsPlain c = ((c == esc) || is_dropped c) ≡ false

step-IsPlain : (mode : Mode) (c : ℕ) → All IsPlain (step mode c).1
unfolding step
step-IsPlain text c = ground arith
step-IsPlain escape c = tt
step-IsPlain csi c = tt
step-IsPlain string c = tt
step-IsPlain string_escape c = ground arith
step-IsPlain designator c = tt

scan-IsPlain : (mode : Mode) (s : Text) → All IsPlain (scan mode s)
unfolding scan
scan-IsPlain mode [] = tt
scan-IsPlain mode (c ∷ cs) =
    All-append IsPlain (step mode c).1 (scan (step mode c).0 cs) (step-IsPlain mode c)
      (scan-IsPlain (step mode c).0 cs)

scan-append : (s t : Text) → All IsPlain s → scan text (s ++ t) ≡ s ++ scan text t
unfolding scan
scan-append [] t h = refl
scan-append (c ∷ cs) t (plain, h) = ground (arith, scan-append cs t h)

-- The bytes of a CSI behind its bracket: parameters, then a final byte.
abbrev pub IsParameter : ℕ → Type 0
IsParameter c = (leb 0x40 c && leb c 0x7e) ≡ false

scan-csi :
    (params rest : Text) (final : ℕ)
    → All IsParameter params
    → (leb 0x40 final && leb final 0x7e) ≡ true
    → scan csi (params ++ final ∷ rest) ≡ scan text rest
unfolding scan
scan-csi [] rest final h f = ground arith
scan-csi (c ∷ params) rest final (p, h) f = ground (arith, scan-csi params rest final h f)

-- Nothing that comes out is an escape, a bell, a backspace or a carriage return, whatever went in:
-- not even behind an unterminated sequence.
pub strip_ansi-IsPlain : (s : Text) → All IsPlain (strip_ansi s)
unfolding strip_ansi
strip_ansi-IsPlain s = scan-IsPlain text s

-- A text with none of these characters is kept as it is.
strip_ansi_of_plain : (s : Text) → All IsPlain s → strip_ansi s ≡ s
unfolding strip_ansi scan
strip_ansi_of_plain s h = ap strip_ansi (sym (append-nil s)) ∙ scan-append s [] h ∙ append-nil s

-- Stripping twice is stripping once.
pub strip_ansi_idem : (s : Text) → strip_ansi (strip_ansi s) ≡ strip_ansi s
strip_ansi_idem s = strip_ansi_of_plain (strip_ansi s) (strip_ansi-IsPlain s)

-- A complete CSI sequence behind a plain text disappears, and the scan goes on behind it.
pub strip_ansi-csi :
    (before params rest : Text) (final : ℕ)
    → All IsPlain before
    → All IsParameter params
    → (leb 0x40 final && leb final 0x7e) ≡ true
    → strip_ansi (before ++ esc ∷ b'[' ∷ (params ++ final ∷ rest)) ≡ before ++ strip_ansi rest
unfolding strip_ansi
strip_ansi-csi before params rest final plain h f =
    scan-append before (esc ∷ b'[' ∷ (params ++ final ∷ rest)) plain
    ∙ ap (◌++◌ before) (scan-csi params rest final h f)

-- The bytes that a mode puts out are bytes that it has read.
step-byte_len : (mode : Mode) (c : ℕ) → byte_len (step mode c).1 ≤ byte_len (c ∷ [])
unfolding step byte_len
step-byte_len text c = ground arith
step-byte_len string_escape c = ground arith
step-byte_len _ c = omega arith

scan-byte_len : (mode : Mode) (s : Text) → byte_len (scan mode s) ≤ byte_len s
unfolding scan
scan-byte_len mode [] = omega arith
scan-byte_len mode (c ∷ cs) = omega (
  arith,
  byte_len-append (step mode c).1 (scan (step mode c).0 cs),
  byte_len-append (c ∷ []) cs,
  step-byte_len mode c,
  scan-byte_len (step mode c).0 cs,
)

-- Stripping escapes makes no line longer.
pub byte_len-strip_ansi : (s : Text) → byte_len (strip_ansi s) ≤ byte_len s
unfolding strip_ansi
byte_len-strip_ansi s = scan-byte_len text s
