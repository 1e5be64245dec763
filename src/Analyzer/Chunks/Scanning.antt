-- ===== src/Analyzer/Chunks/Scanning.antt =====
-- The loop over the bytes on the text of an array.
use pi_poetry.Base.{
  ℕ, suc, ◌+◌, ◌≡◌, refl, ap, ◌∙◌, Bool, true, false, List, [], ◌∷◌, ◌++◌, append_assoc, arith, All,
  ◌==◌, length, Bytes,
}
use pi_poetry.Base.Lists.{length-append}
use pi_poetry.Analyzer.Chunks.{Scan, scan_byte, scan_bytes, on_open}
use pi_poetry.Analyzer.Chunks.Texts.{
  StringChar, plain, escaped, Text, stop, other, quoted, nested, opening, closing, string_text,
  text, Ordinary, IsStringChar, IsText,
}

abbrev pub at : Scan → ℕ → ℕ → Scan
at s pos depth = record s {
  pos = pos;
  depth = depth;
  in_string = false;
  escape = false;
  finished = false;
}

abbrev in_quotes : Scan → ℕ → ℕ → Scan
in_quotes s pos depth = record s {
  pos = pos;
  depth = depth;
  in_string = true;
  escape = false;
  finished = false;
}

-- One byte, when the loop goes on.
pub scan_bytes-cons :
    (s next : Scan) (b : ℕ) (bs : Bytes)
    → scan_byte s b ≡ next
    → next.finished ≡ false
    → scan_bytes s (b ∷ bs) ≡ scan_bytes next bs
unfolding scan_bytes
scan_bytes-cons s next b bs e going = rw (e, going) refl

moved :
    (s : Scan) (p q d : ℕ) (bs : Bytes)
    → p ≡ q
    → scan_bytes (at s p d) bs ≡ scan_bytes (at s q d) bs
moved s p q d bs e = ap (λ p. scan_bytes (at s p d) bs) e

scan_bytes-string :
    (cs : List StringChar) (s : Scan) (pos d : ℕ) (rest : Bytes)
    → All IsStringChar cs
    → scan_bytes (in_quotes s pos d) (string_text cs ++ b'"' ∷ rest)
      ≡ scan_bytes (at s (pos + length (string_text cs) + 1) d) rest
unfolding scan_byte
scan_bytes-string [] s pos d rest h =
    scan_bytes-cons (in_quotes s pos d) (at s (pos + 1) d) b'"' rest refl refl
    ∙ moved s (pos + 1) (pos + 0 + 1) d rest (omega arith)
scan_bytes-string (plain c ∷ cs) s pos d rest h =
    let (b, q) = h.0 in
    scan_bytes-cons (in_quotes s pos d) (in_quotes s (pos + 1) d) c _ (rw (b, q) refl) refl
    ∙ scan_bytes-string cs s (pos + 1) d rest h.1
    ∙ moved s _ _ d rest (omega arith)
scan_bytes-string (escaped c ∷ cs) s pos d rest h =
    scan_bytes-cons (in_quotes s pos d) (record (in_quotes s (pos + 1) d) { escape = true }) b'\\' _
      refl refl
    ∙ scan_bytes-cons (record (in_quotes s (pos + 1) d) { escape = true })
        (in_quotes s (pos + 1 + 1) d) c _ refl refl
    ∙ scan_bytes-string cs s (pos + 1 + 1) d rest h.1
    ∙ moved s _ _ d rest (omega arith)

Ordinary-byte :
    (c : ℕ) (s : Scan) (pos d : ℕ) (rest : Bytes)
    → Ordinary c
    → scan_bytes (at s pos d) (c ∷ rest) ≡ scan_bytes (at s (pos + 1) d) rest
unfolding scan_byte
Ordinary-byte c s pos d rest (q, o, e) =
    scan_bytes-cons (at s pos d) (at s (pos + 1) d) c rest (rw (q, o, e) refl) refl

pub opening_byte :
    (square : Bool) (s : Scan) (pos d : ℕ)
    → scan_byte (at s pos d) (opening square) ≡ on_open (at s pos d)
unfolding scan_byte
opening_byte true s pos d = refl
opening_byte false s pos d = refl

positive : (d : ℕ) → (suc d == 0) ≡ false
positive d = ground arith

closing_byte :
    (square : Bool) (s : Scan) (pos d : ℕ)
    → scan_byte (at s pos (suc (suc d))) (closing square) ≡ at s (pos + 1) (suc d)
unfolding scan_byte
closing_byte true s pos d = rw (positive d) refl
closing_byte false s pos d = rw (positive d) refl

opens_inside :
    (square : Bool) (s : Scan) (pos d : ℕ)
    → scan_byte (at s pos (suc d)) (opening square) ≡ at s (pos + 1) (suc (suc d))
opens_inside square s pos d =
    opening_byte square s pos (suc d)
    ∙ rw (positive d) (ap (at s (pos + 1)) (let e : suc d + 1 ≡ suc (suc d) = omega arith in e))

-- Inside an object only the offset changes.
pub scan_bytes-text :
    (t : Text) (s : Scan) (pos d : ℕ) (rest : Bytes)
    → IsText t
    → scan_bytes (at s pos (suc d)) (text t ++ rest)
      ≡ scan_bytes (at s (pos + length (text t)) (suc d)) rest
unfolding scan_byte
scan_bytes-text stop s pos d rest h = moved s pos (pos + 0) (suc d) rest (omega arith)
scan_bytes-text (other c t) s pos d rest h =
    Ordinary-byte c s pos (suc d) (text t ++ rest) h.0
    ∙ scan_bytes-text t s (pos + 1) d rest h.1
    ∙ moved s _ _ (suc d) rest (omega arith)
scan_bytes-text (quoted cs t) s pos d rest h =
    let n = length-append (string_text cs) (b'"' ∷ text t) in
    scan_bytes-cons (at s pos (suc d)) (in_quotes s (pos + 1) (suc d)) b'"' _ refl refl
    ∙ ap (scan_bytes (in_quotes s (pos + 1) (suc d)))
        (append_assoc (string_text cs) (b'"' ∷ text t) rest)
    ∙ scan_bytes-string cs s (pos + 1) (suc d) (text t ++ rest) h.0
    ∙ scan_bytes-text t s _ d rest h.1
    ∙ moved s _ _ (suc d) rest (omega arith)
scan_bytes-text (nested square inside t) s pos d rest h =
    let n = length-append (text inside) (closing square ∷ text t) in
    scan_bytes-cons (at s pos (suc d)) (at s (pos + 1) (suc (suc d))) (opening square) _
      (opens_inside square s pos d) refl
    ∙ ap (scan_bytes (at s (pos + 1) (suc (suc d))))
        (append_assoc (text inside) (closing square ∷ text t) rest)
    ∙ scan_bytes-text inside s (pos + 1) (suc d) (closing square ∷ (text t ++ rest)) h.0
    ∙ scan_bytes-cons (at s (pos + 1 + length (text inside)) (suc (suc d)))
        (at s (pos + 1 + length (text inside) + 1) (suc d)) (closing square) _
        (closing_byte square s (pos + 1 + length (text inside)) d) refl
    ∙ scan_bytes-text t s _ d rest h.1
    ∙ moved s _ _ (suc d) rest (omega arith)

pub scan_bytes-gap :
    (gap : Bytes) (s : Scan) (pos d : ℕ) (rest : Bytes)
    → All Ordinary gap
    → scan_bytes (at s pos d) (gap ++ rest) ≡ scan_bytes (at s (pos + length gap) d) rest
scan_bytes-gap [] s pos d rest h = moved s pos (pos + 0) d rest (omega arith)
scan_bytes-gap (c ∷ gap) s pos d rest h =
    Ordinary-byte c s pos d (gap ++ rest) h.0
    ∙ scan_bytes-gap gap s (pos + 1) d rest h.1
    ∙ moved s _ _ d rest (omega arith)
