-- ===== src/Analyzer/Chunks/Objects.antt =====
-- The loop over the bytes on the objects of the array: their offsets, and the cuts between them.
use pi_poetry.Base.{
  ℕ, suc, ◌+◌, ◌≡◌, refl, ap, ◌∙◌, Bool, true, false, List, [], ◌∷◌, ◌++◌, append_assoc, arith, All,
  length, Bytes,
}
use pi_poetry.Base.Lists.{length-append}
use pi_poetry.Analyzer.Chunks.{Range, Scan, scan_byte, scan_bytes, scan_starts, on_open, cut_loop}
use pi_poetry.Analyzer.Chunks.Texts.{
  opening, closing, text, Element, object_text, elements_text, IsElement, spans,
}
use pi_poetry.Analyzer.Chunks.Scanning.{
  at, scan_bytes-cons, opening_byte, scan_bytes-text, scan_bytes-gap,
}

-- Between the objects: `count` of them so far, from `first` to `end`.
abbrev pub between : ℕ → ℕ → ℕ → ℕ → List ℕ → List Range → Scan
between pos count first end targets cuts = record {
  pos = pos;
  depth = 0;
  in_string = false;
  escape = false;
  object_count = count;
  targets = targets;
  cuts = cuts;
  first_object_start = first;
  prev_object_end = end;
  last_object_end = end;
  finished = false;
}

object_closes :
    (square : Bool) (pos count first end : ℕ) (targets : List ℕ) (cuts : List Range)
    → scan_byte (at (between pos count first end targets cuts) pos 1) (closing square)
      ≡ between (pos + 1) (count + 1) first (pos + 1) targets cuts
unfolding scan_byte
object_closes true pos count first end targets cuts = refl
object_closes false pos count first end targets cuts = refl

-- An object, once its opening bracket has made the new targets and cuts.
scan_bytes-object :
    (o : Element) (s : Scan) (pos count first end : ℕ) (targets : List ℕ) (cuts : List Range)
    (rest : Bytes)
    → IsElement o
    → on_open (at s pos 0) ≡ at (between pos count first end targets cuts) (pos + 1) 1
    → scan_bytes (at s pos 0) (object_text o ++ rest) ≡ (
        let e = pos + length (object_text o) in
        scan_bytes (between e (count + 1) first e targets cuts) rest)
scan_bytes-object o s pos count first end targets cuts rest h opens =
    let b : Scan = between pos count first end targets cuts in
    let inside = pos + 1 + length (text o.inside) in
    let n = length-append (text o.inside) (closing o.square ∷ []) in
    let e : inside + 1 ≡ pos + length (object_text o) = omega arith in
    scan_bytes-cons (at s pos 0) (at b (pos + 1) 1) (opening o.square) _
      (opening_byte o.square s pos 0 ∙ opens) refl
    ∙ ap (scan_bytes (at b (pos + 1) 1)) (append_assoc (text o.inside) (closing o.square ∷ []) rest)
    ∙ scan_bytes-text o.inside b (pos + 1) 0 (closing o.square ∷ rest) h.1
    ∙ scan_bytes-cons (at b inside 1)
        (between (inside + 1) (count + 1) first (inside + 1) targets cuts) (closing o.square) rest
        (object_closes o.square inside count first end targets cuts) refl
    ∙ ap (λ e. scan_bytes (between e (count + 1) first e targets cuts) rest) e

-- The first object.
pub scan_bytes-first :
    (o : Element) (start : ℕ) (targets : List ℕ) (rest : Bytes)
    → IsElement o
    → scan_bytes (scan_starts start targets) (o.gap ++ (object_text o ++ rest)) ≡ (
        let s = start + length o.gap in
        let e = s + length (object_text o) in scan_bytes (between e 1 s e targets []) rest)
scan_bytes-first o start targets rest h =
    let s : Scan = scan_starts start targets in
    let p = start + length o.gap in
    scan_bytes-gap o.gap s start 0 (object_text o ++ rest) h.0
    ∙ scan_bytes-object o s p 0 p start targets [] rest h refl

-- What the loop makes of the targets and the cuts at the objects after the first one.
abbrev pub cut_all : ℕ → List Range → List ℕ × List Range → List ℕ × List Range
cut_all end [] t = t
cut_all end (s ∷ later) t = cut_all s.1 later (cut_loop (end, s.0) t.0 t.1)

abbrev pub last_end : ℕ → List Range → ℕ
last_end end [] = end
last_end end (s ∷ later) = last_end s.1 later

pub scan_bytes-elements :
    (os : List Element) (count first end : ℕ) (targets : List ℕ) (cuts : List Range) (rest : Bytes)
    → All IsElement os
    → scan_bytes (between end (suc count) first end targets cuts) (elements_text os ++ rest) ≡ (
        let t = cut_all end (spans end os) (targets, cuts) in
        let e = last_end end (spans end os) in
        scan_bytes (between e (suc count + length os) first e t.0 t.1) rest)
scan_bytes-elements [] count first end targets cuts rest h =
    ap (λ n. scan_bytes (between end n first end targets cuts) rest)
      (let e : suc count ≡ suc count + 0 = omega arith in e)
scan_bytes-elements (o ∷ os) count first end targets cuts rest h =
    let s : Scan = between end (suc count) first end targets cuts in
    let p = end + length o.gap in
    let e = p + length (object_text o) in
    let t = cut_loop (end, p) targets cuts in
    let all = cut_all end (spans end (o ∷ os)) (targets, cuts) in
    let f = last_end end (spans end (o ∷ os)) in
    ap (scan_bytes s) (
      append_assoc o.gap (object_text o ++ elements_text os) rest
      ∙ ap (◌++◌ o.gap) (append_assoc (object_text o) (elements_text os) rest))
    ∙ scan_bytes-gap o.gap s end 0 (object_text o ++ (elements_text os ++ rest)) h.0.0
    ∙ scan_bytes-object o s p (suc count) first end t.0 t.1 (elements_text os ++ rest) h.0 refl
    ∙ ap (λ n. scan_bytes (between e n first e t.0 t.1) (elements_text os ++ rest))
        (let m : suc count + 1 ≡ suc (suc count) = omega arith in m)
    ∙ scan_bytes-elements os (suc count) first e t.0 t.1 rest h.1
    ∙ ap (λ n. scan_bytes (between f n first f all.0 all.1) rest)
        (let m : suc (suc count) + length os ≡ suc count + suc (length os) = omega arith in m)
