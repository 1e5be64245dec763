-- ===== src/Digits/MappingFile/Lines.antt =====
-- The lines of a mapping file: what `trim`, `find` and the first loop make of them.
use pi_poetry.Base.{
  ℕ, ◌≡◌, refl, ap, ◌∙◌, false, Option, none, some, List, [], ◌∷◌, ◌++◌, All, All-append, ◌==◌,
  arith, Bytes,
}
use pi_poetry.Base.Strings.{is_space}
use pi_poetry.Digits.MappingFile.{is_blank, trim_back, trim, split_eq, sort_kept, sort_line}

-- A byte that stands for itself in a line.
abbrev pub Plain : ℕ → Type 0
Plain c = (is_space c ≡ false) × (c == b'=' ≡ false) × (c == b'#' ≡ false)

pub Plain-is_blank : (c : ℕ) → Plain c → is_blank c ≡ false
Plain-is_blank c (space, eq, hash) = ground arith

trim_back-append :
    (xs : Bytes) (c : ℕ) → is_blank c ≡ false → trim_back (xs ++ (c ∷ [])) ≡ xs ++ (c ∷ [])
trim_back-append [] c h = rw h refl
trim_back-append (x ∷ []) c h = rw (trim_back-append [] c h, trim_back) refl
trim_back-append (x ∷ y ∷ xs) c h = rw (trim_back-append (y ∷ xs) c h, trim_back) refl

-- A line is trimmed already if it begins and ends with no blank.
pub trim-ends :
    (c : ℕ) (xs : Bytes) (d : ℕ)
    → is_blank c ≡ false
    → is_blank d ≡ false
    → trim (c ∷ (xs ++ (d ∷ []))) ≡ c ∷ (xs ++ (d ∷ []))
trim-ends c xs d hc hd = rw hc (trim_back-append (c ∷ xs) d hd)

abbrev Unblank : ℕ → Type 0
Unblank c = is_blank c ≡ false

trim_back-Unblank : (s : Bytes) → All Unblank s → trim_back s ≡ s
trim_back-Unblank [] h = refl
trim_back-Unblank (c ∷ []) (h, _) = rw h refl
trim_back-Unblank (c ∷ d ∷ s) (h, hs) = rw (trim_back-Unblank (d ∷ s) hs, trim_back) refl

trim-Unblank : (s : Bytes) → All Unblank s → trim s ≡ s
trim-Unblank [] h = refl
trim-Unblank (c ∷ s) (h, hs) = rw h (trim_back-Unblank (c ∷ s) (h, hs))

Plain-Unblank : (s : Bytes) → All Plain s → All Unblank s
Plain-Unblank [] h = tt
Plain-Unblank (c ∷ s) (h, hs) = (Plain-is_blank c h, Plain-Unblank s hs)

pub split_eq-Plain :
    (key val : Bytes) → All Plain key → split_eq (key ++ (b'=' ∷ val)) ≡ some (key, val)
split_eq-Plain [] val h = refl
split_eq-Plain (c ∷ key) val ((space, eq, hash), hs) = rw (eq, split_eq-Plain key val hs) refl

pub split_eq-none : (s : Bytes) → All (λ c. c == b'=' ≡ false) s → split_eq s ≡ none
split_eq-none [] h = refl
split_eq-none (c ∷ s) (h, hs) = rw (h, split_eq-none s hs) refl

sort_kept-some :
    (line : Bytes) (o : Option (Bytes × Bytes)) (key val : Bytes) (headers : List (Bytes × Bytes))
    (entries : List Bytes)
    → o ≡ some (key, val)
    → All Plain key
    → All Plain val
    → sort_kept line o (headers, entries) ≡ ((key, val) ∷ headers, entries)
sort_kept-some line o key val headers entries e hk hv =
    ap (λ o. sort_kept line o (headers, entries)) e
    ∙ rw (trim-Unblank key (Plain-Unblank key hk), trim-Unblank val (Plain-Unblank val hv)) refl

-- A header line gives its key and its value.
pub sort_line_header :
    (c : ℕ) (key val : Bytes) (headers : List (Bytes × Bytes)) (entries : List Bytes)
    → All Plain (c ∷ key)
    → All Plain val
    → sort_line (trim (c ∷ (key ++ (b'=' ∷ val)))) (headers, entries)
      ≡ ((c ∷ key, val) ∷ headers, entries)
sort_line_header c key val headers entries hk hv =
    let line = c ∷ (key ++ (b'=' ∷ val)) in
    let unblank =
      All-append Unblank (c ∷ key) (b'=' ∷ val) (Plain-Unblank (c ∷ key) hk)
        (refl, Plain-Unblank val hv) in
    let (_, _, no_hash) = hk.0 in
    ap (λ s. sort_line s (headers, entries)) (trim-Unblank line unblank)
    ∙ rw no_hash (
        sort_kept-some line (split_eq line) (c ∷ key) val headers entries
          (split_eq-Plain (c ∷ key) val hk) hk hv)
