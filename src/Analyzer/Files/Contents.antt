-- ===== src/Analyzer/Files/Contents.antt =====
-- What stands in a writer's files: for each length the lines of its phrases.
use pi_poetry.Base.{
  ℕ, ◌≡◌, refl, sym, ap, ◌∙◌, Option, none, some, List, [], ◌∷◌, ◌++◌, append_assoc, append-nil,
  arith, ◌==◌, if◌then◌else◌, length, Bytes, Bool-cases, inl, inr, concat,
}
use pi_poetry.Base.Map.{find, From, insert-From, find-insert}
use pi_poetry.Analyzer.Stats.{Phrase}
use pi_poetry.Analyzer.Files.{Files, or_nothing, file_line, write_phrase, write_phrases}

-- The content of the file of a length after more phrases.
abbrev pub content : ℕ → Option Bytes → List Phrase → Option Bytes
content len o [] = o
content len o (p ∷ ps) =
    content len (if length p.words == len then some (or_nothing o ++ file_line p) else o) ps

pub write_phrases-From :
    (files : Files) (ps : List Phrase) → From 0 files → From 0 (write_phrases files ps)
unfolding write_phrases write_phrase
write_phrases-From files [] h = h
write_phrases-From files (p ∷ ps) h =
    write_phrases-From (write_phrase files p) ps
      (insert-From (length p.words) 0 _ files h (omega arith))

pub find-write_phrases :
    (len : ℕ) (files : Files) (ps : List Phrase)
    → From 0 files
    → find len (write_phrases files ps) ≡ content len (find len files) ps
unfolding write_phrases write_phrase
find-write_phrases len files [] h = refl
find-write_phrases len files (p ∷ ps) h =
    let n = length p.words in
    let v = or_nothing (find n files) ++ file_line p in
    let same : (if n == len then some v else find len files)
        ≡ (if n == len then some (or_nothing (find len files) ++ file_line p) else find len files) =
      elim (Bool-cases (n == len)) [
        | inl e ↦ rw e (
            ap (λ k. some (or_nothing (find k files) ++ file_line p))
              (let f : n ≡ len = ground arith in f))
        | inr ne ↦ rw ne refl
      ] in
    find-write_phrases len (write_phrase files p) ps (insert-From n 0 v files h (omega arith))
    ∙ ap (λ o. content len o ps) (find-insert n len 0 v files h ∙ same)

-- One file's content after another's.
abbrev pub join : Option Bytes → Option Bytes → Option Bytes
join none b = b
join (some a) b = some (a ++ or_nothing b)

join-none : (a : Option Bytes) → join a none ≡ a
join-none none = refl
join-none (some a) = ap some (append-nil a)

join_line :
    (a b : Option Bytes) (line : Bytes)
    → some (or_nothing (join a b) ++ line) ≡ join a (some (or_nothing b ++ line))
join_line none b line = refl
join_line (some s) b line = ap some (append_assoc s (or_nothing b) line)

pub content-join :
    (len : ℕ) (a b : Option Bytes) (ps : List Phrase)
    → content len (join a b) ps ≡ join a (content len b ps)
content-join len a b [] = refl
content-join len a b (p ∷ ps) = elim (Bool-cases (length p.words == len)) [
  | inl e ↦ rw e (
      ap (λ o. content len o ps) (join_line a b (file_line p))
      ∙ content-join len a (some (or_nothing b ++ file_line p)) ps)
  | inr ne ↦ rw ne (content-join len a b ps)
]

content-append :
    (len : ℕ) (ps qs : List Phrase) (o : Option Bytes)
    → content len o (ps ++ qs) ≡ content len (content len o ps) qs
content-append len [] qs o = refl
content-append len (p ∷ ps) qs o = content-append len ps qs _

-- The contents of the parts, joined, are the content of all phrases.
abbrev pub joined_contents : ℕ → List (List Phrase) → Option Bytes
joined_contents len [] = none
joined_contents len (part ∷ parts) = join (content len none part) (joined_contents len parts)

pub content-concat :
    (len : ℕ) (parts : List (List Phrase))
    → content len none (concat parts) ≡ joined_contents len parts
content-concat len [] = refl
content-concat len (part ∷ parts) =
    let front = content len none part in
    content-append len part (concat parts) none
    ∙ ap (λ o. content len o (concat parts)) (sym (join-none front))
    ∙ content-join len front none (concat parts)
    ∙ ap (join front) (content-concat len parts)
