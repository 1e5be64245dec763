-- ===== src/Analyzer/Files/Merging.antt =====
-- The merged files against those of one writer.
use pi_poetry.Base.{
  ℕ, suc, ◌≡◌, refl, sym, ap, ◌∙◌, Option, none, some, List, [], ◌∷◌, ◌++◌, arith, All, ◌==◌, Bytes,
  Bool-cases, inl, inr, concat, map,
}
use pi_poetry.Base.Map.{find, From, Map-ext}
use pi_poetry.Analyzer.Stats.{Phrase}
use pi_poetry.Analyzer.Files.{
  Files, Directory, or_nothing, file_name, write_phrases, directory, Member, Lengths, joined,
  merged_files, merged_of, merge_part_files,
}
use pi_poetry.Analyzer.Files.Names.{read_file-directory}
use pi_poetry.Analyzer.Files.Contents.{
  content, write_phrases-From, find-write_phrases, join, joined_contents, content-concat,
}
use pi_poetry.Analyzer.Files.Lengths.{IsShort, either, has, part_files, present, lengths_of-Adds}

present-joined :
    (len : ℕ) (parts : List (List Phrase)) → present len parts ≡ has (joined_contents len parts)
present-joined len [] = refl
present-joined len (part ∷ parts) =
    rw (present-joined len parts)
      (elim (content len none part)
        as (λ o.
          either (has o) (has (joined_contents len parts))
          ≡ has (join o (joined_contents len parts))) [ none ↦ refl | some s ↦ refl ])

joined-contents :
    (len : ℕ) (parts : List (List Phrase))
    → joined (file_name len) (part_files parts) ≡ or_nothing (joined_contents len parts)
unfolding find
joined-contents len [] = refl
joined-contents len (part ∷ parts) =
    rw
      (
        read_file-directory len (write_phrases [] part),
        find-write_phrases len [] part tt,
        joined-contents len parts,
      )
      (elim (content len none part)
        as (λ o.
          or_nothing o ++ or_nothing (joined_contents len parts)
          ≡ or_nothing (join o (joined_contents len parts))) [ none ↦ refl | some s ↦ refl ])

-- The merged files as a map by length.
abbrev by_length : List Directory → Lengths → Files
by_length parts [] = []
by_length parts ((len, _) ∷ lengths) = (len, joined (file_name len) parts) ∷ by_length parts lengths

merged_files-by_length :
    (parts : List Directory) (lengths : Lengths)
    → merged_files parts lengths ≡ directory (by_length parts lengths)
merged_files-by_length parts [] = refl
merged_files-by_length parts ((len, u) ∷ lengths) =
    ap (◌∷◌ (file_name len, joined (file_name len) parts)) (merged_files-by_length parts lengths)

by_length-From :
    (lo : ℕ) (parts : List Directory) (lengths : Lengths)
    → From lo lengths
    → From lo (by_length parts lengths)
by_length-From lo parts [] h = tt
by_length-From lo parts ((len, u) ∷ lengths) h = (h.0, by_length-From (suc len) parts lengths h.1)

abbrev if_member : Option Member → Bytes → Option Bytes
if_member none s = none
if_member (some u) s = some s

find-by_length :
    (len : ℕ) (parts : List Directory) (lengths : Lengths)
    → find len (by_length parts lengths)
      ≡ if_member (find len lengths) (joined (file_name len) parts)
unfolding find
find-by_length len parts [] = refl
find-by_length len parts ((j, u) ∷ lengths) = elim (Bool-cases (j == len)) [
  | inl same ↦
      rw same (ap (λ k. some (joined (file_name k) parts)) (let e : j ≡ len = ground arith in e))
  | inr other ↦ rw other (find-by_length len parts lengths)
]

-- When each part's phrases are written by a writer of their own, merging the parts' files leaves the
-- files, names and contents, that one writer makes of all phrases in the order of the parts; no phrase
-- has 2^64 words or more.
pub merge_part_files-eq-write_phrases :
    (parts : List (List Phrase))
    → All (All IsShort) parts
    → merge_part_files (map (λ ps. directory (write_phrases [] ps)) parts)
      ≡ some (directory (write_phrases [] (concat parts)))
unfolding merge_part_files find
merge_part_files-eq-write_phrases parts short =
    let (lengths, e, adds) = lengths_of-Adds parts [] short tt in
    let merged = by_length (part_files parts) lengths in
    let same : (len : ℕ) → find len merged ≡ find len (write_phrases [] (concat parts)) = λ len.
      find-by_length len (part_files parts) lengths
      ∙ rw (adds.members len, present-joined len parts, joined-contents len parts)
          (elim (joined_contents len parts) as (λ o. if_member (has o) (or_nothing o) ≡ o) [
            | none ↦ refl
            | some s ↦ refl
          ])
      ∙ sym (content-concat len parts)
      ∙ sym (find-write_phrases len [] (concat parts) tt) in
    ap (merged_of (part_files parts)) e
    ∙ ap some (merged_files-by_length (part_files parts) lengths)
    ∙ ap (λ m. some (directory m))
        (Map-ext 0 merged (write_phrases [] (concat parts))
          (by_length-From 0 (part_files parts) lengths adds.sorted)
          (write_phrases-From [] (concat parts) tt) same)
