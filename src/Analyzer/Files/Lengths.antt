-- ===== src/Analyzer/Files/Lengths.antt =====
-- The set of the lengths that occur in the names of the parts' files.
use pi_poetry.Base.{
  ℕ, ◌^◌, ◌<◌, ◌≡◌, refl, sym, ap, ◌∙◌, Option, none, some, List, [], ◌∷◌, arith, All, ◌==◌, length,
  Bytes, Bool-cases, inl, inr, map,
}
use pi_poetry.Base.Map.{find, insert, From, insert-From, find-insert}
use pi_poetry.Analyzer.Stats.{Phrase}
use pi_poetry.Analyzer.Files.{
  Files, Directory, write_phrase, write_phrases, directory, Member, Lengths, add_name, add_names,
  lengths_of,
}
use pi_poetry.Analyzer.Files.Names.{name_length-file_name}
use pi_poetry.Analyzer.Files.Contents.{content, find-write_phrases}

-- A phrase whose number of words fits into 64 bits, as the size of every vector does.
abbrev pub IsShort : Phrase → Type 0
IsShort p = length p.words < 2 ^ 64

abbrev KeyFits : ℕ × Bytes → Type 0
KeyFits file = file.0 < 2 ^ 64

insert-KeyFits :
    (k : ℕ) (v : Bytes) (files : Files)
    → k < 2 ^ 64
    → All KeyFits files
    → All KeyFits (insert k v files)
unfolding insert
insert-KeyFits k v [] h all = (h, tt)
insert-KeyFits k v ((j, w) ∷ files) h all = ground (arith, insert-KeyFits k v files h all.1)

write_phrases-KeyFits :
    (files : Files) (ps : List Phrase)
    → All IsShort ps
    → All KeyFits files
    → All KeyFits (write_phrases files ps)
unfolding write_phrases write_phrase
write_phrases-KeyFits files [] h all = all
write_phrases-KeyFits files (p ∷ ps) h all =
    write_phrases-KeyFits (write_phrase files p) ps h.1
      (insert-KeyFits (length p.words) _ files h.0 all)

-- Members of sets of lengths.
abbrev pub either : Option Member → Option Member → Option Member
either none b = b
either (some a) b = some tt

abbrev pub has : Option Bytes → Option Member
has none = none
has (some s) = some tt

either-some : (a : Option Member) → either a (some tt) ≡ some tt
either-some none = refl
either-some (some a) = refl

either_assoc : (a b c : Option Member) → either (either a b) c ≡ either a (either b c)
either_assoc none b c = refl
either_assoc (some a) b c = refl

-- The set of lengths with those of a directory added.
pub record Adds (before after : Lengths) (more : ℕ → Option Member) : Type 0 where
  pub sorted : From 0 after
  pub members : (len : ℕ) → find len after ≡ either (find len before) (more len)

add_names-Adds :
    (files : Files) (lengths : Lengths)
    → All KeyFits files
    → From 0 lengths
    → (after : Lengths) × (add_names (directory files) (some lengths) ≡ some after)
      × Adds lengths after (λ len. has (find len files))
unfolding add_names find
add_names-Adds [] lengths fits h = (
  lengths,
  refl,
  record {
    sorted = h;
    members =
        λ len. elim (find len lengths) as (λ o. o ≡ either o none) [ none ↦ refl | some u ↦ refl ];
  },
)
add_names-Adds ((j, text) ∷ files) lengths fits h =
    let more = insert j tt lengths in
    let (after, e, adds) =
      add_names-Adds files more fits.1 (insert-From j 0 tt lengths h (omega arith)) in
    (
      after,
      ap (λ n. add_names (directory files) (add_name n lengths)) (name_length-file_name j fits.0)
          ∙ e,
      record {
        sorted = adds.sorted;
        members = λ len.
            adds.members len
            ∙ ap (λ o. either o (has (find len files))) (find-insert j len 0 tt lengths h)
            ∙ elim (Bool-cases (j == len)) [
              | inl same ↦ rw same (sym (either-some (find len lengths)))
              | inr other ↦ rw other refl
            ];
      },
    )

abbrev pub part_files : List (List Phrase) → List Directory
part_files = map (λ ps. directory (write_phrases [] ps))

abbrev pub present : ℕ → List (List Phrase) → Option Member
present len [] = none
present len (part ∷ parts) = either (has (content len none part)) (present len parts)

pub lengths_of-Adds :
    (parts : List (List Phrase)) (lengths : Lengths)
    → All (All IsShort) parts
    → From 0 lengths
    → (after : Lengths) × (lengths_of (part_files parts) (some lengths) ≡ some after)
      × Adds lengths after (λ len. present len parts)
unfolding lengths_of find
lengths_of-Adds [] lengths short h = (
  lengths,
  refl,
  record {
    sorted = h;
    members =
        λ len. elim (find len lengths) as (λ o. o ≡ either o none) [ none ↦ refl | some u ↦ refl ];
  },
)
lengths_of-Adds (part ∷ parts) lengths short h =
    let files = write_phrases [] part in
    let (more, e, adds) =
      add_names-Adds files lengths (write_phrases-KeyFits [] part short.0 tt) h in
    let (after, f, rest) = lengths_of-Adds parts more short.1 adds.sorted in
    (
      after,
      ap (lengths_of (part_files parts)) e ∙ f,
      record {
        sorted = rest.sorted;
        members = λ len.
            rest.members len
            ∙ ap (λ o. either o (present len parts))
                (adds.members len
                  ∙ ap (λ o. either (find len lengths) (has o)) (find-write_phrases len [] part tt))
            ∙ either_assoc (find len lengths) (has (content len none part)) (present len parts);
      },
    )
