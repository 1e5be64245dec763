-- ===== src/Analyzer/Files.antt =====
-- `PhraseFileWriter` and `merge_part_files` of src/result_analyzer/ResultAnalyzer.cpp. A writer is the
-- map of its files by length, each with the bytes that were written to it; a directory is the list of its
-- files, each with its name.
pub mod Names
pub mod Contents
pub mod Lengths
pub mod Merging
mod Tests
use pi_poetry.Base.{
  ℕ, ◌+◌, ◌-◌, Bool, true, false, Option, none, some, List, [], ◌∷◌, ◌++◌, map, ◌==◌, leb,
  if◌then◌else◌, length, take, drop, Bytes, bytes, bytes_eq,
}
use pi_poetry.Base.Map.{Map, find, insert}
use pi_poetry.Base.Strings.{to_string, stoul}
use pi_poetry.Analyzer.Stats.{Phrase}

abbrev pub Files : Type 0
Files = Map Bytes

abbrev pub Directory : Type 0
Directory = List (Bytes × Bytes)

abbrev pub or_nothing : Option Bytes → Bytes
or_nothing none = []
or_nothing (some s) = s

-- The line of a phrase.
abbrev pub words_text : List Bytes → Bytes
words_text [] = []
words_text (w ∷ words) = 32 ∷ (w ++ words_text words)

abbrev pub file_line : Phrase → Bytes
file_line p = to_string p.start_offset ++ (b':' ∷ (words_text p.words ++ (10 ∷ [])))

-- `write_phrase`: a file that is not there yet is opened, and empty.
unfoldable pub write_phrase : Files → Phrase → Files
write_phrase files p =
    let len = length p.words in insert len (or_nothing (find len files) ++ file_line p) files

unfoldable pub write_phrases : Files → List Phrase → Files
unfolding write_phrase
write_phrases files [] = files
write_phrases files (p ∷ ps) = write_phrases (write_phrase files p) ps

-- The files of a writer in its directory.
abbrev pub name_prefix : Bytes
name_prefix = bytes "phrases_length_"

abbrev pub name_suffix : Bytes
name_suffix = bytes ".txt"

abbrev pub file_name : ℕ → Bytes
file_name len = name_prefix ++ (to_string len ++ name_suffix)

abbrev pub directory : Files → Directory
directory = map (λ file. (file_name file.0, file.1))

-- The length in the name of a file; other files are skipped, and a name without a number makes `stoul`
-- throw.
pub data Name : Type 0 where
  skipped refused : Name
  of_length : (len : ℕ) → Name

abbrev pub starts_with : Bytes → Bytes → Bool
starts_with name text = bytes_eq (take (length text) name) text

abbrev pub ends_with : Bytes → Bytes → Bool
ends_with name text = bytes_eq (drop (length name - length text) name) text

abbrev pub read_length : Option ℕ → Name
read_length none = refused
read_length (some len) = of_length len

abbrev pub name_length : Bytes → Name
name_length name =
    let len_str =
      take (length name - length name_prefix - length name_suffix)
        (drop (length name_prefix) name) in
    if leb (length name) (length name_prefix + length name_suffix)
    then skipped
    else if starts_with name name_prefix
    then if ends_with name name_suffix then read_length (stoul len_str) else skipped
    else skipped

-- The set of the lengths, as the map of its members; `none` for the exception.
abbrev pub Member : Type 0
Member = Unit

abbrev pub Lengths : Type 0
Lengths = Map Member

abbrev pub add_name : Name → Lengths → Option Lengths
add_name skipped lengths = some lengths
add_name refused lengths = none
add_name (of_length len) lengths = some (insert len tt lengths)

-- The loop over the files of a directory.
unfoldable pub add_names : Directory → Option Lengths → Option Lengths
add_names dir none = none
add_names [] (some lengths) = some lengths
add_names ((name, content) ∷ dir) (some lengths) =
    add_names dir (add_name (name_length name) lengths)

-- The loop over the parts.
unfoldable pub lengths_of : List Directory → Option Lengths → Option Lengths
unfolding add_names
lengths_of [] lengths = lengths
lengths_of (dir ∷ parts) lengths = lengths_of parts (add_names dir lengths)

abbrev pub read_file : Bytes → Directory → Option Bytes
read_file name [] = none
read_file name ((n, content) ∷ dir) = if bytes_eq n name then some content else read_file name dir

-- The files of one name, one after the other.
abbrev pub joined : Bytes → List Directory → Bytes
joined name [] = []
joined name (dir ∷ parts) = or_nothing (read_file name dir) ++ joined name parts

abbrev pub merged_files : List Directory → Lengths → Directory
merged_files parts [] = []
merged_files parts ((len, _) ∷ lengths) =
    (file_name len, joined (file_name len) parts) ∷ merged_files parts lengths

abbrev pub merged_of : List Directory → Option Lengths → Option Directory
merged_of parts none = none
merged_of parts (some lengths) = some (merged_files parts lengths)

-- `merge_part_files`: the files that it writes.
unfoldable pub merge_part_files : List Directory → Option Directory
unfolding lengths_of
merge_part_files parts = merged_of parts (lengths_of parts (some []))
