-- ===== src/GenMapping/Entries.antt =====
-- The entry lines that the generator writes fill the table slot by slot.
use pi_poetry.Base.{
  ℕ, zero, suc, ◌+◌, ◌^◌, ◌≤◌, ◌<◌, ◌≡◌, refl, sym, ap, ◌∙◌, subst, false, none, some, List, [],
  ◌∷◌, ◌++◌, append_assoc, map, arith, length, length-append, set, get_or, All, All-append, Bytes,
  ◌==◌,
}
use pi_poetry.Base.Result.{ok}
use pi_poetry.Base.Strings.{lines}
use pi_poetry.Base.Strings.Lines.{lines-append}
use pi_poetry.Digits.MappingFile.{
  Table, blank, add_entry, read_entries, full_table, trim, split_eq, sort_line, sort_kept,
  sort_lines,
}
use pi_poetry.Digits.MappingFile.Lines.{Plain, trim-ends, split_eq-none, Plain-is_blank}
use pi_poetry.GenMapping.{combo, numbered_from, entry_lines}
use pi_poetry.GenMapping.Combos.{All-Plain, combo-Decimal, read_entry-line, combo-cons}

module _ {A : Type 0} where
  get_or-append_at :
      (xs : List A) (y d : A) (ys : List A) (i : ℕ)
      → length xs ≡ i
      → get_or (xs ++ (y ∷ ys)) i d ≡ y
  get_or-append_at [] y d ys zero h = refl
  get_or-append_at [] y d ys (suc i) h = absurd (omega arith)
  get_or-append_at (x ∷ xs) y d ys zero h = absurd (omega arith)
  get_or-append_at (x ∷ xs) y d ys (suc i) h = get_or-append_at xs y d ys i (omega arith)

  set-append_at :
      (xs : List A) (y v : A) (ys : List A) (i : ℕ)
      → length xs ≡ i
      → set (xs ++ (y ∷ ys)) i v ≡ (xs ++ (v ∷ [])) ++ ys
  set-append_at [] y v ys zero h = refl
  set-append_at [] y v ys (suc i) h = absurd (omega arith)
  set-append_at (x ∷ xs) y v ys zero h = absurd (omega arith)
  set-append_at (x ∷ xs) y v ys (suc i) h = ap (◌∷◌ x) (set-append_at xs y v ys i (omega arith))

-- The lines of the entries.
abbrev pub line_of : Bytes × ℕ → Bytes
line_of (c, ch) = c ++ (32 ∷ ch ∷ [])

add_entry-next :
    (done : Table) (left i : ℕ) (c : Bytes) (ch : ℕ)
    → length done ≡ i
    → add_entry (done ++ blank (suc left)) (c, i, ch) ≡ ok ((done ++ (some ch ∷ [])) ++ blank left)
add_entry-next done left i c ch h =
    rw (get_or-append_at done none none (blank left) i h, add_entry)
      (ap ok (set-append_at done none (some ch) (blank left) i h))

-- The reader on the lines of consecutive combos.
pub read_entries-numbered :
    (k i : ℕ) (done : Table) (chars : List ℕ)
    → length done ≡ i
    → i + length chars ≤ 10 ^ suc k
    → All Plain chars
    → read_entries
        (suc k)
        10
        (done ++ blank (length chars))
        (map line_of (numbered_from (suc k) i chars))
      ≡ ok (done ++ map some chars)
unfolding read_entries
read_entries-numbered k i done [] at fits plain = refl
read_entries-numbered k i done (ch ∷ chars) at fits (p, ps) =
    let more : length (done ++ (some ch ∷ [])) ≡ suc i =
      omega (arith, length-append done (some ch ∷ [])) in
    rw
      (
        read_entry-line k i ch (omega arith) p,
        add_entry-next done (length chars) i (combo (suc k) i) ch at,
      )
      (read_entries-numbered k (suc i) (done ++ (some ch ∷ [])) chars more (omega arith) ps
        ∙ ap ok (append_assoc done (some ch ∷ []) (map some chars)))

pub full_table-some :
    (dpc base i : ℕ) (chars : List ℕ) → full_table dpc base i (map some chars) ≡ ok chars
unfolding full_table
full_table-some dpc base i [] = refl
full_table-some dpc base i (c ∷ chars) = rw (full_table-some dpc base (suc i) chars) refl

-- What the first loop makes of the entry lines.
pub no_breaks : (s : Bytes) → All Plain s → All (λ c. c == 10 ≡ false) s
no_breaks [] h = tt
no_breaks (c ∷ s) ((space, _, _), hs) = (ground arith, no_breaks s hs)

no_breaks_last : (ch : ℕ) → Plain ch → All (λ c. c == 10 ≡ false) (32 ∷ ch ∷ [])
no_breaks_last ch (space, _, _) = (refl, (ground arith, tt))

no_equals : (s : Bytes) → All Plain s → All (λ c. c == b'=' ≡ false) s
no_equals [] h = tt
no_equals (c ∷ s) ((_, eq, _), hs) = (eq, no_equals s hs)

sort_line-kept :
    (c : ℕ) (cs : Bytes) (headers : List (Bytes × Bytes)) (entries : List Bytes)
    → c == b'#' ≡ false
    → split_eq (c ∷ cs) ≡ none
    → sort_line (c ∷ cs) (headers, entries) ≡ (headers, (c ∷ cs) ∷ entries)
sort_line-kept c cs headers entries hash split =
    rw hash (ap (λ o. sort_kept (c ∷ cs) o (headers, entries)) split)

sort_line-entry :
    (k i ch : ℕ) (headers : List (Bytes × Bytes)) (entries : List Bytes)
    → i < 10 ^ suc k
    → Plain ch
    → sort_line (trim (line_of (combo (suc k) i, ch))) (headers, entries)
      ≡ (headers, line_of (combo (suc k) i, ch) ∷ entries)
sort_line-entry k i ch headers entries h plain =
    let (c, cs, e) = combo-cons k i h in
    let all = subst (All Plain) e (All-Plain (combo (suc k) i) (combo-Decimal (suc k) i)) in
    let line = c ∷ (cs ++ (32 ∷ ch ∷ [])) in
    let is : line_of (combo (suc k) i, ch) ≡ line = ap (λ s. s ++ (32 ∷ ch ∷ [])) e in
    let (_, _, no_hash) = all.0 in
    let regroup : c ∷ ((cs ++ (32 ∷ [])) ++ (ch ∷ [])) ≡ line =
      ap (◌∷◌ c) (append_assoc cs (32 ∷ []) (ch ∷ [])) in
    let trimmed : trim line ≡ line =
      ap trim (sym regroup)
      ∙ trim-ends c (cs ++ (32 ∷ [])) ch (Plain-is_blank c all.0) (Plain-is_blank ch plain)
      ∙ regroup in
    let split : split_eq line ≡ none = split_eq-none line (
      All-append (λ d. d == b'=' ≡ false) (c ∷ cs) (32 ∷ ch ∷ []) (no_equals (c ∷ cs) all)
        (refl, (plain.1, tt))) in
    ap (λ s. sort_line (trim s) (headers, entries)) is
    ∙ ap (λ s. sort_line s (headers, entries)) trimmed
    ∙ sort_line-kept c (cs ++ (32 ∷ ch ∷ [])) headers entries no_hash split
    ∙ ap (λ s. (headers, s ∷ entries)) (sym is)

lines-entries :
    (k i : ℕ) (chars : List ℕ)
    → i + length chars ≤ 10 ^ suc k
    → All Plain chars
    → lines (entry_lines (numbered_from (suc k) i chars))
      ≡ map line_of (numbered_from (suc k) i chars)
lines-entries k i [] fits plain = refl
lines-entries k i (ch ∷ chars) fits (p, ps) =
    let text = combo (suc k) i in
    let rest = entry_lines (numbered_from (suc k) (suc i) chars) in
    let plain = All-Plain text (combo-Decimal (suc k) i) in
    let unbroken =
      All-append (λ c. c == 10 ≡ false) text (32 ∷ ch ∷ []) (no_breaks text plain)
        (no_breaks_last ch p) in
    ap lines (sym (append_assoc text (32 ∷ ch ∷ []) (10 ∷ rest)))
    ∙ lines-append (text ++ (32 ∷ ch ∷ [])) rest unbroken
    ∙ ap (◌∷◌ (line_of (text, ch))) (lines-entries k (suc i) chars (omega arith) ps)

sort_lines-lines :
    (k i : ℕ) (chars : List ℕ)
    → i + length chars ≤ 10 ^ suc k
    → All Plain chars
    → sort_lines (map line_of (numbered_from (suc k) i chars))
      ≡ ([], map line_of (numbered_from (suc k) i chars))
sort_lines-lines k i [] fits plain = refl
sort_lines-lines k i (ch ∷ chars) fits (p, ps) =
    ap (sort_line (trim (line_of (combo (suc k) i, ch))))
      (sort_lines-lines k (suc i) chars (omega arith) ps)
    ∙ sort_line-entry k i ch [] (map line_of (numbered_from (suc k) (suc i) chars)) (omega arith) p

pub sort_lines-entries :
    (k i : ℕ) (chars : List ℕ)
    → i + length chars ≤ 10 ^ suc k
    → All Plain chars
    → sort_lines (lines (entry_lines (numbered_from (suc k) i chars)))
      ≡ ([], map line_of (numbered_from (suc k) i chars))
sort_lines-entries k i chars fits plain =
    ap sort_lines (lines-entries k i chars fits plain) ∙ sort_lines-lines k i chars fits plain
