-- ===== src/Digits/MappingFile/Loaded.antt =====
-- A mapping file that loads gives the mapper that its lines describe.
use pi_poetry.Base.{
  ℕ, ◌≤◌, ◌≡◌, ◌↔◌, ◌^◌, ◌-◌, sym, ap, ◌∙◌, subst, Option, none, some, inl, inr, List, [], map,
  length, get_elem?, Bytes, Has,
}
use pi_poetry.Base.Result.{ok, bind-eq-ok}
use pi_poetry.Base.Strings.{lines}
use pi_poetry.Digits.MappingFile.{
  MappingFileMapper, missing_digits_per_char, missing_base, sort_lines, read_headers, require,
  pow_int, blank, add_characters, read_entries, full_table, load,
}
use pi_poetry.Digits.MappingFile.Numbers.{pow_int-eq-pow}
use pi_poetry.Digits.MappingFile.Headers.{Between, read_headers-Ranges, require-ok}
use pi_poetry.Digits.MappingFile.Fresh.{Distinct, read_entries-Distinct}
use pi_poetry.Digits.MappingFile.Loading.{
  Reads, Filled, assigns, read_entries-Filled, full_table-ok, blank-none, length-blank, seen_at-map,
  length-map_some,
}

-- What the file `file` says of the mapper `m`.
pub record Describes (file : Bytes) (m : MappingFileMapper) : Type 0 where
  pub some_digits : 1 ≤ m.digits_per_char
  pub base_range : (2 ≤ m.base) × (m.base ≤ 10)
  -- The table has a slot for every combo.
  pub size : length m.table ≡ m.base ^ m.digits_per_char
  -- Every entry line is one combo and one character, no two are for the same combo, and the table is
  -- what they say.
  pub entries : List (Bytes × ℕ × ℕ)
  pub reads : Reads m.digits_per_char m.base (sort_lines (lines file)).1 entries
  pub distinct : Distinct entries
  pub table_says : (v c : ℕ) → (get_elem? m.table v ≡ some c) ↔ Has (v, c) (map assigns entries)

table-Filled :
    (seen : List (Option ℕ)) (size : ℕ) (table : List ℕ) (es : List (Bytes × ℕ × ℕ))
    → seen ≡ map some table
    → Filled (blank size) es seen
    → (v c : ℕ) → (get_elem? table v ≡ some c) ↔ Has (v, c) (map assigns es)
table-Filled seen size table es whole filled v c =
    let all = subst (λ t. Filled (blank size) es t) whole filled v c in
    (
      λ h. elim (all.0 (seen_at-map table v ∙ h)) [
        | inl old ↦ let g : none ≡ some c = sym (blank-none size v) ∙ old in absurd (cc g)
        | inr new ↦ new
      ],
      λ h. sym (seen_at-map table v) ∙ all.1 (inr h),
    )

-- A file that loads describes its mapper: the numbers are in range, every entry line is well formed,
-- no two are for the same combo, and the table has the character `c` at `v` exactly when one of the lines says so, with no slot of
-- the base to the power of the digits left out.
pub load-Describes : (file : Bytes) (m : MappingFileMapper) → load file ≡ ok m → Describes file m
unfolding load
load-Describes file m e =
    let sorted = sort_lines (lines file) in
    let (found, headers, e1) = bind-eq-ok (read_headers sorted.0 none none) _ m e in
    let (dpc, has_dpc, e2) = bind-eq-ok (require missing_digits_per_char found.0) _ m e1 in
    let (base, has_base, e3) = bind-eq-ok (require missing_base found.1) _ m e2 in
    let (size, power, e4) = bind-eq-ok (pow_int base dpc) _ m e3 in
    let (seen, read, e5) = bind-eq-ok (read_entries dpc base (blank size) sorted.1) _ m e4 in
    let (table, full, e6) = bind-eq-ok (full_table dpc base 0 seen) _ m e5 in
    let ranges = read_headers-Ranges sorted.0 none none found (tt, tt) headers in
    let low = subst (Between 1 (2 ^ 31 - 1)) (require-ok _ found.0 dpc has_dpc) ranges.0 in
    let in_base = subst (Between 2 10) (require-ok _ found.1 base has_base) ranges.1 in
    let is_size = length-blank size ∙ pow_int-eq-pow base dpc size power in
    let (es, reads, filled, full_size) =
      read_entries-Filled dpc base (blank size) sorted.1 seen is_size read in
    let whole = full_table-ok dpc base 0 seen table full in
    let made : MappingFileMapper = record {
      digits_per_char = dpc;
      base = base;
      table = table;
      alphabet = add_characters [] table;
    } in
    let same : made ≡ m = cc e6 in
    subst (Describes file) same (record {
      some_digits = low.0;
      base_range = in_base;
      size = sym (length-map_some table) ∙ ap length (sym whole) ∙ full_size;
      entries = es;
      reads = reads;
      distinct = read_entries-Distinct dpc base (blank size) sorted.1 es seen is_size reads read;
      table_says = table-Filled seen size table es whole filled;
    })
