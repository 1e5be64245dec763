-- ===== src/Digits/MappingFile/Fresh.antt =====
-- No two entry lines of a file that loads are for the same combo.
use pi_poetry.Base.{
  ℕ, ◌≡◌, ◌≢◌, sym, ap, ◌∙◌, subst, none, some, List, [], ◌∷◌, All, set, length, Bytes, ◌^◌, ◌<◌,
  arith,
}
use pi_poetry.Base.Update.{length-set, get_or-set_same, get_or-set_other}
use pi_poetry.Base.Result.{ok, ◌>>=◌, bind-eq-ok}
use pi_poetry.Digits.MappingFile.{Table, add_entry, read_entry, read_entries}
use pi_poetry.Digits.MappingFile.Loading.{Reads, seen_at, add_entry-ok, read_entry-lt}

-- The values of the entries differ.
abbrev pub Distinct : List (Bytes × ℕ × ℕ) → Type 0
Distinct [] = Unit
Distinct ((combo, value, c) ∷ es) = All (λ e. e.1 ≢ value) es × Distinct es

abbrev Free : Table → List (Bytes × ℕ × ℕ) → Type 0
Free table es = All (λ e. seen_at table e.1 ≡ none) es

module _ (table : Table) (value c : ℕ) (h : value < length table) where
  Free-ne :
      (es : List (Bytes × ℕ × ℕ)) → Free (set table value (some c)) es → All (λ e. e.1 ≢ value) es
  Free-ne [] f = tt
  Free-ne ((combo, v, d) ∷ es) (f, fs) = (
    λ e.
        let g : some c ≡ none =
          sym (get_or-set_same table value (some c) none h)
          ∙ ap (seen_at (set table value (some c))) (sym e)
          ∙ f in
        cc g,
    Free-ne es fs,
  )

  Free-set :
      (es : List (Bytes × ℕ × ℕ))
      → Free (set table value (some c)) es
      → All (λ e. e.1 ≢ value) es
      → Free table es
  Free-set [] f n = tt
  Free-set ((combo, v, d) ∷ es) (f, fs) (n, ns) =
      (sym (get_or-set_other table value v (some c) none h (λ e. n (sym e))) ∙ f, Free-set es fs ns)

read_entries-Free :
    (dpc base : ℕ) (table : Table) (entries : List Bytes) (es : List (Bytes × ℕ × ℕ))
    (after : Table)
    → length table ≡ base ^ dpc
    → Reads dpc base entries es
    → read_entries dpc base table entries ≡ ok after
    → Free table es × Distinct es
unfolding read_entries
read_entries-Free dpc base table [] [] after size r e = (tt, tt)
read_entries-Free dpc base table [] (x ∷ es) after size r e = absurd (cc r)
read_entries-Free dpc base table (line ∷ entries) [] after size r e = absurd (cc r)
read_entries-Free dpc base table (line ∷ entries) ((combo, value, c) ∷ es) after size r e =
    let (entry, read, rest) = bind-eq-ok (read_entry dpc base line) _ after e in
    let front : read_entry dpc base line ≡ ok (combo, value, c) = cc r in
    let back : Reads dpc base entries es = cc r in
    let both : ok entry ≡ ok (combo, value, c) = sym read ∙ front in
    let is : entry ≡ (combo, value, c) = cc both in
    let rest' =
      subst (λ x. (add_entry table x >>= (λ t. read_entries dpc base t entries)) ≡ ok after) is
        rest in
    let (table', add, more) = bind-eq-ok (add_entry table (combo, value, c)) _ after rest' in
    let (free, made) = add_entry-ok table combo value c table' add in
    let lt : value < length table =
      omega (arith, read_entry-lt dpc base line combo value c front) in
    let size' : length table' ≡ base ^ dpc =
      ap length made ∙ length-set table value (some c) ∙ size in
    let (frees, distinct) = read_entries-Free dpc base table' entries es after size' back more in
    let frees' = subst (λ t. Free t es) made frees in
    let apart = Free-ne table value c lt es frees' in
    ((free, Free-set table value c lt es frees' apart), (apart, distinct))

pub read_entries-Distinct :
    (dpc base : ℕ) (table : Table) (entries : List Bytes) (es : List (Bytes × ℕ × ℕ))
    (after : Table)
    → length table ≡ base ^ dpc
    → Reads dpc base entries es
    → read_entries dpc base table entries ≡ ok after
    → Distinct es
read_entries-Distinct dpc base table entries es after size r e =
    (read_entries-Free dpc base table entries es after size r e).1
