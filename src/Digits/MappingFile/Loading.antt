-- ===== src/Digits/MappingFile/Loading.antt =====
-- What a mapping file that loads has.
use native.Mathlib.Decide.{ℕ_discrete}
use pi_poetry.Base.{
  ℕ, zero, suc, ◌^◌, ◌<◌, ◌≡◌, ◌⊎◌, ◌↔◌, refl, sym, ap, subst, ◌∙◌, Bool-cases, inl, inr, Option,
  none, some, Option-cases, List, [], ◌∷◌, map, length, set, get_or, get_elem?, arith, Bytes, Has,
  ◌==◌, if◌then◌else◌,
}
use pi_poetry.Base.Update.{length-set, get_or-set_same, get_or-set_other}
use pi_poetry.Base.Result.{Result, ok, err, bind-eq-ok}
use pi_poetry.Digits.MappingFile.Numbers.{combo_value-lt}
use pi_poetry.Digits.MappingFile.{
  wrong_length, two_words, one_character, combo_value, MappingError, Table, duplicate, blank,
  add_entry, read_entry, read_entries, full_table,
}

-- The entry lines, read one by one.
abbrev pub Reads : ℕ → ℕ → List Bytes → List (Bytes × ℕ × ℕ) → Type 0
Reads dpc base entries es = map (read_entry dpc base) entries ≡ map ok es

-- The value and the character of an entry.
abbrev pub assigns : Bytes × ℕ × ℕ → ℕ × ℕ
assigns (combo, value, c) = (value, c)

abbrev pub seen_at : Table → ℕ → Option ℕ
seen_at table v = get_or table v none

-- What the table has, in terms of the entries.
abbrev pub Filled : Table → List (Bytes × ℕ × ℕ) → Table → Type 0
Filled before es after =
    (v c : ℕ)
    → (seen_at after v ≡ some c) ↔ ((seen_at before v ≡ some c) ⊎ Has (v, c) (map assigns es))

pub add_entry-ok :
    (table : Table) (combo : Bytes) (value c : ℕ) (table' : Table)
    → add_entry table (combo, value, c) ≡ ok table'
    → (seen_at table value ≡ none) × (table' ≡ set table value (some c))
add_entry-ok table combo value c table' e = elim (Option-cases (seen_at table value)) [
  | inl free ↦ (
    free,
    let g : ok (set table value (some c)) ≡ ok table' = sym (rw (free, add_entry) refl) ∙ e in
        sym (cc g),
  )
  | inr (d, taken) ↦
      let g : err (duplicate combo) ≡ ok table' = sym (rw (taken, add_entry) refl) ∙ e in
      absurd (cc g)
]

-- A slot filled.
Filled-set :
    (table : Table) (value c : ℕ)
    → value < length table
    → seen_at table value ≡ none
    → (v d : ℕ)
    → (seen_at (set table value (some c)) v ≡ some d)
      ↔ ((seen_at table v ≡ some d) ⊎ ((v ≡ value) × (d ≡ c)))
Filled-set table value c h free v d = elim (ℕ_discrete value v) [
  | yes e ↦
      let new = get_or-set_same table value (some c) none h in
      let at : seen_at (set table value (some c)) v ≡ some c =
        ap (seen_at (set table value (some c))) (sym e) ∙ new in
      (
        λ f. let g : some c ≡ some d = sym at ∙ f in inr (sym e, sym (cc g)),
        λ s. elim s [
          | inl old ↦ let g : none ≡ some d = sym free ∙ ap (seen_at table) e ∙ old in absurd (cc g)
          | inr (_, same) ↦ at ∙ ap some (sym same)
        ],
      )
  | no other ↦
      let kept = get_or-set_other table value v (some c) none h other in
      (
        λ f. inl (sym kept ∙ f),
        λ s. elim s [ inl old ↦ kept ∙ old | inr (e, _) ↦ absurd (other (sym e)) ],
      )
]

Filled-cons :
    (table table' after : Table) (combo : Bytes) (value c : ℕ) (es : List (Bytes × ℕ × ℕ))
    → value < length table
    → seen_at table value ≡ none
    → table' ≡ set table value (some c)
    → Filled table' es after
    → Filled table ((combo, value, c) ∷ es) after
Filled-cons table table' after combo value c es h free is filled v d =
    let one = Filled-set table value c h free v d in
    let all = subst (λ t. Filled t es after) is filled v d in
    (
      λ f. elim (all.0 f) [
        | inl before ↦ elim (one.0 before) [
          | inl old ↦ inl old
          | inr (at, same) ↦ inr (inl (cc (at, same)))
        ]
        | inr later ↦ inr (inr later)
      ],
      λ s. elim s [
        | inl old ↦ all.1 (inl (one.1 (inl old)))
        | inr (inl e) ↦ all.1 (inl (one.1 (inr (ap (λ q. q.0) e, ap (λ q. q.1) e))))
        | inr (inr later) ↦ all.1 (inr later)
      ],
    )

fits :
    (dpc : ℕ) (combo combo' : Bytes) (line : Bytes)
    → (if length combo == dpc then ok combo else err (wrong_length line)) ≡ ok combo'
    → length combo' ≡ dpc
fits dpc combo combo' line e = elim (Bool-cases (length combo == dpc)) [
  | inl same ↦
      let g : ok combo ≡ ok combo' = sym (rw same refl) ∙ e in
      let is : combo ≡ combo' = cc g in
      let n : length combo ≡ dpc = ground arith in ap length (sym is) ∙ n
  | inr other ↦
      let g : err (wrong_length line) ≡ ok combo' = sym (rw other refl) ∙ e in absurd (cc g)
]

entry_value :
    (a b : Bytes) (n c value d : ℕ)
    → ◌≡◌ {A = Result MappingError (Bytes × ℕ × ℕ)} (ok (a, n, c)) (ok (b, value, d))
    → n ≡ value
entry_value a b n c value d e = cc e

pub read_entry-lt :
    (dpc base : ℕ) (line combo : Bytes) (value c : ℕ)
    → read_entry dpc base line ≡ ok (combo, value, c)
    → value < base ^ dpc
unfolding read_entry
read_entry-lt dpc base line combo value c e =
    let (words, two, e1) = bind-eq-ok (two_words line) _ (combo, value, c) e in
    let (combo', fit, e2) = bind-eq-ok _ _ (combo, value, c) e1 in
    let (c', one, e3) = bind-eq-ok (one_character line words.1) _ (combo, value, c) e2 in
    let (n, val, e4) = bind-eq-ok (combo_value base line 0 combo') _ (combo, value, c) e3 in
    let same = entry_value combo' combo n c' value c e4 in
    let bound = combo_value-lt base line 0 combo' n val in
    let size : base ^ length combo' ≡ base ^ dpc =
      ap (λ k. base ^ k) (fits dpc words.0 combo' line fit) in
    omega arith

-- The loop over the entry lines fills the slots that they name, and no others.
pub read_entries-Filled :
    (dpc base : ℕ) (table : Table) (entries : List Bytes) (after : Table)
    → length table ≡ base ^ dpc
    → read_entries dpc base table entries ≡ ok after
    → (es : List (Bytes × ℕ × ℕ)) × Reads dpc base entries es
      × Filled table es after
      × (length after ≡ base ^ dpc)
unfolding read_entries
read_entries-Filled dpc base table [] after size e =
    let same : table ≡ after = cc e in
    (
      [],
      refl,
      λ v c. rw (← same) (λ h. inl h, λ s. elim s [ inl h ↦ h | inr h ↦ absurd h ]),
      rw (← same) size,
    )
read_entries-Filled dpc base table (line ∷ entries) after size e =
    let ((combo, value, c), read, rest) = bind-eq-ok (read_entry dpc base line) _ after e in
    let (table', add, more) = bind-eq-ok (add_entry table (combo, value, c)) _ after rest in
    let (free, is) = add_entry-ok table combo value c table' add in
    let lt : value < length table = omega (arith, read_entry-lt dpc base line combo value c read) in
    let size' : length table' ≡ base ^ dpc =
      ap length is ∙ length-set table value (some c) ∙ size in
    let (es, reads, filled, size'') =
      read_entries-Filled dpc base table' entries after size' more in
    (
      (combo, value, c) ∷ es,
      ap (λ x. x ∷ map (read_entry dpc base) entries) read
          ∙ ap (λ x. ok (combo, value, c) ∷ x) reads,
      Filled-cons table table' after combo value c es lt free is filled,
      size'',
    )

-- A table without a gap.
pub full_table-ok :
    (dpc base i : ℕ) (table : Table) (full : List ℕ)
    → full_table dpc base i table ≡ ok full
    → table ≡ map some full
unfolding full_table
full_table-ok dpc base i [] full e = let same : [] ≡ full = cc e in ap (map some) same
full_table-ok dpc base i (none ∷ table) full e = absurd (cc e)
full_table-ok dpc base i (some c ∷ table) full e =
    let (rest, more, f) = bind-eq-ok (full_table dpc base (suc i) table) _ full e in
    let same : c ∷ rest ≡ full = cc f in
    ap (◌∷◌ (some c)) (full_table-ok dpc base (suc i) table rest more) ∙ ap (map some) same

pub blank-none : (n v : ℕ) → seen_at (blank n) v ≡ none
blank-none zero v = refl
blank-none (suc n) zero = refl
blank-none (suc n) (suc v) = blank-none n v

pub length-blank : (n : ℕ) → length (blank n) ≡ n
length-blank zero = refl
length-blank (suc n) = ap suc (length-blank n)

pub seen_at-map : (full : List ℕ) (v : ℕ) → seen_at (map some full) v ≡ get_elem? full v
seen_at-map [] v = refl
seen_at-map (c ∷ full) zero = refl
seen_at-map (c ∷ full) (suc v) = seen_at-map full v

pub length-map_some : (full : List ℕ) → length (map some full) ≡ length full
length-map_some [] = refl
length-map_some (c ∷ full) = ap suc (length-map_some full)
