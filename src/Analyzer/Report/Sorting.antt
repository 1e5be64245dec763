-- ===== src/Analyzer/Report/Sorting.antt =====
-- Sorted lists with the same members are equal, and what `sort_occurrences` makes is sorted.
use pi_poetry.Base.{◌≡◌, inl, inr, refl, sym, ap, ◌∙◌, subst, true, List, [], ◌∷◌, All, Bool-cases}
use pi_poetry.Base.Lists.{Has, Has-All, All-Has}
use pi_poetry.Analyzer.Report.{WordOccurrence, cmp, insert_occurrence, sort_occurrences}
use pi_poetry.Analyzer.Report.Order.{cmp_irrefl, cmp_trans, cmp-connex}

abbrev pub IsSorted : List WordOccurrence → Type 0
IsSorted [] = Unit
IsSorted (a ∷ as') = All (λ b. cmp a b ≡ true) as' × IsSorted as'

abbrev Before : WordOccurrence → WordOccurrence → Type 0
Before a b = cmp a b ≡ true

not_less_than_itself : (a : WordOccurrence) → Before a a → ⊥
not_less_than_itself a h = let e = cmp_irrefl a in cc

Has-later : (a : WordOccurrence) (as' : List WordOccurrence) → All (Before a) as' → Has a as' → ⊥
Has-later a as' all h = not_less_than_itself a (Has-All (Before a) a as' all h)

-- The two lists have the same members.
abbrev pub SameMembers : List WordOccurrence → List WordOccurrence → Type 0
SameMembers as' bs = (a : WordOccurrence) → (Has a as' → Has a bs) × (Has a bs → Has a as')

tail_members :
    (a : WordOccurrence) (as' bs : List WordOccurrence)
    → All (Before a) as'
    → (c : WordOccurrence) → (Has c (a ∷ as') → Has c (a ∷ bs))
    → Has c as'
    → Has c bs
tail_members a as' bs all c sub h = elim (sub (inr h)) [
  | inl e ↦ absurd (Has-later a as' all (subst (λ c. Has c as') e h))
  | inr rest ↦ rest
]

heads_equal :
    (a b : WordOccurrence) (as' bs : List WordOccurrence)
    → All (Before a) as'
    → All (Before b) bs
    → Has a (b ∷ bs)
    → Has b (a ∷ as')
    → a ≡ b
heads_equal a b as' bs all_a all_b (inl e) h = e
heads_equal a b as' bs all_a all_b (inr k) (inl e) = sym e
heads_equal a b as' bs all_a all_b (inr k) (inr h) =
    let less = Has-All (Before a) b as' all_a h in
    let more = Has-All (Before b) a bs all_b k in
    absurd (not_less_than_itself a (cmp_trans a b a less more))

pub IsSorted-unique :
    (as' bs : List WordOccurrence) → IsSorted as' → IsSorted bs → SameMembers as' bs → as' ≡ bs
IsSorted-unique [] [] s t same = refl
IsSorted-unique [] (b ∷ bs) s t same = absurd ((same b).1 (inl refl))
IsSorted-unique (a ∷ as') [] s t same = absurd ((same a).0 (inl refl))
IsSorted-unique (a ∷ as') (b ∷ bs) s t same =
    let e = heads_equal a b as' bs s.0 t.0 ((same a).0 (inl refl)) ((same b).1 (inl refl)) in
    let t' = subst (λ b. All (Before b) bs) (sym e) t.0 in
    let same' : SameMembers (a ∷ as') (a ∷ bs) =
      subst (λ b. SameMembers (a ∷ as') (b ∷ bs)) (sym e) same in
    let rest =
      IsSorted-unique as' bs s.1 t.1
        (λ c. (tail_members a as' bs s.0 c (same' c).0, tail_members a bs as' t' c (same' c).1)) in
    ap (λ b. b ∷ as') e ∙ ap (◌∷◌ b) rest

-- Insertion keeps the members.
pub insert_occurrence-members :
    (c a : WordOccurrence) (as' : List WordOccurrence)
    → (Has c (insert_occurrence a as') → Has c (a ∷ as'))
      × (Has c (a ∷ as') → Has c (insert_occurrence a as'))
insert_occurrence-members c a [] = (λ h. h, λ h. h)
insert_occurrence-members c a (b ∷ bs) = elim (Bool-cases (cmp a b)) [
  | inl before ↦ rw before (λ h. h, λ h. h)
  | inr after ↦
      let (into, back) = insert_occurrence-members c a bs in
      rw after (
        λ h. elim h [
          | inl e ↦ inr (inl e)
          | inr k ↦ elim (into k) [ inl e ↦ inl e | inr m ↦ inr (inr m) ]
        ],
        λ h. elim h [
          | inl e ↦ inr (back (inl e))
          | inr k ↦ elim k [ inl e ↦ inl e | inr m ↦ inr (back (inr m)) ]
        ],
      )
]

pub sort_occurrences-members : (as' : List WordOccurrence) → SameMembers (sort_occurrences as') as'
sort_occurrences-members [] c = (λ h. h, λ h. h)
sort_occurrences-members (a ∷ as') c =
    let (out, in') = insert_occurrence-members c a (sort_occurrences as') in
    let (down, up) = sort_occurrences-members as' c in
    (
      λ h. elim (out h) [ inl e ↦ inl e | inr k ↦ inr (down k) ],
      λ h. elim h [ inl e ↦ in' (inl e) | inr k ↦ in' (inr (up k)) ],
    )

insert_occurrence-IsSorted :
    (a : WordOccurrence) (as' : List WordOccurrence)
    → (Has a as' → ⊥)
    → IsSorted as'
    → IsSorted (insert_occurrence a as')
insert_occurrence-IsSorted a [] new s = (tt, tt)
insert_occurrence-IsSorted a (b ∷ bs) new s = elim (Bool-cases (cmp a b)) [
  | inl before ↦ rw before (
    (before, All-Has (Before a) bs (λ c m. cmp_trans a b c before (Has-All (Before b) c bs s.0 m))),
    s,
  )
  | inr after ↦
      let less : cmp b a ≡ true = elim (Bool-cases (cmp b a)) [
        | inl h ↦ h
        | inr h ↦ absurd (new (inl (cmp-connex a b after h)))
      ] in
      rw after (
        All-Has (Before b) (insert_occurrence a bs) (λ c m.
            elim ((insert_occurrence-members c a bs).0 m) [
              | inl e ↦ subst (Before b) (sym e) less
              | inr k ↦ Has-All (Before b) c bs s.0 k
            ]),
        insert_occurrence-IsSorted a bs (λ h. new (inr h)) s.1,
      )
]

-- No entry occurs twice.
abbrev pub IsDistinct : List WordOccurrence → Type 0
IsDistinct [] = Unit
IsDistinct (a ∷ as') = (Has a as' → ⊥) × IsDistinct as'

pub sort_occurrences-IsSorted :
    (as' : List WordOccurrence) → IsDistinct as' → IsSorted (sort_occurrences as')
sort_occurrences-IsSorted [] d = tt
sort_occurrences-IsSorted (a ∷ as') d =
    insert_occurrence-IsSorted a (sort_occurrences as')
      (λ h. d.0 ((sort_occurrences-members as' a).0 h)) (sort_occurrences-IsSorted as' d.1)
