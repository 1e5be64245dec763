-- ===== src/Analyzer/Chunks/Groups.antt =====
-- The ranges between the cuts: each one covers some objects that follow one another.
use pi_poetry.Base.{
  ℕ, zero, suc, ◌+◌, ◌≤◌, ◌<◌, ◌≡◌, refl, sym, ap, ◌∙◌, subst, true, false, List, [], ◌∷◌, ◌++◌,
  append_assoc, append-nil, arith, length, map, concat, leb, Bool-cases, inl, inr,
}
use pi_poetry.Base.Lists.{length-append}
use pi_poetry.Analyzer.Chunks.{Range, cut_loop, same_range, dedup_after, dedup, ranges_between}
use pi_poetry.Analyzer.Chunks.Objects.{cut_all, last_end}

-- The first object of a range, and the others.
abbrev pub Group : Type 0
Group = Range × List Range

abbrev pub objects_of : Group → List Range
objects_of g = g.0 ∷ g.1

abbrev pub range_of : Group → Range
range_of g = (g.0.0, last_end g.0.1 g.1)

abbrev copies : ℕ → Range → List Range
copies zero c = []
copies (suc n) c = c ∷ copies n c

length-copies : (k : ℕ) (c : Range) → length (copies k c) ≡ k
length-copies zero c = refl
length-copies (suc k) c = omega (arith, length-copies k c)

-- In each gap the same cut any number of times.
abbrev pub Gaps : ℕ → List Range → List Range → Type 0
Gaps end [] cuts = cuts ≡ []
Gaps end (s ∷ spans) cuts =
    (k : ℕ) × (later : List Range) × (cuts ≡ copies k (end, s.0) ++ later) × Gaps s.1 spans later

cut_loop-copies :
    (c : Range) (targets : List ℕ) (cuts : List Range)
    → (k : ℕ) × (left : List ℕ) × (cut_loop c targets cuts ≡ (left, cuts ++ copies k c))
      × (k + length left ≡ length targets)
cut_loop-copies c [] cuts = (0, [], ap (λ x. ([], x)) (sym (append-nil cuts)), refl)
cut_loop-copies c (t ∷ targets) cuts = elim (Bool-cases (leb t c.1)) [
  | inl reached ↦
      let (k, left, e, n) = cut_loop-copies c targets (cuts ++ c ∷ []) in
      (
        suc k,
        left,
        rw reached (e ∙ ap (λ x. (left, x)) (append_assoc cuts (c ∷ []) (copies k c))),
        omega arith,
      )
  | inr not_reached ↦ (
    0,
    t ∷ targets,
    rw not_reached (ap (λ x. (t ∷ targets, x)) (sym (append-nil cuts))),
    omega arith,
  )
]

pub cut_all-Gaps :
    (end : ℕ) (spans : List Range) (targets : List ℕ) (cuts : List Range)
    → (more : List Range) × ((cut_all end spans (targets, cuts)).1 ≡ cuts ++ more)
      × Gaps end spans more
      × (length more ≤ length targets)
cut_all-Gaps end [] targets cuts = ([], sym (append-nil cuts), refl, omega arith)
cut_all-Gaps end (s ∷ spans) targets cuts =
    let (k, left, e, n) = cut_loop-copies (end, s.0) targets cuts in
    let (more, f, g, m) = cut_all-Gaps s.1 spans left (cuts ++ copies k (end, s.0)) in
    let l = length-append (copies k (end, s.0)) more in
    let lk = length-copies k (end, s.0) in
    (
      copies k (end, s.0) ++ more,
      ap (λ t. (cut_all s.1 spans t).1) e ∙ f ∙ append_assoc cuts (copies k (end, s.0)) more,
      (k, more, refl, g),
      omega arith,
    )

abbrev pub Ordered : ℕ → List Range → Type 0
Ordered end [] = Unit
Ordered end (s ∷ spans) = (end ≤ s.0) × (s.0 < s.1) × Ordered s.1 spans

-- The ranges of `start`, whose last object so far ends at `end`, and of the objects that follow.
abbrev pub Grouped : ℕ → ℕ → List Range → List Range → Type 0
Grouped start end spans ranges =
    (more : List Range) × (groups : List Group) × (more ++ concat (map objects_of groups) ≡ spans)
    × (ranges ≡ (start, last_end end more) ∷ map range_of groups)

same_range_refl : (c : Range) → same_range c c ≡ true
same_range_refl c = ground arith

same_range_before : (a b : Range) → a.1 < b.1 → same_range b a ≡ false
same_range_before a b h = ground arith

dedup_after-copies :
    (k : ℕ) (c : Range) (later : List Range)
    → dedup_after c (copies k c ++ later) ≡ dedup_after c later
dedup_after-copies zero c later = refl
dedup_after-copies (suc k) c later = rw (same_range_refl c) (dedup_after-copies k c later)

dedup_after-Grouped :
    (c : Range) (start end : ℕ) (spans cuts : List Range)
    → c.1 < end
    → Ordered end spans
    → Gaps end spans cuts
    → Grouped start end spans (ranges_between start (dedup_after c cuts) (last_end end spans))
unfolding ranges_between
dedup_after-Grouped c start end [] cuts h o g =
    ([], [], refl, ap (λ cuts. ranges_between start (dedup_after c cuts) end) g)
dedup_after-Grouped c start end (s ∷ spans) cuts h o (zero, later, e, g) =
    let (more, groups, f, r) = dedup_after-Grouped c start s.1 spans later (omega arith) o.2 g in
    (
      s ∷ more,
      groups,
      ap (◌∷◌ s) f,
      ap (λ cuts. ranges_between start (dedup_after c cuts) (last_end s.1 spans)) e ∙ r,
    )
dedup_after-Grouped c start end (s ∷ spans) cuts h o (suc k, later, e, g) =
    let cut : Range = (end, s.0) in
    let last = last_end s.1 spans in
    let (more, groups, f, r) = dedup_after-Grouped cut s.0 s.1 spans later o.1 o.2 g in
    let new : dedup_after c (cut ∷ (copies k cut ++ later)) ≡ cut ∷ dedup_after cut later =
      rw (same_range_before c cut (omega arith)) (ap (◌∷◌ cut) (dedup_after-copies k cut later)) in
    (
      [],
      (s, more) ∷ groups,
      ap (◌∷◌ s) f,
      ap (λ cuts. ranges_between start (dedup_after c cuts) last) e
          ∙ ap (λ cuts. ranges_between start cuts last) new
          ∙ ap (◌∷◌ (start, end)) r,
    )

-- Before the first cut every cut is new.
dedup-eq-dedup_after :
    (end : ℕ) (spans cuts : List Range)
    → 0 < end
    → Ordered end spans
    → Gaps end spans cuts
    → dedup cuts ≡ dedup_after (0, 0) cuts
dedup-eq-dedup_after end [] cuts h o g = rw g refl
dedup-eq-dedup_after end (s ∷ spans) cuts h o (zero, later, e, g) =
    rw e (dedup-eq-dedup_after s.1 spans later (omega arith) o.2 g)
dedup-eq-dedup_after end (s ∷ spans) cuts h o (suc k, later, e, g) =
    rw (e, same_range_before (0, 0) (end, s.0) (omega arith)) refl

pub dedup-Grouped :
    (start end : ℕ) (spans cuts : List Range)
    → 0 < end
    → Ordered end spans
    → Gaps end spans cuts
    → Grouped start end spans (ranges_between start (dedup cuts) (last_end end spans))
dedup-Grouped start end spans cuts h o g =
    subst (λ d. Grouped start end spans (ranges_between start d (last_end end spans)))
      (sym (dedup-eq-dedup_after end spans cuts h o g))
      (dedup_after-Grouped (0, 0) start end spans cuts h o g)

length-dedup_after : (c : Range) (cuts : List Range) → length (dedup_after c cuts) ≤ length cuts
length-dedup_after c [] = omega arith
length-dedup_after c (d ∷ cuts) = elim (Bool-cases (same_range d c)) [
  | inl same ↦ rw same (let i = length-dedup_after c cuts in omega arith)
  | inr other ↦ rw other (let i = length-dedup_after d cuts in omega arith)
]

pub length-dedup : (cuts : List Range) → length (dedup cuts) ≤ length cuts
length-dedup [] = omega arith
length-dedup (c ∷ cuts) = let i = length-dedup_after c cuts in omega arith

pub length-ranges_between :
    (start : ℕ) (cuts : List Range) (last : ℕ)
    → length (ranges_between start cuts last) ≡ suc (length cuts)
unfolding ranges_between
length-ranges_between start [] last = refl
length-ranges_between start (c ∷ cuts) last = omega (arith, length-ranges_between c.1 cuts last)
