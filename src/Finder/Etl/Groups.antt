-- ===== src/Finder/Etl/Groups.antt =====
-- The groups that `apply_etl_cb` hands to `on_chain`.
use pi_poetry.Base.{
  ℕ, ◌≡◌, inl, inr, refl, subst, sym, ap, ◌∙◌, true, false, not, ◌&&◌, List, [], ◌∷◌, ◌++◌,
  append_assoc, arith, length, All, All-append, concat, leb, if◌then◌else◌, Bool-cases,
}
use pi_poetry.Finder.Word.{WordMatch}
use pi_poetry.Finder.Policy.{nonempty, group_loop}

-- Every word is consecutive to the one before it.
abbrev pub Chained : List WordMatch → Type 0
Chained = All (λ (w : WordMatch). w.consecutive ≡ true)

-- A run: after its first word, each word is consecutive to the one before it.
abbrev pub IsRun : List WordMatch → Type 0
IsRun [] = ⊥
IsRun (w ∷ ws) = Chained ws

-- A run that starts with a word which is not consecutive to the one before it.
abbrev pub StartsFresh : List WordMatch → Type 0
StartsFresh [] = ⊥
StartsFresh (w ∷ ws) = w.consecutive ≡ false

abbrev pub tail : List (List WordMatch) → List (List WordMatch)
tail [] = []
tail (r ∷ rs) = rs

-- `rs` cuts `ws` into its maximal runs.
pub record Cuts (ws : List WordMatch) (rs : List (List WordMatch)) : Type 0 where
  pub whole : concat rs ≡ ws
  pub are_runs : All IsRun rs
  pub maximal : All StartsFresh (tail rs)

-- The runs of at least `n` words.
abbrev pub long_enough : ℕ → List (List WordMatch) → List (List WordMatch)
long_enough n [] = []
long_enough n (r ∷ rs) = (if leb n (length r) then r ∷ [] else []) ++ long_enough n rs

-- The runs, with `group` in progress.
runs : List WordMatch → List WordMatch → List (List WordMatch)
runs group [] = if nonempty group then group ∷ [] else []
runs group (w ∷ ws) =
    let extended = runs (group ++ w ∷ []) ws in
    let fresh = runs (w ∷ []) ws in
    if not w.consecutive && nonempty group then group ∷ fresh else extended

group_loop-runs :
    (min_length : ℕ) (group ws : List WordMatch)
    → group_loop min_length group ws ≡ long_enough min_length (runs group ws)
unfolding group_loop runs
group_loop-runs n group [] = ground arith
group_loop-runs n group (w ∷ ws) = elim (Bool-cases (not w.consecutive && nonempty group)) [
  | inl cut ↦ rw (cut, group_loop-runs n (w ∷ []) ws)
  | inr on ↦ rw (on, group_loop-runs n (group ++ w ∷ []) ws)
]

-- With a nonempty run in progress.
record CutsFrom (g : WordMatch) (gs ws : List WordMatch) (rs : List (List WordMatch)) : Type 0 where
  whole : concat rs ≡ (g ∷ gs) ++ ws
  are_runs : All IsRun rs
  maximal : All StartsFresh (tail rs)
  first : (r : List WordMatch) × (rest : List (List WordMatch)) × (rs ≡ (g ∷ r) ∷ rest)

StartsFresh-All :
    (w : WordMatch) (r : List WordMatch) (rest rs : List (List WordMatch))
    → rs ≡ (w ∷ r) ∷ rest
    → w.consecutive ≡ false
    → All StartsFresh (tail rs)
    → All StartsFresh rs
StartsFresh-All w r rest rs e fresh others =
    let others' : All StartsFresh rest = rw e at others in rw e (fresh, others')

runs-on :
    (g : WordMatch) (gs : List WordMatch) (w : WordMatch) (ws : List WordMatch)
    → w.consecutive ≡ true
    → runs (g ∷ gs) (w ∷ ws) ≡ runs (g ∷ (gs ++ w ∷ [])) ws
unfolding runs
runs-on g gs w ws on = ground arith

runs-cut :
    (g : WordMatch) (gs : List WordMatch) (w : WordMatch) (ws : List WordMatch)
    → w.consecutive ≡ false
    → runs (g ∷ gs) (w ∷ ws) ≡ (g ∷ gs) ∷ runs (w ∷ []) ws
unfolding runs
runs-cut g gs w ws cut = ground arith

runs-first : (w : WordMatch) (ws : List WordMatch) → runs [] (w ∷ ws) ≡ runs (w ∷ []) ws
unfolding runs
runs-first w ws = ground arith

runs-CutsFrom :
    (g : WordMatch) (gs ws : List WordMatch) → Chained gs → CutsFrom g gs ws (runs (g ∷ gs) ws)
unfolding runs
runs-CutsFrom g gs [] c = record {
  whole = refl;
  are_runs = (c, tt);
  maximal = tt;
  first = (gs, [], refl);
}
runs-CutsFrom g gs (w ∷ ws) c = elim (Bool-cases w.consecutive) [
  | inl on ↦
      let chained = All-append (λ (v : WordMatch). v.consecutive ≡ true) gs (w ∷ []) c (on, tt) in
      let rest = runs-CutsFrom g (gs ++ w ∷ []) ws chained in
      subst (CutsFrom g gs (w ∷ ws)) (sym (runs-on g gs w ws on)) (record {
        whole = rest.whole ∙ ap (◌∷◌ g) (append_assoc gs (w ∷ []) ws);
        are_runs = rest.are_runs;
        maximal = rest.maximal;
        first = rest.first;
      })
  | inr cut ↦
      let rest = runs-CutsFrom w [] ws tt in
      subst (CutsFrom g gs (w ∷ ws)) (sym (runs-cut g gs w ws cut)) (record {
        whole = ap (λ xs. g ∷ (gs ++ xs)) rest.whole;
        are_runs = (c, rest.are_runs);
        maximal = StartsFresh-All w rest.first.0 rest.first.1 _ rest.first.2 cut rest.maximal;
        first = (gs, runs (w ∷ []) ws, refl);
      })
]

runs-Cuts : (ws : List WordMatch) → Cuts ws (runs [] ws)
unfolding runs
runs-Cuts [] = record { whole = refl; are_runs = tt; maximal = tt }
runs-Cuts (w ∷ ws) =
    let rest = runs-CutsFrom w [] ws tt in
    subst (Cuts (w ∷ ws)) (sym (runs-first w ws))
      (record { whole = rest.whole; are_runs = rest.are_runs; maximal = rest.maximal })

-- The groups are the runs of at least `min_length` words, in order.
pub group_loop-Cuts :
    (min_length : ℕ) (ws : List WordMatch)
    → (rs : List (List WordMatch)) × Cuts ws rs
      × (group_loop min_length [] ws ≡ long_enough min_length rs)
group_loop-Cuts min_length ws = (runs [] ws, runs-Cuts ws, group_loop-runs min_length [] ws)
