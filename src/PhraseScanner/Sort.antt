-- ===== src/PhraseScanner/Sort.antt =====
-- The sort of `process_words`: it loses no word, orders them, and leaves ordered words alone.
use mathlib.Core.List.{Perm}
use mathlib.Core.List.Perm
use pi_poetry.Base.{ℕ, ◌≤◌, ◌≡◌, refl, List, [], ◌∷◌, arith, ltb, Bool-cases, inl, inr}
use pi_poetry.Finder.Word.{WordMatch}
use pi_poetry.PhraseScanner.{insert_by_start, sort_by_start}

-- The starts do not fall along the list, and are at least `lo`.
abbrev pub StartsFrom : ℕ → List WordMatch → Type 0
StartsFrom lo [] = Unit {0}
StartsFrom lo (w ∷ ws) = (lo ≤ w.start) × StartsFrom w.start ws

insert_by_start-StartsFrom :
    (lo : ℕ) (w : WordMatch) (ws : List WordMatch)
    → lo ≤ w.start
    → StartsFrom lo ws
    → StartsFrom lo (insert_by_start w ws)
unfolding insert_by_start
insert_by_start-StartsFrom lo w [] h f = (h, tt)
insert_by_start-StartsFrom lo w (v ∷ vs) h f =
    ground (arith, insert_by_start-StartsFrom v.start w vs)

pub sort_by_start-StartsFrom : (ws : List WordMatch) → StartsFrom 0 (sort_by_start ws)
unfolding sort_by_start
sort_by_start-StartsFrom [] = tt
sort_by_start-StartsFrom (w ∷ ws) =
    insert_by_start-StartsFrom 0 w (sort_by_start ws) (omega arith) (sort_by_start-StartsFrom ws)

insert_by_start-first :
    (w : WordMatch) (ws : List WordMatch) → StartsFrom w.start ws → insert_by_start w ws ≡ w ∷ ws
unfolding insert_by_start
insert_by_start-first w [] f = refl
insert_by_start-first w (v ∷ vs) f = ground arith

pub sort_by_start_id : (lo : ℕ) (ws : List WordMatch) → StartsFrom lo ws → sort_by_start ws ≡ ws
unfolding sort_by_start
sort_by_start_id lo [] f = refl
sort_by_start_id lo (w ∷ ws) f =
    rw (sort_by_start_id w.start ws f.1) (insert_by_start-first w ws f.1)

insert_by_start-perm : (w : WordMatch) (ws : List WordMatch) → Perm (insert_by_start w ws) (w ∷ ws)
unfolding insert_by_start
insert_by_start-perm w [] = Perm.refl (w ∷ [])
insert_by_start-perm w (v ∷ vs) = elim (Bool-cases (ltb v.start w.start)) [
  | inl later ↦ rw later (Perm.trans (Perm.cons v (insert_by_start-perm w vs)) (Perm.swap w v vs))
  | inr here ↦ rw here (Perm.refl _)
]

pub sort_by_start-perm : (ws : List WordMatch) → Perm (sort_by_start ws) ws
unfolding sort_by_start
sort_by_start-perm [] = Perm.refl []
sort_by_start-perm (w ∷ ws) =
    Perm.trans (insert_by_start-perm w (sort_by_start ws)) (Perm.cons w (sort_by_start-perm ws))
