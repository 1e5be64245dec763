-- ===== src/Finder/Etl/Select.antt =====
-- The words that `apply_etl_cb` selects: each is the earliest that starts at or after the end of the
-- one before it, and the longest at its start.
use pi_poetry.Base.{
  ℕ, suc, ◌+◌, ◌^◌, ◌≤◌, ◌<◌, ◌≡◌, inl, inr, refl, Bool, true, false, ◌&&◌, Option, none, some,
  List, [], ◌∷◌, arith, length, Has, All, Has-All, add64, ltb, ◌==◌, Bool-cases,
}
use native.Mathlib.Decide.{dec_lt}
use pi_poetry.Base.Map.{Map, find, From, find-From}
use pi_poetry.Finder.Word.{WordMatch}
use pi_poetry.Base.Text.{Bytes}
use pi_poetry.Finder.Policy.{Raw, best_from, select}
use pi_poetry.Finder.Etl.Best.{best_from-Best}

-- The word starts where the last selected one, if any, ended.
abbrev pub touches : Option ℕ → ℕ → Bool
touches none start = false
touches (some last_end) start = start == last_end

-- A raw match of a nonempty word whose end, with the offset added, does not wrap.
abbrev pub Fits : ℕ → ℕ × Bytes → Type 0
Fits global_offset (start, word) =
    (0 < length word) × (global_offset + start + length word < 2 ^ 64)

module _ (raw : Raw) (global_offset : ℕ) where
  -- `Picks last pos ws`: the selection from the raw matches that start at `pos` or after, where
  -- `last` is the end of the last word selected.
  pub data Picks : Option ℕ → ℕ → List WordMatch → Type 0 where
    stop :
        {last : Option ℕ} {pos : ℕ}
        → ((s : ℕ) (w : Bytes) → Has (s, w) raw → s < pos)
        → Picks last pos []
    pick :
        {last : Option ℕ} {pos : ℕ} (s : ℕ) (w : Bytes) (m : WordMatch) (ws : List WordMatch)
        → Has (s, w) raw
        → pos ≤ s
        → ((s' : ℕ) (w' : Bytes) → Has (s', w') raw → pos ≤ s' → s ≤ s')
        → ((w' : Bytes) → Has (s, w') raw → length w' ≤ length w)
        → m ≡ record {
          word = w;
          start = global_offset + s;
          length = length w;
          consecutive = touches last s;
        }
        → Picks (some (s + length w)) (s + length w) ws
        → Picks last pos (m ∷ ws)

  -- The map `m` has a longest word for each start from `pos` on.
  record Covers (pos : ℕ) (m : Map (Bytes × ℕ)) : Type 0 where
    longest :
        (s : ℕ) (w : Bytes)
        → Has (s, w) raw
        → pos ≤ s
        → (v : Bytes) × (e : ℕ) × (find s m ≡ some (v, e)) × (length w ≤ length v)
    sourced : (s : ℕ) (v : Bytes) (e : ℕ) → find s m ≡ some (v, e) → Has (s, v) raw

  Covers-tail :
      (pos pos' j : ℕ) (x : Bytes × ℕ) (m : Map (Bytes × ℕ))
      → From (suc j) m
      → j < pos'
      → pos ≤ pos'
      → Covers pos ((j, x) ∷ m)
      → Covers pos' m
  unfolding find
  Covers-tail pos pos' j x m f before le c = record {
    longest = λ s w h from.
        let (v, e, found, longer) = c.longest s w h (omega arith) in (v, e, ground arith, longer);
    sourced = λ s v e found. elim (dec_lt j s) [
      | yes after ↦ c.sourced s v e (ground arith)
      | no h ↦ absurd (cc (found, find-From s (suc j) m f (omega arith)))
    ];
  }

  -- The loop's variables, for the end of the last word.
  abbrev Linked : Option ℕ → ℕ → ℕ → Bool → Type 0
  Linked none scan_pos prev_end started = started ≡ false
  Linked (some last_end) scan_pos prev_end started =
      (last_end ≡ scan_pos) × (prev_end ≡ global_offset + scan_pos) × (started ≡ true)

  Linked-touches :
      (last : Option ℕ) (scan_pos prev_end s : ℕ) (started : Bool)
      → Linked last scan_pos prev_end started
      → global_offset + s < 2 ^ 64
      → (started && add64 global_offset s == prev_end) ≡ touches last s
  Linked-touches none scan_pos prev_end s started l h = ground arith
  Linked-touches (some e) scan_pos prev_end s started l h = ground arith

  select-Picks :
      (last : Option ℕ) (lo scan_pos prev_end : ℕ) (started : Bool) (m : Map (Bytes × ℕ))
      → All (Fits global_offset) raw
      → From lo m
      → Covers scan_pos m
      → Linked last scan_pos prev_end started
      → Picks last scan_pos (select global_offset scan_pos prev_end started m)
  unfolding select find
  select-Picks last lo scan_pos prev_end started [] fits f c l = stop (λ s w h.
      elim (dec_lt s scan_pos) [
        | yes before ↦ before
        | no after ↦ absurd (cc ((c.longest s w h (omega arith)).2))
      ])
  select-Picks last lo scan_pos prev_end started ((j, (w, e)) ∷ m) fits f c l =
      elim (Bool-cases (ltb j scan_pos)) [
        | inl before ↦ rw before (
            select-Picks last (suc j) scan_pos prev_end started m fits f.1
              (Covers-tail scan_pos scan_pos j (w, e) m f.1 (ground arith) (omega arith) c) l)
        | inr after ↦
            let has : Has (j, w) raw = c.sourced j w e (ground arith) in
            let fit : Fits global_offset (j, w) =
              Has-All (Fits global_offset) (j, w) raw fits has in
            let start : add64 global_offset j ≡ global_offset + j = omega arith in
            let end64 : add64 j (length w) ≡ j + length w = omega arith in
            rw after (
              pick j w _ _ has (ground arith)
                (λ (s' : ℕ) (w' : Bytes) (h' : Has (s', w') raw) (p' : scan_pos ≤ s').
                  elim (dec_lt s' j) [
                    | no late ↦ omega arith
                    | yes early ↦ absurd (
                        cc (
                          (c.longest s' w' h' p').2,
                          find-From s' j ((j, (w, e)) ∷ m) (omega arith, f.1) early,
                        ))
                  ])
                (λ w' h'. let (v, e', found, le) = c.longest j w' h' (ground arith) in ground arith)
                (rw (Linked-touches last scan_pos prev_end j started l (omega arith), start))
                (rw end64 (
                  select-Picks (some (j + length w)) (suc j) (j + length w)
                    (add64 (add64 global_offset j) (length w)) true m fits f.1
                    (Covers-tail scan_pos (j + length w) j (w, e) m f.1 (omega arith) (ground arith)
                      c)
                    (refl, omega arith, refl))))
      ]

  -- For raw matches of nonempty words that end below 2^64, `apply_etl_cb` selects by the policy: each
  -- word is the earliest that starts at or after the end of the one before, the longest at its start,
  -- and marked consecutive exactly when it starts where the one before ended; it stops when no word is
  -- left.
  pub select-best_from-Picks :
      All (Fits global_offset) raw
      → Picks none 0 (select global_offset 0 0 false (best_from [] raw))
  unfolding find
  select-best_from-Picks fits =
      let b = best_from-Best [] raw tt in
      select-Picks none 0 0 0 false (best_from [] raw) fits b.sorted
        (record {
          longest = λ s w h _. b.longest s w h;
          sourced = λ s v e found. elim (b.sourced s v e found) [
            | inl nowhere ↦ absurd (cc nowhere)
            | inr here ↦ here
          ];
        })
        refl
