-- ===== src/Analyzer/Analysis/Slices.antt =====
-- The text of a range of objects.
use pi_poetry.Base.{
  ℕ, ◌+◌, ◌-◌, ◌≡◌, refl, sym, ap, ◌∙◌, List, [], ◌∷◌, ◌++◌, append_assoc, arith, length, map,
  concat, take, drop, Bytes,
}
use pi_poetry.Base.Lists.{length-append}
use pi_poetry.Base.Slices.{drop-drop, drop_whole, take_whole}
use pi_poetry.Analyzer.Chunks.{Range}
use pi_poetry.Analyzer.Chunks.Texts.{Element, object_text, elements_text, spans}
use pi_poetry.Analyzer.Chunks.Objects.{last_end}
use pi_poetry.Analyzer.Chunks.Groups.{Group, objects_of, range_of}
use pi_poetry.Analyzer.Stream.Draining.{range_text}

-- An object and those that follow it in its range, each with some value.
abbrev pub Slice : Type 0 → Type 0
Slice A = (Element × A) × List (Element × A)

module _ {A : Type 0} where
  abbrev pub elements : List (Element × A) → List Element
  elements = map (λ item. item.0)

  abbrev pub items_in : Slice A → List (Element × A)
  items_in s = s.0 ∷ s.1

  abbrev pub slice_text : Slice A → Bytes
  slice_text s = object_text s.0.0 ++ elements_text (elements s.1)

  -- The objects that some spans belong to.
  split_items :
      (front back : List Range) (pos : ℕ) (items : List (Element × A))
      → front ++ back ≡ spans pos (elements items)
      → (m r : List (Element × A)) × (items ≡ m ++ r)
        × (front ≡ spans pos (elements m))
        × (back ≡ spans (last_end pos front) (elements r))
  split_items [] back pos items e = ([], items, refl, refl, e)
  split_items (s ∷ front) back pos [] e = absurd (omega (arith, ap length e))
  split_items (s ∷ front) back pos (i ∷ items) e =
      let end = pos + length i.0.gap + length (object_text i.0) in
      let head : s ≡ (pos + length i.0.gap, end) = cc e in
      let tail : front ++ back ≡ spans end (elements items) = cc e in
      let (m, r, split, f, b) = split_items front back end items tail in
      (
        i ∷ m,
        r,
        ap (◌∷◌ i) split,
        ap (λ s. s ∷ front) head ∙ ap (◌∷◌ (pos + length i.0.gap, end)) f,
        b ∙ ap (λ s. spans (last_end s.1 front) (elements r)) (sym head),
      )

  elements-append :
      (m r : List (Element × A))
      → elements_text (elements (m ++ r)) ≡ elements_text (elements m) ++ elements_text (elements r)
  elements-append [] r = refl
  elements-append (i ∷ m) r =
      ap (λ t. i.0.gap ++ (object_text i.0 ++ t)) (elements-append m r)
      ∙ sym (
          append_assoc i.0.gap (object_text i.0 ++ elements_text (elements m))
            (elements_text (elements r))
          ∙ ap (◌++◌ i.0.gap) (
              append_assoc (object_text i.0) (elements_text (elements m))
                (elements_text (elements r))))

  last_end-spans :
      (pos : ℕ) (items : List (Element × A))
      → last_end pos (spans pos (elements items)) ≡ pos + length (elements_text (elements items))
  last_end-spans pos [] = omega arith
  last_end-spans pos (i ∷ items) =
      let n = length-append i.0.gap (object_text i.0 ++ elements_text (elements items)) in
      let m = length-append (object_text i.0) (elements_text (elements items)) in
      let e = pos + length i.0.gap + length (object_text i.0) in
      let rest = last_end-spans e items in omega arith

  -- Each range of a group is the text of a slice, and the slices make up the items.
  abbrev pub Sliced : Bytes → List Group → List (Element × A) → Type 0
  Sliced file groups items =
      (slices : List (Slice A)) × (items ≡ concat (map items_in slices))
      × (map (λ g. (range_text file (range_of g).0 (range_of g).1)) groups ≡ map slice_text slices)

  -- The text from an object on, cut after the objects `m`.
  text_splits :
      (i : Element × A) (items m r : List (Element × A)) (tail : Bytes)
      → items ≡ m ++ r
      → elements_text (elements (i ∷ items)) ++ tail
        ≡ i.0.gap ++ (slice_text (i, m) ++ (elements_text (elements r) ++ tail))
  text_splits i items m r tail split =
      let o = object_text i.0 in
      let front = elements_text (elements m) in
      let back = elements_text (elements r) in
      ap (λ t. (i.0.gap ++ (o ++ t)) ++ tail)
        (ap (λ s. elements_text (elements s)) split ∙ elements-append m r)
      ∙ append_assoc i.0.gap (o ++ (front ++ back)) tail
      ∙ ap (◌++◌ i.0.gap) (
          ap (λ t. t ++ tail) (sym (append_assoc o front back))
          ∙ append_assoc (o ++ front) back tail)

  -- The offsets and the text of the first slice.
  first_slice :
      (file : Bytes) (i : Element × A) (items m r : List (Element × A)) (pos : ℕ) (tail : Bytes)
      → items ≡ m ++ r
      → drop pos file ≡ elements_text (elements (i ∷ items)) ++ tail
      → (let start = pos + length i.0.gap in
          let last = start + length (slice_text (i, m)) in
          (range_text file start last ≡ slice_text (i, m))
          × (drop last file ≡ elements_text (elements r) ++ tail))
  first_slice file i items m r pos tail split is =
      let start = pos + length i.0.gap in
      let t = slice_text (i, m) in
      let after = elements_text (elements r) ++ tail in
      let at_start : drop start file ≡ t ++ after =
        sym (drop-drop (length i.0.gap) pos file)
        ∙ ap (drop (length i.0.gap)) (is ∙ text_splits i items m r tail split)
        ∙ drop_whole i.0.gap (t ++ after) in
      let size : start + length t - start ≡ length t = omega arith in
      (
        ap (λ n. take n (drop start file)) size
            ∙ ap (take (length t)) at_start
            ∙ take_whole t after,
        sym (drop-drop (length t) start file) ∙ ap (drop (length t)) at_start ∙ drop_whole t after,
      )

  -- Where a slice ends.
  ends_slice :
      (i : Element × A) (m : List (Element × A)) (start : ℕ) (more : List Range)
      → more ≡ spans (start + length (object_text i.0)) (elements m)
      → last_end (start + length (object_text i.0)) more ≡ start + length (slice_text (i, m))
  ends_slice i m start more f =
      let n = length-append (object_text i.0) (elements_text (elements m)) in
      let l = last_end-spans (start + length (object_text i.0)) m in
      let e = ap (last_end (start + length (object_text i.0))) f in omega arith

  pub groups-Sliced :
      (file : Bytes) (groups : List Group) (pos : ℕ) (items : List (Element × A)) (tail : Bytes)
      → concat (map objects_of groups) ≡ spans pos (elements items)
      → drop pos file ≡ elements_text (elements items) ++ tail
      → Sliced file groups items
  groups-Sliced file [] pos [] tail e is = ([], refl, refl)
  groups-Sliced file [] pos (i ∷ items) tail e is = absurd (omega (arith, ap length e))
  groups-Sliced file (g ∷ groups) pos [] tail e is = absurd (omega (arith, ap length e))
  groups-Sliced file (g ∷ groups) pos (i ∷ items) tail e is =
      let start = pos + length i.0.gap in
      let end = start + length (object_text i.0) in
      let head : g.0 ≡ (start, end) = cc e in
      let rest : g.1 ++ concat (map objects_of groups) ≡ spans end (elements items) = cc e in
      let (m, r, split, f, b) = split_items g.1 (concat (map objects_of groups)) end items rest in
      let last = start + length (slice_text (i, m)) in
      let ends = ends_slice i m start g.1 f in
      let (text, after) = first_slice file i items m r pos tail split is in
      let (slices, whole, texts) =
        groups-Sliced file groups last r tail (b ∙ ap (λ p. spans p (elements r)) ends) after in
      let first : range_text file (range_of g).0 (range_of g).1 ≡ slice_text (i, m) =
        ap (λ s. range_text file s.0 (last_end s.1 g.1)) head
        ∙ ap (range_text file start) ends
        ∙ text in
      (
        (i, m) ∷ slices,
        ap (◌∷◌ i) (split ∙ ap (◌++◌ m) whole),
        ap (λ t. t ∷ map (λ g. range_text file (range_of g).0 (range_of g).1) groups) first
            ∙ ap (◌∷◌ (slice_text (i, m))) texts,
      )
