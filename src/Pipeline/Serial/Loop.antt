-- ===== src/Pipeline/Serial/Loop.antt =====
-- What the chunks of the serial run add up to.
use native.Mathlib.Nat.{mul-div_cancel, mul-add-div_right, mul-mod_left, mul-pos, div-mul-le_self}
use native.Mathlib.Decide.{dec_lt}
use pi_poetry.Base.{
  ℕ, zero, suc, ◌+◌, ◌-◌, ◌*◌, ◌/◌, ◌≤◌, ◌<◌, ◌≡◌, refl, sym, ap, ◌∙◌, List, [], ◌++◌, append-nil,
  length, take, drop, length-take, length-drop, arith, Bytes, some, Bool-cases, inl, inr, ◌==◌,
}
use pi_poetry.Base.Slices.{take-append-take, take-take_le, take_nil, nil_of_length}
use pi_poetry.Digits.{DigitSource, DigitMapper, SourceLaws, MapperLaws}
use pi_poetry.Finder.Automaton.{AhoCorasick}
use pi_poetry.Finder.Automaton.Scan.{scan_chunk}
use pi_poetry.Finder.Automaton.Scan.Chunks.{scan_chunk-append}
use pi_poetry.Pipeline.Serial.{usable, chunk_loop}

-- The groups of a text are the groups of its first `k` groups and of what comes after.
usable-add : (d k n : ℕ) → 0 < d → usable d (k * d + n) ≡ k * d + usable d n
usable-add d k n h = rw (mul-add-div_right h k n) (omega arith)

usable-le : (d n : ℕ) → usable d n ≤ n
usable-le d n = div-mul-le_self n d

pub take-usable-split :
    (d k : ℕ) (xs : List ℕ)
    → 0 < d
    → (let front = take (k * d) xs in
        let back = drop (k * d) xs in
        take (usable d (length xs)) xs
        ≡ take (usable d (length front)) front ++ take (usable d (length back)) back)
take-usable-split d k xs h = elim (dec_lt (length xs) (k * d)) [
  | yes short ↦
      let e : length (take (k * d) xs) ≡ length xs = omega (arith, length-take (k * d) xs) in
      let f : length (drop (k * d) xs) ≡ 0 = omega (arith, length-drop (k * d) xs) in
      let z : usable d 0 ≡ 0 = omega (arith, usable-le d 0) in
      rw (e, f, z, append-nil)
        (sym
          (take-take_le (usable d (length xs)) (k * d) xs (omega (arith, usable-le d (length xs)))))
  | no long ↦
      let e : length (take (k * d) xs) ≡ k * d = omega (arith, length-take (k * d) xs) in
      let f : length (drop (k * d) xs) ≡ length xs - k * d =
        omega (arith, length-drop (k * d) xs) in
      let g : usable d (length xs) ≡ k * d + usable d (length xs - k * d) =
        ap (usable d) (let e : length xs ≡ k * d + (length xs - k * d) = omega arith in e)
        ∙ usable-add d k (length xs - k * d) h in
      let m : usable d (k * d) ≡ k * d = ap (λ q. q * d) (mul-div_cancel k h) in
      rw (e, f, g, m, take-take_le (k * d) (k * d) xs (omega arith))
        (sym (take-append-take (k * d) (usable d (length xs - k * d)) xs))
]

-- The letters of a digit sequence: those of its whole groups.
abbrev pub letters_of : DigitMapper → List ℕ → Bytes
letters_of mapper xs = mapper.map (take (usable mapper.digits_per_char (length xs)) xs)

module _ (mapper : DigitMapper) (laws : MapperLaws mapper) (k : ℕ)
    (some_digits : 0 < mapper.digits_per_char) (some_groups : 0 < k) where
  abbrev d : ℕ
  d = mapper.digits_per_char

  abbrev front : List ℕ → List ℕ
  front xs = take (k * d) xs

  chunk_pos : 0 < k * d
  chunk_pos = mul-pos some_groups some_digits

  letters_of-front :
      (xs : List ℕ)
      → letters_of mapper xs
        ≡ mapper.map (take (usable d (length (front xs))) (front xs))
          ++ letters_of mapper (drop (k * d) xs)
  letters_of-front xs =
      let u = usable d (length (front xs)) in
      let e : length (take u (front xs)) ≡ u =
        omega (arith, length-take u (front xs), usable-le d (length (front xs))) in
      ap mapper.map (take-usable-split d k xs some_digits)
      ∙ laws.maps_append (take u (front xs)) _ (rw e (mul-mod_left (length (front xs) / d) d))

  letters_of-stop : (xs : List ℕ) → usable d (length (front xs)) ≡ 0 → letters_of mapper xs ≡ []
  letters_of-stop xs h =
      let back : length (drop (k * d) xs) ≡ 0 = elim (dec_lt (length xs) (k * d)) [
        | yes short ↦ omega (arith, length-drop (k * d) xs)
        | no long ↦
            let e : length (front xs) ≡ k * d = omega (arith, length-take (k * d) xs) in
            let m : usable d (k * d) ≡ k * d = ap (λ q. q * d) (mul-div_cancel k some_digits) in
            absurd
              (let z : k * d ≡ 0 = sym m ∙ ap (usable d) (sym e) ∙ h in omega (arith, chunk_pos))
      ] in
      letters_of-front xs
      ∙ rw (h, nil_of_length (drop (k * d) xs) back, laws.maps_nil)
          (ap mapper.map (take_nil (usable d 0)) ∙ laws.maps_nil)

  module _ {S : Type 0} (source : DigitSource S) (rest : S → List ℕ)
      (reading : SourceLaws S source rest) (ac : AhoCorasick) where
    pub chunk_loop-letters_of :
        (fuel : ℕ) (s : S) (off state : ℕ)
        → length (rest s) < fuel
        → chunk_loop source mapper ac (k * d) fuel s off state
          ≡ some
              (letters_of mapper (rest s), (scan_chunk ac (letters_of mapper (rest s)) off state).0)
    unfolding chunk_loop scan_chunk
    chunk_loop-letters_of zero s off state h = absurd (omega arith)
    chunk_loop-letters_of (suc fuel) s off state h =
        rw (reading.reads s (k * d)) (elim (Bool-cases (length (front (rest s)) == 0)) [
          | inl none_left ↦
              let e : length (front (rest s)) ≡ 0 = ground arith in
              let z : usable d (length (front (rest s))) ≡ 0 =
                omega (arith, usable-le d (length (front (rest s)))) in
              rw (none_left, letters_of-stop (rest s) z) refl
          | inr some_left ↦ elim (Bool-cases (usable d (length (front (rest s))) == 0)) [
            | inl no_group ↦
                let z : usable d (length (front (rest s))) ≡ 0 = ground arith in
                rw (some_left, no_group, letters_of-stop (rest s) z) refl
            | inr group ↦
                let e : length (rest (source.next_chunk s (k * d)).1) < fuel =
                  rw (reading.moves s (k * d)) (
                    ground (
                      arith,
                      chunk_pos,
                      length-drop (k * d) (rest s),
                      length-take (k * d) (rest s),
                    )) in
                rw
                  (
                    some_left,
                    group,
                    chunk_loop-letters_of fuel (source.next_chunk s (k * d)).1 _ _ e,
                    reading.moves s (k * d),
                    letters_of-front (rest s),
                    scan_chunk-append,
                  )
                  refl
          ]
        ])
