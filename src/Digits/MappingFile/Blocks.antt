-- ===== src/Digits/MappingFile/Blocks.antt =====
-- The blocks of `map`, and the laws of a digit mapper.
use native.Mathlib.Nat.{zero-div, mod-add-div', mul-add-div_right}
use pi_poetry.Base.{
  ℕ, zero, suc, ◌+◌, ◌*◌, ◌/◌, ◌≤◌, ◌<◌, ◌≡◌, refl, ap, ◌∙◌, List, [], ◌∷◌, ◌++◌, length,
  length-append, length-drop, take, drop, get_or, arith,
}
use pi_poetry.Base.Slices.{take-append_le, drop-append_le}
use pi_poetry.Digits.{MapperLaws}
use pi_poetry.Digits.MappingFile.{MappingFileMapper, block_value, map_blocks, mapping_file}

map_blocks-append :
    (m : MappingFileMapper) (k n : ℕ) (xs ys : List ℕ)
    → length xs ≡ k * m.digits_per_char
    → map_blocks m (k + n) (xs ++ ys) ≡ map_blocks m k xs ++ map_blocks m n ys
unfolding map_blocks
map_blocks-append m zero n [] ys h = let e : 0 + n ≡ n = omega arith in rw e refl
map_blocks-append m zero n (x ∷ xs) ys h = absurd (omega arith)
map_blocks-append m (suc k) n xs ys h =
    let d = m.digits_per_char in
    let e : suc k + n ≡ suc (k + n) = omega arith in
    let long : d ≤ length xs = grind arith in
    let less : length (drop d xs) ≡ k * d = grind (arith, length-drop d xs) in
    rw (e, take-append_le d xs ys long, drop-append_le d xs ys long)
      (ap (◌∷◌ (get_or m.table (block_value m.base 0 (take d xs)) 0))
        (map_blocks-append m k n (drop d xs) ys less))

-- Whole blocks are mapped apart from what comes after them.
pub mapping_file-MapperLaws :
    (m : MappingFileMapper) → 0 < m.digits_per_char → MapperLaws (mapping_file m)
unfolding map_blocks
mapping_file-MapperLaws m some_digits = record {
  maps_nil = rw (zero-div m.digits_per_char) refl;
  maps_append = λ xs ys whole.
      let d = m.digits_per_char in
      let k = length xs / d in
      let e : length xs ≡ k * d = omega (arith, mod-add-div' (length xs) d) in
      let q : length (xs ++ ys) / d ≡ k + length ys / d =
        ap (λ n. n / d) (length-append xs ys ∙ ap (λ n. n + length ys) e)
        ∙ mul-add-div_right some_digits k (length ys) in
      rw q (map_blocks-append m k (length ys / d) xs ys e);
}
