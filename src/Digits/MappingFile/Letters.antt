-- ===== src/Digits/MappingFile/Letters.antt =====
-- The letters that a loaded mapping file's `map` writes: each block of digits is a number in the file's
-- base, the first digit the highest, and its letter is the table's character at that number.
use native.Mathlib.Nat.{pow-suc, pow-zero, mul-le-mul_right, mod-add-div'}
use pi_poetry.Base.{
  ℕ, zero, suc, ◌+◌, ◌*◌, ◌/◌, ◌^◌, ◌≤◌, ◌<◌, ◌≡◌, refl, sym, ap, ◌∙◌, some, List, [], ◌∷◌, length,
  length-take, length-drop, take, drop, get_or, get_elem?, All, arith, Bytes,
}
use pi_poetry.Base.Result.{ok}
use pi_poetry.Base.Slices.{drop-drop}
use pi_poetry.Digits.MappingFile.{MappingFileMapper, block_value, map_blocks, mapping_file, load}
use pi_poetry.Digits.MappingFile.Loaded.{load-Describes}

-- The number that the digits write in the base.
abbrev pub place_value : ℕ → List ℕ → ℕ
place_value base [] = 0
place_value base (d ∷ ds) = d * base ^ length ds + place_value base ds

-- The `i`-th block of `n` digits.
abbrev pub block : ℕ → ℕ → List ℕ → List ℕ
block n i digits = take n (drop (i * n) digits)

-- `out` has one letter for each whole block, the one that the table has at the block's number.
abbrev pub Letters : MappingFileMapper → List ℕ → Bytes → Type 0
Letters m digits out =
    (length out ≡ length digits / m.digits_per_char)
    × ((i : ℕ)
        → i < length digits / m.digits_per_char
        → (c : ℕ) × (get_elem? m.table (place_value m.base (block m.digits_per_char i digits))
            ≡ some c)
          × (get_elem? out i ≡ some c))

block_value-eq-place_value :
    (base value : ℕ) (ds : List ℕ)
    → block_value base value ds ≡ value * base ^ length ds + place_value base ds
block_value-eq-place_value base value [] = rw (pow-zero base) (omega arith)
block_value-eq-place_value base value (d ∷ ds) =
    block_value-eq-place_value base (value * base + d) ds ∙ grind (arith, pow-suc base (length ds))

place_value-lt :
    (base : ℕ) (ds : List ℕ) → All (λ d. d < base) ds → place_value base ds < base ^ length ds
place_value-lt base [] h = omega (arith, pow-zero base)
place_value-lt base (d ∷ ds) (hd, hs) =
    let more : suc d * base ^ length ds ≤ base * base ^ length ds =
      mul-le-mul_right (base ^ length ds) hd in
    omega (arith, more, place_value-lt base ds hs, pow-suc base (length ds))

All-take : (P : ℕ → Type 0) (n : ℕ) (xs : List ℕ) → All P xs → All P (take n xs)
All-take P zero xs h = tt
All-take P (suc n) [] h = tt
All-take P (suc n) (x ∷ xs) (hx, hs) = (hx, All-take P n xs hs)

All-drop : (P : ℕ → Type 0) (n : ℕ) (xs : List ℕ) → All P xs → All P (drop n xs)
All-drop P zero xs h = h
All-drop P (suc n) [] h = tt
All-drop P (suc n) (x ∷ xs) (hx, hs) = All-drop P n xs hs

get_elem?-inside : (xs : List ℕ) (i d : ℕ) → i < length xs → get_elem? xs i ≡ some (get_or xs i d)
get_elem?-inside [] i d h = absurd (omega arith)
get_elem?-inside (x ∷ xs) zero d h = refl
get_elem?-inside (x ∷ xs) (suc i) d h = get_elem?-inside xs i d (omega arith)

length-map_blocks :
    (m : MappingFileMapper) (n : ℕ) (digits : List ℕ) → length (map_blocks m n digits) ≡ n
unfolding map_blocks
length-map_blocks m zero digits = refl
length-map_blocks m (suc n) digits = ap suc (length-map_blocks m n (drop m.digits_per_char digits))

get_elem?-map_blocks :
    (m : MappingFileMapper) (n i : ℕ) (digits : List ℕ)
    → i < n
    → get_elem? (map_blocks m n digits) i
      ≡ some (get_or m.table (block_value m.base 0 (block m.digits_per_char i digits)) 0)
unfolding map_blocks
get_elem?-map_blocks m zero i digits h = absurd (omega arith)
get_elem?-map_blocks m (suc n) zero digits h =
    let e : 0 * m.digits_per_char ≡ 0 = omega arith in rw e refl
get_elem?-map_blocks m (suc n) (suc i) digits h =
    let d = m.digits_per_char in
    let e : d + i * d ≡ suc i * d = omega arith in
    get_elem?-map_blocks m n i (drop d digits) (omega arith)
    ∙ ap (λ ds. some (get_or m.table (block_value m.base 0 (take d ds)) 0))
        (drop-drop (i * d) d digits ∙ ap (λ k. drop k digits) e)

length-block : (n i : ℕ) (digits : List ℕ) → i < length digits / n → length (block n i digits) ≡ n
length-block n i digits h =
    let q = length digits / n in
    let whole : q * n ≤ length digits = omega (arith, mod-add-div' (length digits) n) in
    let up : suc i * n ≤ q * n = mul-le-mul_right n h in
    omega (arith, length-take n (drop (i * n) digits), length-drop (i * n) digits)

-- The mapper of a file that loads turns digits of the file's base into letters: one for each whole
-- block, namely the character that the table has at the number that the block writes in the base,
-- its first digit the highest. That number always lies in the table.
pub map-Letters :
    (file : Bytes) (m : MappingFileMapper)
    → load file ≡ ok m
    → (digits : List ℕ) → All (λ d. d < m.base) digits
    → Letters m digits ((mapping_file m).map digits)
map-Letters file m loads digits small = (
  length-map_blocks m (length digits / m.digits_per_char) digits,
  λ i h.
      let n = m.digits_per_char in
      let ds = block n i digits in
      let described = load-Describes file m loads in
      let long : length ds ≡ n = length-block n i digits h in
      let below =
        All-take (λ d. d < m.base) n (drop (i * n) digits)
          (All-drop (λ d. d < m.base) (i * n) digits small) in
      let value : block_value m.base 0 ds ≡ place_value m.base ds =
        block_value-eq-place_value m.base 0 ds ∙ omega arith in
      let size : m.base ^ length ds ≡ length m.table =
        ap (λ k. m.base ^ k) long ∙ sym described.size in
      (
        get_or m.table (place_value m.base ds) 0,
        get_elem?-inside m.table (place_value m.base ds) 0
            (omega (arith, place_value-lt m.base ds below, size)),
        get_elem?-map_blocks m (length digits / n) i digits h
            ∙ ap (λ v. some (get_or m.table v 0)) value,
      ),
)
