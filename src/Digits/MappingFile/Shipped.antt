-- ===== src/Digits/MappingFile/Shipped.antt =====
-- config/mappings/two_digit_block.txt, the mapping file that is shipped, against `TwoDigitBlockMapper`.
use pi_poetry.Base.{
  ℕ, zero, suc, ◌+◌, ◌*◌, ◌/◌, ◌%◌, ◌<◌, ◌≡◌, refl, ap, ◌∙◌, List, [], ◌∷◌, length, get_or, All,
  arith, Bytes, bytes,
}
use pi_poetry.Base.Result.{ok}
use pi_poetry.Digits.TwoDigitBlock.{letter_of, map_pairs, two_digit_block}
use pi_poetry.Digits.MappingFile.{MappingFileMapper, load, map_blocks, mapping_file}

-- The file.
abbrev pub shipped : Bytes
shipped =
    bytes
      "# Two-digit block encoding: (d0*10 + d1) % 26 -> letter\n# Equivalent to TwoDigitBlockMapper hardcoded implementation\ndigits_per_char=2\nbase=10\n00 a\n01 b\n02 c\n03 d\n04 e\n05 f\n06 g\n07 h\n08 i\n09 j\n10 k\n11 l\n12 m\n13 n\n14 o\n15 p\n16 q\n17 r\n18 s\n19 t\n20 u\n21 v\n22 w\n23 x\n24 y\n25 z\n26 a\n27 b\n28 c\n29 d\n30 e\n31 f\n32 g\n33 h\n34 i\n35 j\n36 k\n37 l\n38 m\n39 n\n40 o\n41 p\n42 q\n43 r\n44 s\n45 t\n46 u\n47 v\n48 w\n49 x\n50 y\n51 z\n52 a\n53 b\n54 c\n55 d\n56 e\n57 f\n58 g\n59 h\n60 i\n61 j\n62 k\n63 l\n64 m\n65 n\n66 o\n67 p\n68 q\n69 r\n70 s\n71 t\n72 u\n73 v\n74 w\n75 x\n76 y\n77 z\n78 a\n79 b\n80 c\n81 d\n82 e\n83 f\n84 g\n85 h\n86 i\n87 j\n88 k\n89 l\n90 m\n91 n\n92 o\n93 p\n94 q\n95 r\n96 s\n97 t\n98 u\n99 v\n"

-- The letters of the values from `v` on, `n` of them.
abbrev pub block_letters : ℕ → ℕ → List ℕ
block_letters zero v = []
block_letters (suc n) v = (b'a' + v % 26) ∷ block_letters n (suc v)

abbrev pub shipped_mapper : MappingFileMapper
shipped_mapper = record {
  digits_per_char = 2;
  base = 10;
  table = block_letters 100 0;
  alphabet = bytes "abcdefghijklmnopqrstuvwxyz";
}

shipped_loads : load shipped ≡ ok shipped_mapper
unfolding load
shipped_loads = refl

get_or-block_letters : (n v i : ℕ) → i < n → get_or (block_letters n v) i 0 ≡ b'a' + (v + i) % 26
get_or-block_letters zero v i h = absurd (omega arith)
get_or-block_letters (suc n) v zero h = omega arith
get_or-block_letters (suc n) v (suc i) h =
    get_or-block_letters n (suc v) i (omega arith) ∙ omega arith

block_letter :
    (high low : ℕ)
    → high < 10
    → low < 10
    → get_or (block_letters 100 0) ((0 * 10 + high) * 10 + low) 0 ≡ letter_of high low
block_letter high low h l =
    get_or-block_letters 100 0 ((0 * 10 + high) * 10 + low) (omega arith) ∙ omega arith

map_blocks-shipped :
    (ds : List ℕ)
    → All (λ d. d < 10) ds
    → map_blocks shipped_mapper (length ds / 2) ds ≡ map_pairs ds
unfolding map_blocks map_pairs
map_blocks-shipped [] h = refl
map_blocks-shipped (d ∷ []) h = refl
map_blocks-shipped (high ∷ low ∷ ds) (h, (l, hs)) =
    let e : suc (suc (length ds)) / 2 ≡ suc (length ds / 2) = omega arith in
    let is = block_letter high low h l in
    rw e (
      ap (λ c. c ∷ map_blocks shipped_mapper (length ds / 2) ds) is
      ∙ ap (◌∷◌ (letter_of high low)) (map_blocks-shipped ds hs))

-- The mapping file that is shipped loads, and on decimal digits its mapper writes the letters that the
-- built-in mapper for two-digit blocks writes.
pub shipped-eq-two_digit_block :
    (ds : List ℕ)
    → All (λ d. d < 10) ds
    → (m : MappingFileMapper) × (load shipped ≡ ok m)
      × ((mapping_file m).map ds ≡ two_digit_block.map ds)
shipped-eq-two_digit_block ds h = (shipped_mapper, shipped_loads, map_blocks-shipped ds h)
