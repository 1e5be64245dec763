-- ===== src/Analyzer/Report/Order.antt =====
-- The order of the words is strict and total.
use pi_poetry.Base.{◌≡◌, refl, ap, ◌∙◌, true, false, [], ◌∷◌, arith, Bytes}
use pi_poetry.Analyzer.Report.{WordOccurrence, bytes_less, cmp}

bytes_less_irrefl : (a : Bytes) → bytes_less a a ≡ false
bytes_less_irrefl [] = refl
bytes_less_irrefl (x ∷ a) = ground (arith, bytes_less_irrefl a)

bytes_less_trans :
    (a b c : Bytes) → bytes_less a b ≡ true → bytes_less b c ≡ true → bytes_less a c ≡ true
bytes_less_trans [] [] c h k = cc
bytes_less_trans [] (y ∷ b) [] h k = cc
bytes_less_trans [] (y ∷ b) (z ∷ c) h k = refl
bytes_less_trans (x ∷ a) [] c h k = cc
bytes_less_trans (x ∷ a) (y ∷ b) [] h k = cc
bytes_less_trans (x ∷ a) (y ∷ b) (z ∷ c) h k = ground (arith, bytes_less_trans a b c)

bytes_less-connex : (a b : Bytes) → bytes_less a b ≡ false → bytes_less b a ≡ false → a ≡ b
bytes_less-connex [] [] h k = refl
bytes_less-connex [] (y ∷ b) h k = cc
bytes_less-connex (x ∷ a) [] h k = cc
bytes_less-connex (x ∷ a) (y ∷ b) h k = ground (arith, bytes_less-connex a b)

pub cmp_irrefl : (a : WordOccurrence) → cmp a a ≡ false
unfolding cmp
cmp_irrefl a = ground (arith, bytes_less_irrefl a.0)

pub cmp_trans : (a b c : WordOccurrence) → cmp a b ≡ true → cmp b c ≡ true → cmp a c ≡ true
unfolding cmp
cmp_trans a b c h k = ground (arith, bytes_less_trans a.0 b.0 c.0)

pub cmp-connex : (a b : WordOccurrence) → cmp a b ≡ false → cmp b a ≡ false → a ≡ b
unfolding cmp
cmp-connex a b h k =
    let word : a.0 ≡ b.0 = ground (arith, bytes_less-connex a.0 b.0) in
    let offset : a.1 ≡ b.1 = ground arith in ap (λ w. (w, a.1)) word ∙ ap (λ o. (b.0, o)) offset
