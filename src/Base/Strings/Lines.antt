-- ===== src/Base/Strings/Lines.antt =====
-- Lines and words of a text that is put together from them.
use Prim.Native.Nat.{ℕ}
use mathlib.Core.Path.{◌≡◌, refl}
use mathlib.Core.Bool.{true, false}
use mathlib.Core.List.{[], ◌∷◌, ◌++◌}
use pi_poetry.Base.Tests.{◌==◌}
use pi_poetry.Base.Lists.{All}
use pi_poetry.Base.Text.{Bytes}
use pi_poetry.Base.Strings.{lines, is_space, word}

pub lines-append :
    (l rest : Bytes) → All (λ c. c == 10 ≡ false) l → lines (l ++ (10 ∷ rest)) ≡ l ∷ lines rest
lines-append [] rest h = refl
lines-append (c ∷ l) rest (h, hs) = rw (h, lines-append l rest hs) refl

-- A word ends at a space, or with the text.
pub word-append :
    (w : Bytes) (c : ℕ) (rest : Bytes)
    → All (λ d. is_space d ≡ false) w
    → is_space c ≡ true
    → word (w ++ (c ∷ rest)) ≡ (w, c ∷ rest)
word-append [] c rest h space = rw space refl
word-append (d ∷ w) c rest (h, hs) space = rw (h, word-append w c rest hs space) refl

pub word-All : (w : Bytes) → All (λ d. is_space d ≡ false) w → word w ≡ (w, [])
word-All [] h = refl
word-All (d ∷ w) (h, hs) = rw (h, word-All w hs) refl
