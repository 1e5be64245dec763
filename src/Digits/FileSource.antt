-- ===== src/Digits/FileSource.antt =====
-- `FileDigitSource` of src/digit_source/FileDigitSource.cpp: the file is the list of its bytes, and the
-- stream is the part of it that is still to be read.
use pi_poetry.Base.{
  ℕ, zero, suc, ◌+◌, ◌-◌, ◌%◌, ◌≡◌, refl, ap, Bool, true, ◌&&◌, List, [], ◌∷◌, map, Bytes, leb,
  if◌then◌else◌, take, drop, Bool-cases, inl, inr, ◌≤◌, All, arith,
}
use pi_poetry.Digits.{DigitSource, SourceLaws}

pub record FileDigitSource : Type 0 where
  pub file : Bytes
  pub stream : Bytes

abbrev pub is_digit : ℕ → Bool
is_digit c = leb b'0' c && leb c b'9'

-- The loop of `next_chunk`: the digits for a buffer of `n`, and the rest of the stream.
unfoldable pub read_digits : Bytes → ℕ → List ℕ × Bytes
read_digits stream zero = ([], stream)
read_digits [] (suc n) = ([], [])
read_digits (c ∷ stream) (suc n) =
    let skipped = read_digits stream (suc n) in
    let taken = read_digits stream n in
    if is_digit c then ((c - b'0') ∷ taken.0, taken.1) else skipped

unfoldable pub next_chunk : FileDigitSource → ℕ → List ℕ × FileDigitSource
unfolding read_digits
next_chunk s n = let got = read_digits s.stream n in (got.0, record s { stream = got.1 })

abbrev pub reset : FileDigitSource → FileDigitSource
reset s = record s { stream = s.file }

-- `read_at`: the bytes are not filtered, and a byte below '0' wraps around in `uint8_t`.
unfoldable pub read_at : FileDigitSource → ℕ → ℕ → List ℕ
read_at s digit_offset n = map (λ c. (c + 256 - b'0') % 256) (take n (drop digit_offset s.file))

abbrev pub file_source : DigitSource FileDigitSource
file_source = record { base = 10; reset = reset; next_chunk = next_chunk }

-- The digits among the bytes of a text.
abbrev pub digits_of : Bytes → List ℕ
digits_of [] = []
digits_of (c ∷ cs) = if is_digit c then (c - b'0') ∷ digits_of cs else digits_of cs

read_digits-eq-take :
    (stream : Bytes) (n : ℕ)
    → ((read_digits stream n).0 ≡ take n (digits_of stream))
      × (digits_of (read_digits stream n).1 ≡ drop n (digits_of stream))
unfolding read_digits
read_digits-eq-take [] zero = (refl, refl)
read_digits-eq-take (c ∷ stream) zero = (refl, refl)
read_digits-eq-take [] (suc n) = (refl, refl)
read_digits-eq-take (c ∷ stream) (suc n) = elim (Bool-cases (is_digit c)) [
  | inl digit ↦
      rw digit
        (ap (◌∷◌ (c - b'0')) (read_digits-eq-take stream n).0, (read_digits-eq-take stream n).1)
  | inr other ↦ rw other (read_digits-eq-take stream (suc n))
]

-- `next_chunk` gives the next `n` digits among the bytes of the stream, or all that are left, skipping
-- what is not a digit, and what is left afterwards is the digits behind them.
pub next_chunk-eq-take :
    (s : FileDigitSource) (n : ℕ)
    → ((next_chunk s n).0 ≡ take n (digits_of s.stream))
      × (digits_of (next_chunk s n).1.stream ≡ drop n (digits_of s.stream))
unfolding next_chunk
next_chunk-eq-take s n = read_digits-eq-take s.stream n

-- The file source keeps the laws of a digit source.
pub file_source-SourceLaws : SourceLaws FileDigitSource file_source (λ s. digits_of s.stream)
file_source-SourceLaws = record {
  reads = λ s n. (next_chunk-eq-take s n).0;
  moves = λ s n. (next_chunk-eq-take s n).1;
}

digit_value : (c : ℕ) → is_digit c ≡ true → (c + 256 - b'0') % 256 ≡ c - b'0'
digit_value c h = let low : 48 ≤ c = ground arith in let high : c ≤ 57 = ground arith in omega arith

drop-All : (P : ℕ → Type 0) (n : ℕ) (cs : List ℕ) → All P cs → All P (drop n cs)
drop-All P zero cs h = h
drop-All P (suc n) [] h = h
drop-All P (suc n) (c ∷ cs) h = drop-All P n cs h.1

read_digits-eq-map :
    (cs : Bytes) (n : ℕ)
    → All (λ c. is_digit c ≡ true) cs
    → map (λ c. (c + 256 - b'0') % 256) (take n cs) ≡ (read_digits cs n).0
unfolding read_digits
read_digits-eq-map [] zero h = refl
read_digits-eq-map [] (suc n) h = refl
read_digits-eq-map (c ∷ cs) zero h = refl
read_digits-eq-map (c ∷ cs) (suc n) h =
    rw (h.0, digit_value c h.0) (ap (◌∷◌ (c - b'0')) (read_digits-eq-map cs n h.1))

-- Where every byte of the file is a digit, `read_at` from an offset on gives the digits that
-- `next_chunk` gives once the stream stands there.
pub read_at-eq-next_chunk :
    (s : FileDigitSource) (digit_offset n : ℕ)
    → All (λ c. is_digit c ≡ true) s.file
    → read_at s digit_offset n ≡ (next_chunk (record s { stream = drop digit_offset s.file }) n).0
unfolding read_at next_chunk
read_at-eq-next_chunk s digit_offset n h =
    read_digits-eq-map (drop digit_offset s.file) n (drop-All _ digit_offset s.file h)
