-- ===== src/Analyzer/Files/Names.antt =====
-- The names of the writer's files: the length is read back from its name, and files of different
-- lengths have different names.
use pi_poetry.Base.{
  ℕ, ◌+◌, ◌-◌, ◌*◌, ◌^◌, ◌≤◌, ◌<◌, ◌≡◌, refl, sym, ap, ◌∙◌, true, false, [], ◌∷◌, ◌++◌,
  append_assoc, arith, All, ◌==◌, leb, ==_iff, length, take, drop, Bytes, bytes_eq, bytes_eq_refl,
  bytes_eq→eq, Bool-cases, inl, inr,
}
use pi_poetry.Base.Lists.{length-append}
use pi_poetry.Base.Slices.{take_whole, drop_whole}
use pi_poetry.Base.Map.{find}
use pi_poetry.Base.Strings.{is_decimal, digits_from, to_string}
use pi_poetry.Base.Strings.Numerals.{
  to_string-decimal, to_string-cons, digits_from-to_string, stoul-to_string,
}
use pi_poetry.Analyzer.Files.{
  name_prefix, name_suffix, file_name, of_length, ends_with, name_length, read_file, Files,
  directory,
}

length-file_name : (len : ℕ) → length (file_name len) ≡ 15 + (length (to_string len) + 4)
length-file_name len = omega (
  arith,
  length-append name_prefix (to_string len ++ name_suffix),
  length-append (to_string len) name_suffix,
)

ends_with_suffix : (len : ℕ) → ends_with (file_name len) name_suffix ≡ true
ends_with_suffix len =
    let t = to_string len in
    let n = length-append name_prefix t in
    let e : length (file_name len) - length name_suffix ≡ length (name_prefix ++ t) =
      omega (arith, length-file_name len) in
    let dropped : drop (length (file_name len) - length name_suffix) (file_name len) ≡ name_suffix =
      ap (λ k. drop k (file_name len)) e
      ∙ ap (drop (length (name_prefix ++ t))) (sym (append_assoc name_prefix t name_suffix))
      ∙ drop_whole (name_prefix ++ t) name_suffix in
    ap (λ s. bytes_eq s name_suffix) dropped

middle :
    (len : ℕ)
    → take
        (length (file_name len) - length name_prefix - length name_suffix)
        (drop (length name_prefix) (file_name len))
      ≡ to_string len
middle len =
    let t = to_string len in
    let e : length (file_name len) - length name_prefix - length name_suffix ≡ length t =
      omega (arith, length-file_name len) in
    ap (λ k. take k (drop (length name_prefix) (file_name len))) e ∙ take_whole t name_suffix

pub name_length-file_name : (len : ℕ) → len < 2 ^ 64 → name_length (file_name len) ≡ of_length len
name_length-file_name len h =
    let (c, cs, e) = to_string-cons len in
    let n : 1 ≤ length (to_string len) = rw e (omega arith) in
    let long : leb (length (file_name len)) (length name_prefix + length name_suffix) ≡ false =
      let l = length-file_name len in ground arith in
    rw (long, ends_with_suffix len, middle len, stoul-to_string len h) refl

digits_from-dot :
    (n : ℕ) (t rest : Bytes)
    → All (λ c. is_decimal c ≡ true) t
    → digits_from n (t ++ b'.' ∷ rest) ≡ digits_from n t
digits_from-dot n [] rest h = refl
digits_from-dot n (c ∷ t) rest h = rw h.0 (digits_from-dot (n * 10 + (c - 48)) t rest h.1)

same_name : (a b : ℕ) → file_name a ≡ file_name b → a ≡ b
same_name a b e =
    let value : (n : ℕ) → digits_from 0 (to_string n ++ name_suffix) ≡ n =
      λ n. digits_from-dot 0 (to_string n) _ (to_string-decimal n) ∙ digits_from-to_string n in
    sym (value a) ∙ ap (λ s. digits_from 0 (drop 15 s)) e ∙ value b

bytes_eq-file_name : (a b : ℕ) → bytes_eq (file_name a) (file_name b) ≡ (a == b)
bytes_eq-file_name a b = elim (Bool-cases (bytes_eq (file_name a) (file_name b))) [
  | inl same ↦ same ∙ sym ((==_iff a b).1 (same_name a b (bytes_eq→eq _ _ same)))
  | inr other ↦ elim (Bool-cases (a == b)) [
    | inl e ↦
        let f = (==_iff a b).0 e in
        ap (λ n. bytes_eq (file_name a) (file_name n)) (sym f) ∙ bytes_eq_refl (file_name a) ∙ sym e
    | inr ne ↦ other ∙ sym ne
  ]
]

-- A file of a directory is found by its length.
pub read_file-directory :
    (len : ℕ) (files : Files) → read_file (file_name len) (directory files) ≡ find len files
unfolding find
read_file-directory len [] = refl
read_file-directory len ((j, content) ∷ files) =
    rw (bytes_eq-file_name j len, read_file-directory len files) refl
