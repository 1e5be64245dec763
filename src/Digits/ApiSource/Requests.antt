-- ===== src/Digits/ApiSource/Requests.antt =====
-- How a server reads the requests of `fetch_range`: the parameters after the question mark, separated by
-- `&`, each a name and a decimal number around `=`.
use pi_poetry.Base.{
  ℕ, ◌<◌, ◌^◌, ◌≡◌, refl, sym, ap, ◌∙◌, Option, none, some, true, false, List, [], ◌∷◌, ◌++◌,
  append_assoc, ◌==◌, if◌then◌else◌, All, All-append, arith, Bytes, bytes_eq, bytes_eq_refl,
}
use pi_poetry.Base.Int.{pos}
use pi_poetry.Base.Strings.{onto_first, is_decimal, to_string, stoul}
use pi_poetry.Base.Strings.Numerals.{to_string-decimal, stoul-to_string}
use pi_poetry.Digits.ApiSource.{ApiConfig, query}

-- What stands before the first byte `b`, and after it.
abbrev pub before : ℕ → Bytes → Bytes
before b [] = []
before b (c ∷ cs) = let rest = before b cs in if c == b then [] else c ∷ rest

abbrev pub after : ℕ → Bytes → Bytes
after b [] = []
after b (c ∷ cs) = let rest = after b cs in if c == b then cs else rest

-- The parts between the bytes `b`.
abbrev pub split : ℕ → Bytes → List Bytes
split b [] = [] ∷ []
split b (c ∷ cs) = let rest = split b cs in if c == b then [] ∷ rest else onto_first c rest

-- The value of the first part with the name.
abbrev pub named : Bytes → List Bytes → Option ℕ
named name [] = none
named name (part ∷ parts) =
    let rest = named name parts in
    if bytes_eq (before b'=' part) name then stoul (after b'=' part) else rest

-- A request's parameter.
abbrev pub param : Bytes → Bytes → Option ℕ
param q name = named name (split b'&' (after b'?' q))

abbrev pub Lacks : ℕ → Bytes → Type 0
Lacks b xs = All (λ c. (c == b) ≡ false) xs

-- The names cannot be confused with one another or with what separates them.
pub record WellNamed (cfg : ApiConfig) : Type 0 where
  pub path : Lacks b'?' cfg.path_prefix
  pub start_name : Lacks b'=' cfg.start_param × Lacks b'&' cfg.start_param
  pub count_name : Lacks b'=' cfg.count_param × Lacks b'&' cfg.count_param
  pub differ : bytes_eq cfg.start_param cfg.count_param ≡ false

before-append : (b : ℕ) (xs ys : Bytes) → Lacks b xs → before b (xs ++ (b ∷ ys)) ≡ xs
before-append b [] ys h = ground arith
before-append b (x ∷ xs) ys (hx, hs) = rw hx (ap (◌∷◌ x) (before-append b xs ys hs))

after-append : (b : ℕ) (xs ys : Bytes) → Lacks b xs → after b (xs ++ (b ∷ ys)) ≡ ys
after-append b [] ys h = ground arith
after-append b (x ∷ xs) ys (hx, hs) = rw hx (after-append b xs ys hs)

split-append : (b : ℕ) (xs ys : Bytes) → Lacks b xs → split b (xs ++ (b ∷ ys)) ≡ xs ∷ split b ys
split-append b [] ys h = ground arith
split-append b (x ∷ xs) ys (hx, hs) = rw hx (ap (onto_first x) (split-append b xs ys hs))

split-whole : (b : ℕ) (xs : Bytes) → Lacks b xs → split b xs ≡ xs ∷ []
split-whole b [] h = refl
split-whole b (x ∷ xs) (hx, hs) = rw hx (ap (onto_first x) (split-whole b xs hs))

decimal-Lacks :
    (b : ℕ) (xs : Bytes) → is_decimal b ≡ false → All (λ c. is_decimal c ≡ true) xs → Lacks b xs
decimal-Lacks b [] h digits = tt
decimal-Lacks b (x ∷ xs) h (hx, hs) = (ground arith, decimal-Lacks b xs h hs)

-- One parameter of a request.
abbrev assignment : Bytes → ℕ → Bytes
assignment name n = name ++ (b'=' ∷ to_string n)

assignment-Lacks : (name : Bytes) (n : ℕ) → Lacks b'&' name → Lacks b'&' (assignment name n)
assignment-Lacks name n h =
    All-append (λ c. (c == b'&') ≡ false) name (b'=' ∷ to_string n) h
      (refl, decimal-Lacks b'&' (to_string n) refl (to_string-decimal n))

module _ (cfg : ApiConfig) (well : WellNamed cfg) (start count : ℕ) (fits : start < 2 ^ 64)
    (small : count < 2 ^ 64) where
  parts :
      split b'&' (after b'?' (query cfg start (pos count)))
      ≡ assignment cfg.start_param start ∷ assignment cfg.count_param count ∷ []
  parts =
      let first = assignment cfg.start_param start in
      let second = assignment cfg.count_param count in
      ap (split b'&') (after-append b'?' cfg.path_prefix _ well.path)
      ∙ ap (split b'&')
          (sym (append_assoc cfg.start_param (b'=' ∷ to_string start) (b'&' ∷ second)))
      ∙ split-append b'&' first second (assignment-Lacks cfg.start_param start well.start_name.1)
      ∙ ap (◌∷◌ first)
          (split-whole b'&' second (assignment-Lacks cfg.count_param count well.count_name.1))

  pub param-start : param (query cfg start (pos count)) cfg.start_param ≡ some start
  param-start =
      rw
        (
          parts,
          before-append b'=' cfg.start_param (to_string start) well.start_name.0,
          after-append b'=' cfg.start_param (to_string start) well.start_name.0,
          bytes_eq_refl cfg.start_param,
          stoul-to_string start fits,
        )
        refl

  pub param-count : param (query cfg start (pos count)) cfg.count_param ≡ some count
  param-count =
      rw
        (
          parts,
          before-append b'=' cfg.start_param (to_string start) well.start_name.0,
          well.differ,
          before-append b'=' cfg.count_param (to_string count) well.count_name.0,
          after-append b'=' cfg.count_param (to_string count) well.count_name.0,
          bytes_eq_refl cfg.count_param,
          stoul-to_string count small,
        )
        refl
