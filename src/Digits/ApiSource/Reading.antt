-- ===== src/Digits/ApiSource/Reading.antt =====
-- What `read_at` reads from a server, and when it does not end.
use pi_poetry.Base.{
  ℕ, zero, suc, ◌+◌, ◌-◌, ◌^◌, ◌<◌, ◌≡◌, ◌⊎◌, refl, true, false, Option, none, some, List, [], ◌∷◌,
  map, ◌==◌, arith, length, Bytes, add64,
}
use pi_poetry.Base.Result.{Result, ok}
use pi_poetry.Digits.ApiSource.{
  Response, ApiConfig, Get, Field, fetch_range, digit_value, read_loop, batch,
}
use pi_poetry.Base.Int.{pos}
use pi_poetry.Digits.ApiSource.Requests.{param, WellNamed}

-- The digits of a number from an offset on.
abbrev pub digits_at : (ℕ → ℕ) → ℕ → ℕ → List ℕ
digits_at number start zero = []
digits_at number start (suc k) = number start ∷ digits_at number (suc start) k

-- An attempt that is answered with the text, after others that were not or with another status.
abbrev pub Refused : Option Response → Type 0
Refused none = Unit
Refused (some res) = (res.status == 200) ≡ false

abbrev pub Answers : Get → Field → Bytes → ℕ → ℕ → Bytes → Type 0
Answers get field q attempt zero text = ⊥
Answers get field q attempt (suc left) text =
    ((res : Response) × (get q attempt ≡ some res)
      × ((res.status == 200) ≡ true)
      × (field res.body ≡ ok text))
    ⊎ (Refused (get q attempt) × Answers get field q (suc attempt) left text)

-- The server reads two parameters, by their names, of the text of a request, and answers every request
-- for at least one digit within three attempts: with some digits of the number from `start` on, at least
-- one.
abbrev pub Serves : Get → Field → ApiConfig → (ℕ → ℕ) → Type 0
Serves get field cfg number =
    (q : Bytes) (start count : ℕ)
    → param q cfg.start_param ≡ some start
    → param q cfg.count_param ≡ some count
    → 0 < count
    → (text : Bytes) × Answers get field q 0 3 text
      × (0 < length text)
      × (map digit_value text ≡ digits_at number start (length text))

-- A configuration that asks for at least one digit at a time, by names that a server can tell apart.
pub record Usable (cfg : ApiConfig) : Type 0 where
  pub named : WellNamed cfg
  pub size : ℕ
  pub is_size : cfg.max_per_request ≡ pos size
  pub positive : 0 < size
  pub is_int : size < 2 ^ 31

-- When the server answers the request at an offset with no digit, `read_at` asks again and again: for no
-- number of rounds does it end.
pub read_loop-endless :
    (get : Get) (field : Field) (cfg : ApiConfig) (fuel digit_offset filled n : ℕ)
    → fetch_range get field cfg (add64 digit_offset filled) (batch cfg (suc n)) ≡ ok []
    → read_loop get field cfg fuel digit_offset filled (suc n) ≡ none
unfolding read_loop
read_loop-endless get field cfg zero digit_offset filled n empty = refl
read_loop-endless get field cfg (suc fuel) digit_offset filled n empty =
    let same : filled + 0 ≡ filled = omega arith in
    let all : suc n - 0 ≡ suc n = omega arith in
    rw (empty, same, all, read_loop-endless get field cfg fuel digit_offset filled n empty) refl
