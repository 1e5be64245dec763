-- ===== src/Digits/ApiSource.antt =====
-- src/digit_source/ApiDigitSource.cpp: the reading of digits over HTTP. `get` stands for the HTTP client,
-- the response to a query at an attempt, and `field` for the JSON parser, the string in the digits field of
-- a response's body or the error that it leads to.
pub mod Requests
pub mod Reading
mod Tests
use pi_poetry.Base.{
  ℕ, zero, suc, ◌+◌, ◌-◌, ◌%◌, min, Bool, Option, none, some, List, [], ◌∷◌, ◌++◌, map, ltb, ◌==◌,
  if◌then◌else◌, length, take, Bytes, add64,
}
use pi_poetry.Base.Int.{ℤ, int_to_size, size_to_int, int_to_string}
use pi_poetry.Base.Result.{Result, ok, err}
use pi_poetry.Base.Strings.{to_string}

-- What `fetch_range` throws.
pub data ApiError : Type 0 where
  missing_field json_error no_answer : ApiError

pub record Response : Type 0 where
  pub status : ℕ
  pub body : Bytes

-- What the requests need of `ApiConfig`, and `path_prefix_`, the path of its `base_url`. Its
-- `max_per_request` is an `int`, which a configuration can also make zero or negative.
pub record ApiConfig : Type 0 where
  pub path_prefix : Bytes
  pub start_param : Bytes
  pub count_param : Bytes
  pub max_per_request : ℤ

abbrev pub Get : Type 0
Get = Bytes → ℕ → Option Response

abbrev pub Field : Type 0
Field = Bytes → Result ApiError Bytes

abbrev pub query : ApiConfig → ℕ → ℤ → Bytes
query cfg start count =
    cfg.path_prefix
    ++ (b'?'
        ∷ (cfg.start_param
            ++ (b'='
                ∷ (to_string start ++ (b'&' ∷ (cfg.count_param ++ (b'=' ∷ int_to_string count)))))))

-- No answer, or one with another status, leads to the next attempt.
abbrev pub answered : Field → Option Response → Result ApiError Bytes → Result ApiError Bytes
answered field none next = next
answered field (some res) next = if res.status == 200 then field res.body else next

abbrev pub attempts : Get → Field → Bytes → ℕ → ℕ → Result ApiError Bytes
attempts get field q attempt zero = err no_answer
attempts get field q attempt (suc left) =
    answered field (get q attempt) (attempts get field q (suc attempt) left)

unfoldable pub fetch_range : Get → Field → ApiConfig → ℕ → ℤ → Result ApiError Bytes
fetch_range get field cfg start count = attempts get field (query cfg start count) 0 3

-- `static_cast<uint8_t>(c - '0')`.
abbrev pub digit_value : ℕ → ℕ
digit_value c = (c + 208) % 256

-- A round of `read_at`: an error ends it; else come the digits that fit and what the next rounds read.
abbrev pub put_before :
    List ℕ → Option (Result ApiError (List ℕ)) → Option (Result ApiError (List ℕ))
put_before got none = none
put_before got (some (err e)) = some (err e)
put_before got (some (ok rest)) = some (ok (got ++ rest))

abbrev pub round :
    ℕ
    → Result ApiError Bytes
    → (ℕ → Option (Result ApiError (List ℕ)))
    → Option (Result ApiError (List ℕ))
round need (err e) next = some (err e)
round need (ok digits) next =
    let got = take need (map digit_value digits) in put_before got (next (length got))

-- `batch` of a round, for the digits that are still missing.
abbrev pub batch : ApiConfig → ℕ → ℤ
batch cfg need = size_to_int (min (int_to_size cfg.max_per_request) need)

-- The loop of `read_at` from `filled` on, with `need` digits still missing; `none` when the fuel is used
-- up.
unfoldable pub read_loop :
    Get → Field → ApiConfig → ℕ → ℕ → ℕ → ℕ → Option (Result ApiError (List ℕ))
unfolding fetch_range
read_loop get field cfg fuel digit_offset filled zero = some (ok [])
read_loop get field cfg zero digit_offset filled (suc n) = none
read_loop get field cfg (suc fuel) digit_offset filled (suc n) =
    round (suc n) (fetch_range get field cfg (add64 digit_offset filled) (batch cfg (suc n)))
      (λ got. read_loop get field cfg fuel digit_offset (filled + got) (suc n - got))

unfoldable pub read_at : Get → Field → ApiConfig → ℕ → ℕ → ℕ → Option (Result ApiError (List ℕ))
unfolding read_loop
read_at get field cfg fuel digit_offset n = read_loop get field cfg fuel digit_offset 0 n

-- The members of `ApiDigitSource` that the operations use.
pub record ApiDigitSource : Type 0 where
  pub cfg : ApiConfig
  pub max_digits : ℕ
  pub seq_pos : ℕ

-- `next_chunk`: the digits and the new position; what `read_at` throws leaves the position as it is.
abbrev pub move_on :
    ApiDigitSource
    → Option (Result ApiError (List ℕ))
    → Option (Result ApiError (List ℕ) × ApiDigitSource)
move_on s none = none
move_on s (some (err e)) = some (err e, s)
move_on s (some (ok got)) = some (ok got, record s { seq_pos = add64 s.seq_pos (length got) })

unfoldable pub next_chunk :
    Get → Field → ℕ → ApiDigitSource → ℕ → Option (Result ApiError (List ℕ) × ApiDigitSource)
unfolding read_at
next_chunk get field fuel s n = move_on s (read_at get field s.cfg fuel s.seq_pos n)

abbrev pub reset : ApiDigitSource → ApiDigitSource
reset s = record s { seq_pos = 0 }

abbrev pub is_finite : ApiDigitSource → Bool
is_finite s = ltb 0 s.max_digits

abbrev pub estimated_length : ApiDigitSource → Option ℕ
estimated_length s = if s.max_digits == 0 then none else some s.max_digits
