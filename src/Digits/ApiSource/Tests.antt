-- ===== src/Digits/ApiSource/Tests.antt =====
-- A server of the number whose digits count up that reads the offset from the request, refuses each first
-- attempt and answers the second one with two digits, and a server that answers with nothing.
use pi_poetry.Base.{
  ℕ, zero, suc, ◌+◌, ◌%◌, ◌≡◌, refl, Option, none, some, [], ◌∷◌, Bytes, bytes, map,
}
use pi_poetry.Base.Int.{pos, negsuc}
use pi_poetry.Base.Result.{ok, err}
use pi_poetry.Base.Strings.{to_string}
use pi_poetry.Digits.ApiSource.{
  ApiConfig, Response, Get, Field, no_answer, query, batch, fetch_range, read_loop, ApiDigitSource,
  next_chunk, reset,
}
use pi_poetry.Digits.ApiSource.Requests.{param}
use pi_poetry.Digits.ApiSource.Reading.{read_loop-endless}

abbrev config : ApiConfig
config = record {
  path_prefix = bytes "/v1/pi";
  start_param = bytes "start";
  count_param = bytes "numberOfDigits";
  max_per_request = pos 1000;
}

query_test : query config 31 (batch config 4) ≡ bytes "/v1/pi?start=31&numberOfDigits=4"
unfolding to_string
query_test = refl

-- A negative size asks for all that is missing; from 2^31 digits on the request is for a negative number.
negative_size_test :
    map (batch (record config { max_per_request = negsuc 0 })) (7 ∷ 2147483649 ∷ [])
    ≡ pos 7 ∷ negsuc 2147483646 ∷ []
negative_size_test = refl

-- The number whose digits count up.
abbrev counting : ℕ → ℕ
counting n = n % 10

abbrev two_digits : ℕ → Bytes
two_digits start = (48 + start % 10) ∷ (48 + suc start % 10) ∷ []

abbrev answer : Option ℕ → Response
answer none = record { status = 400; body = [] }
answer (some start) = record { status = 200; body = two_digits start }

abbrev patient : Get
patient q zero = some (record { status = 503; body = [] })
patient q (suc attempt) = some (answer (param q (bytes "start")))

abbrev whole_body : Field
whole_body body = ok body

refused_test : fetch_range (λ q attempt. none) whole_body config 5 (pos 10) ≡ err no_answer
unfolding fetch_range
refused_test = refl

abbrev source : ApiDigitSource
source = record { cfg = config; max_digits = 0; seq_pos = 100 }

-- Reset, the source starts at the first digit again.
reset_test :
    next_chunk patient whole_body 3 (reset source) 3
    ≡ some (ok (0 ∷ 1 ∷ 2 ∷ []), record source { seq_pos = 3 })
unfolding next_chunk to_string
reset_test = refl

abbrev silent : Get
silent q attempt = some (record { status = 200; body = [] })

read_loop-endless_example : read_loop silent whole_body config 50 0 0 4 ≡ none
unfolding fetch_range
read_loop-endless_example = read_loop-endless silent whole_body config 50 0 0 3 refl
