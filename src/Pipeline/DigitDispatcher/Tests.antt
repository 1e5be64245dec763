-- ===== src/Pipeline/DigitDispatcher/Tests.antt =====
-- Seven digits in chunks of three, the first five of them wanted.
use pi_poetry.Base.{ℕ, ◌*◌, ◌≡◌, refl, none, some, List, [], ◌∷◌, arith, take, drop, concat, map}
use pi_poetry.Pipeline.DigitDispatcher.{
  DigitDispatcher, ReadAt, past_end, effective_chunk, package_for, next, packages,
}
use pi_poetry.Pipeline.DigitDispatcher.Coverage.{
  real_digits, wanted, real_digits-package_for, concat-packages_start,
}

abbrev digits : List ℕ
digits = 3 ∷ 1 ∷ 4 ∷ 1 ∷ 5 ∷ 9 ∷ 2 ∷ []

abbrev read_digits : ReadAt
read_digits offset n = take n (drop offset digits)

abbrev dispatcher : DigitDispatcher
dispatcher = record { chunk_size = 3; lookahead_digits = 1; max_digits = 5; next_seq = 0 }

packages_test :
    packages read_digits 3 dispatcher
    ≡ some (record {
      seq_id = 0;
      global_digit_offset = 0;
      num_real_digits = 3;
      digits = 3 ∷ 1 ∷ 4 ∷ 1 ∷ [];
    })
      ∷ some (record {
        seq_id = 1;
        global_digit_offset = 3;
        num_real_digits = 2;
        digits = 1 ∷ 5 ∷ 9 ∷ [];
      })
      ∷ none
      ∷ []
unfolding packages next package_for past_end effective_chunk
packages_test = refl

real_digits-package_for_example :
    real_digits (package_for read_digits dispatcher 1) ≡ take 3 (drop 3 (wanted 5 digits))
real_digits-package_for_example =
    real_digits-package_for digits read_digits (λ offset n. refl) dispatcher 1
      (omega arith, omega arith, omega arith)

concat-packages_start_example :
    concat (map real_digits (packages read_digits 3 dispatcher)) ≡ take (3 * 3) (wanted 5 digits)
concat-packages_start_example =
    concat-packages_start digits read_digits (λ offset n. refl) 3 dispatcher refl
      (omega arith, omega arith, omega arith)
