-- ===== src/Analyzer/Stream/Tests.antt =====
-- A range of a small file.
use pi_poetry.Base.{◌≡◌, refl, arith, ◌++◌, bytes}
use pi_poetry.Analyzer.Stream.{opened, read_all, phrases_prefix, phrases_suffix}
use pi_poetry.Analyzer.Stream.Draining.{read_all-opened, range_text}

range_test : range_text (bytes "[{1},{2}]") 1 4 ≡ bytes "{1}"
range_test = refl

read_all-opened_example :
    read_all 20 (opened (bytes "[{1},{2}]") 1 4)
    ≡ phrases_prefix ++ (range_text (bytes "[{1},{2}]") 1 4 ++ phrases_suffix)
read_all-opened_example = read_all-opened (bytes "[{1},{2}]") 1 4 20 (omega arith)
