-- ===== src/Pipeline/Stage/Tests.antt =====
-- One worker that works one package off.
use pi_poetry.Base.{ℕ, ◌+◌, refl, List, [], ◌∷◌, map, concat, true, false, arith}
use pi_poetry.Pipeline.Stage.{
  push, pop, finished, Stage, started, feed, close, claim, emit, again, exit, deliver, Reachable,
  start, step,
}
use pi_poetry.Pipeline.Stage.Capacity.{Within, Reachable-Within}
use pi_poetry.Pipeline.Stage.Results.{SameElements, delivered-SameElements}

abbrev double : ℕ → List ℕ
double x = (x + x) ∷ []

abbrev worked_off : Stage ℕ ℕ
worked_off = record {
  in_q = record { q = []; capacity = 2; done = true };
  out_q = record { q = []; capacity = 2; done = true };
  workers = finished ∷ [];
  active = 0;
  accepted = 3 ∷ [];
  delivered = 6 ∷ [];
}

worked_off-Reachable : Reachable double 1 2 2 worked_off
unfolding push pop
worked_off-Reachable =
    step _ _
      (step _ _
        (step _ _
          (step _ _
            (step _ _
              (step _ _
                (step _ _ start (
                  feed (started 1 2 2) 3 (record { q = 3 ∷ []; capacity = 2; done = false }) refl
                    refl))
                (claim _ 0 (record { q = []; capacity = 2; done = false }) 3 refl refl))
              (emit _ 0 6 [] (record { q = 6 ∷ []; capacity = 2; done = false }) refl refl))
            (again _ 0 refl))
          (deliver _ (record { q = []; capacity = 2; done = false }) 6 refl))
        (close _))
      (exit _ 0 (record { q = []; capacity = 2; done = true }) refl refl)

delivered-SameElements_example : SameElements (6 ∷ []) (concat (map double (3 ∷ [])))
delivered-SameElements_example =
    delivered-SameElements double 1 2 2 worked_off (omega arith) worked_off-Reachable refl refl

Reachable-Within_example : Within 2 worked_off.in_q × Within 2 worked_off.out_q
Reachable-Within_example = Reachable-Within double 1 2 2 worked_off worked_off-Reachable
