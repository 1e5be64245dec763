-- ===== src/Pipeline/Stage/Invariant.antt =====
-- What holds in every stage that is reached.
use pi_poetry.Base.{
  ℕ, zero, suc, ◌+◌, ◌<◌, ◌≤◌, ◌≡◌, refl, sym, ◌∙◌, ap, true, false, Bool-cases, inl, inr, none,
  some, List, [], ◌∷◌, ◌++◌, set, get_elem?, arith, ◌==◌,
}
use pi_poetry.Pipeline.Stage.{
  BoundedQueue, push, pop, set_done, Worker, waiting, processing, finished, Stage, at_work, started,
  leave, Step, feed, close, claim, emit, again, exit, deliver, Reachable, start, step,
}
use pi_poetry.Pipeline.Stage.Sums.{total, total-append, total-set, total-get_elem?}
use pi_poetry.Pipeline.Stage.Queue.{push-open, pop-some, pop-none}

abbrev pub unfinished : {Out : Type 0} → Worker Out → ℕ
unfinished waiting = 1
unfinished (processing results) = 1
unfinished finished = 0

-- The weight of the results that a worker has still to push.
abbrev pub held : {Out : Type 0} → (Out → ℕ) → Worker Out → ℕ
held weight waiting = 0
held weight (processing results) = total weight results
held weight finished = 0

module _ {In Out : Type 0} (process : In → List Out) (weight : Out → ℕ) (n : ℕ) where
  abbrev pub made : In → ℕ
  made pkg = total weight (process pkg)

  -- No result is lost or made twice; `active` counts the workers that are not behind the loop; the
  -- output is closed by the last of them; and one leaves only once the input is closed and empty.
  pub record Sound (s : Stage In Out) : Type 0 where
    pub conserved :
        total weight s.delivered
          + total weight s.out_q.q
          + total (held weight) s.workers
          + total made s.in_q.q
        ≡ total made s.accepted
    pub counted : s.active ≡ total unfinished s.workers
    pub still_open : 0 < s.active → s.out_q.done ≡ false
    pub closed : s.active ≡ 0 → s.out_q.done ≡ true
    pub drained : s.active < n → (s.in_q.done ≡ true) × (s.in_q.q ≡ [])

  at_work-total :
      (m : ℕ)
      → (total (held weight) (at_work {Out = Out} m) ≡ 0)
        × (total unfinished (at_work {Out = Out} m) ≡ m)
  at_work-total zero = (refl, refl)
  at_work-total (suc m) = let (a, b) = at_work-total m in (omega (arith, a), omega (arith, b))

  started-Sound :
      (in_capacity out_capacity : ℕ) → 0 < n → Sound (started n in_capacity out_capacity)
  started-Sound ic oc h =
      let (a, b) = at_work-total n in
      record {
        conserved = omega (arith, a);
        counted = sym b;
        still_open = λ h. refl;
        closed = λ e. absurd (omega arith);
        drained = λ h. absurd (omega arith);
      }

  -- One lemma for each step.
  module _ (s : Stage In Out) (h : Sound s) where
    feed-Sound :
        (item : In) (b : BoundedQueue In)
        → s.in_q.done ≡ false
        → push s.in_q item ≡ some b
        → Sound (record s { in_q = b; accepted = s.accepted ++ item ∷ [] })
    feed-Sound item b opened e =
        let (room, eq) = push-open s.in_q item b opened e in
        let q = ap (λ c. total made c.q) eq ∙ total-append made s.in_q.q (item ∷ []) in
        record {
          conserved = omega (arith, h.conserved, q, total-append made s.accepted (item ∷ []));
          counted = h.counted;
          still_open = h.still_open;
          closed = h.closed;
          drained = λ lt. let (shut, _) = h.drained lt in absurd (cc (opened, shut));
        }

    claim-Sound :
        (i : ℕ) (b : BoundedQueue In) (pkg : In)
        → get_elem? s.workers i ≡ some waiting
        → pop s.in_q ≡ some (b, some pkg)
        → Sound (record s { in_q = b; workers = set s.workers i (processing (process pkg)) })
    claim-Sound i b pkg w e =
        let (first, _) = pop-some s.in_q b pkg e in
        record {
          conserved = omega (
            arith,
            h.conserved,
            ap (total made) first,
            total-set (held weight) s.workers i waiting (processing (process pkg)) w,
          );
          counted = omega (
            arith,
            h.counted,
            total-set unfinished s.workers i waiting (processing (process pkg)) w,
          );
          still_open = h.still_open;
          closed = h.closed;
          drained = λ lt. let (_, none_left) = h.drained lt in absurd (cc (first, none_left));
        }

    at_least : (i : ℕ) (w : Worker Out) → get_elem? s.workers i ≡ some w → unfinished w ≤ s.active
    at_least i w e = omega (arith, h.counted, total-get_elem? unfinished s.workers i w e)

    emit-Sound :
        (i : ℕ) (result : Out) (results : List Out) (b : BoundedQueue Out)
        → get_elem? s.workers i ≡ some (processing (result ∷ results))
        → push s.out_q result ≡ some b
        → Sound (record s { out_q = b; workers = set s.workers i (processing results) })
    emit-Sound i result results b w e =
        let busy : 0 < s.active = at_least i _ w in
        let (room, eq) = push-open s.out_q result b (h.still_open busy) e in
        let q = ap (λ c. total weight c.q) eq ∙ total-append weight s.out_q.q (result ∷ []) in
        record {
          conserved = omega (
            arith,
            h.conserved,
            q,
            total-set (held weight) s.workers i (processing (result ∷ results)) (processing results)
                w,
          );
          counted = omega (
            arith,
            h.counted,
            total-set unfinished s.workers i (processing (result ∷ results)) (processing results) w,
          );
          still_open = λ lt. ap (λ c. c.done) eq ∙ h.still_open lt;
          closed = λ z. absurd (omega arith);
          drained = h.drained;
        }

    again-Sound :
        (i : ℕ)
        → get_elem? s.workers i ≡ some (processing [])
        → Sound (record s { workers = set s.workers i waiting })
    again-Sound i w = record {
      conserved =
          omega (arith, h.conserved, total-set (held weight) s.workers i (processing []) waiting w);
      counted =
          omega (arith, h.counted, total-set unfinished s.workers i (processing []) waiting w);
      still_open = h.still_open;
      closed = h.closed;
      drained = h.drained;
    }

    leave-q : (i : ℕ) → (leave s i).out_q.q ≡ s.out_q.q
    leave-q i = elim (Bool-cases (s.active == 1)) [ inl t ↦ rw t refl | inr t ↦ rw t refl ]

    exit-Sound :
        (i : ℕ) (b : BoundedQueue In)
        → get_elem? s.workers i ≡ some waiting
        → pop s.in_q ≡ some (b, none)
        → Sound (leave s i)
    exit-Sound i b w e =
        let (none_left, shut) = pop-none s.in_q b e in
        let busy : 0 < s.active = at_least i _ w in
        record {
          conserved = omega (
            arith,
            h.conserved,
            ap (total weight) (leave-q i),
            total-set (held weight) s.workers i waiting finished w,
          );
          counted = omega (arith, h.counted, total-set unfinished s.workers i waiting finished w);
          still_open =
              λ lt. let t : s.active == 1 ≡ false = ground arith in rw t (h.still_open busy);
          closed = λ z. let t : s.active == 1 ≡ true = ground arith in rw t refl;
          drained = λ lt. (shut, none_left);
        }

    deliver-Sound :
        (b : BoundedQueue Out) (result : Out)
        → pop s.out_q ≡ some (b, some result)
        → Sound (record s { out_q = b; delivered = s.delivered ++ result ∷ [] })
    deliver-Sound b result e =
        let (first, same) = pop-some s.out_q b result e in
        record {
          conserved = omega (
            arith,
            h.conserved,
            ap (total weight) first,
            total-append weight s.delivered (result ∷ []),
          );
          counted = h.counted;
          still_open = λ lt. same ∙ h.still_open lt;
          closed = λ z. same ∙ h.closed z;
          drained = h.drained;
        }

    close-Sound : Sound (record s { in_q = set_done s.in_q })
    close-Sound = record {
      conserved = h.conserved;
      counted = h.counted;
      still_open = h.still_open;
      closed = h.closed;
      drained = λ lt. (refl, (h.drained lt).1);
    }

  step-Sound : (s s' : Stage In Out) → Sound s → Step process s s' → Sound s'
  step-Sound s s' h (feed _ item b opened e) = feed-Sound s h item b opened e
  step-Sound s s' h (close _) = close-Sound s h
  step-Sound s s' h (claim _ i b pkg w e) = claim-Sound s h i b pkg w e
  step-Sound s s' h (emit _ i result results b w e) = emit-Sound s h i result results b w e
  step-Sound s s' h (again _ i w) = again-Sound s h i w
  step-Sound s s' h (exit _ i b w e) = exit-Sound s h i b w e
  step-Sound s s' h (deliver _ b result e) = deliver-Sound s h b result e

  pub Reachable-Sound :
      (ic oc : ℕ) (s : Stage In Out) → 0 < n → Reachable process n ic oc s → Sound s
  Reachable-Sound ic oc s h start = started-Sound ic oc h
  Reachable-Sound ic oc s h (step s0 _ r e) = step-Sound s0 s (Reachable-Sound ic oc s0 h r) e
