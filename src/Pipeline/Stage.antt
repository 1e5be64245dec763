-- ===== src/Pipeline/Stage.antt =====
-- include/pipeline/BoundedQueue.hpp and include/pipeline/StageRunner.hpp: a stage of the parallel
-- pipeline as a transition system. A step is one critical section of a queue or one action of a worker;
-- the wait of a condition variable is a step that is not possible yet.
pub mod Sums
pub mod Queue
pub mod Invariant
pub mod Results
pub mod Capacity
mod Tests
use pi_poetry.Base.{
  ℕ, zero, suc, ◌+◌, ◌-◌, ◌≡◌, Bool, true, false, ◌||◌, ◌==◌, Option, none, some, List, [], ◌∷◌,
  ◌++◌, ltb, if◌then◌else◌, length, set, get_elem?,
}

pub record BoundedQueue (A : Type 0) : Type 0 where
  pub q : List A
  pub capacity : ℕ
  pub done : Bool

-- `push`: `none` while it waits, else the queue, unchanged if it is done.
unfoldable pub push : {A : Type 0} → BoundedQueue A → A → Option (BoundedQueue A)
push b item =
    if b.done
    then some b
    else if ltb (length b.q) b.capacity
    then some (record b { q = b.q ++ item ∷ [] })
    else none

-- `pop`: `none` while it waits, else the queue and the item, if there is one.
abbrev pub pop_of : {A : Type 0} → BoundedQueue A → List A → Option (BoundedQueue A × Option A)
pop_of b [] = if b.done then some (b, none) else none
pop_of b (item ∷ items) = some (record b { q = items }, some item)

unfoldable pub pop : {A : Type 0} → BoundedQueue A → Option (BoundedQueue A × Option A)
pop b = pop_of b b.q

abbrev pub set_done : {A : Type 0} → BoundedQueue A → BoundedQueue A
set_done b = record b { done = true }

-- Where a worker stands in `worker_loop`: before `pop`, inside `process` with the results still to be
-- pushed, or behind the loop.
pub data Worker (Out : Type 0) : Type 0 where
  waiting : Worker Out
  processing : (results : List Out) → Worker Out
  finished : Worker Out

-- A stage, with the packages that went into its input and the results that came out of its output.
pub record Stage (In Out : Type 0) : Type 0 where
  pub in_q : BoundedQueue In
  pub out_q : BoundedQueue Out
  pub workers : List (Worker Out)
  pub active : ℕ
  pub accepted : List In
  pub delivered : List Out

abbrev pub at_work : {Out : Type 0} → ℕ → List (Worker Out)
at_work zero = []
at_work (suc n) = waiting ∷ at_work n

abbrev pub started : {In Out : Type 0} → ℕ → ℕ → ℕ → Stage In Out
started n in_capacity out_capacity = record {
  in_q = record { q = []; capacity = in_capacity; done = false };
  out_q = record { q = []; capacity = out_capacity; done = false };
  workers = at_work n;
  active = n;
  accepted = [];
  delivered = [];
}

-- A worker behind the loop: the last one closes the output.
abbrev pub leave : {In Out : Type 0} → Stage In Out → ℕ → Stage In Out
leave s i = record s {
  workers = set s.workers i finished;
  active = s.active - 1;
  out_q = if s.active == 1 then set_done s.out_q else s.out_q;
}

-- The steps. `process` gives the results that a worker emits for a package.
pub data Step {In Out : Type 0} (process : In → List Out)
    : Stage In Out → Stage In Out → Type 0 where
  -- The stage before pushes a package, or closes the input.
  feed :
      (s : Stage In Out) (item : In) (b : BoundedQueue In)
      → s.in_q.done ≡ false
      → push s.in_q item ≡ some b
      → Step process s (record s { in_q = b; accepted = s.accepted ++ item ∷ [] })
  close : (s : Stage In Out) → Step process s (record s { in_q = set_done s.in_q })
  -- A worker pops a package, pushes a result, is done with a package, or leaves the loop.
  claim :
      (s : Stage In Out) (i : ℕ) (b : BoundedQueue In) (pkg : In)
      → get_elem? s.workers i ≡ some waiting
      → pop s.in_q ≡ some (b, some pkg)
      → Step process s (record s { in_q = b; workers = set s.workers i (processing (process pkg)) })
  emit :
      (s : Stage In Out) (i : ℕ) (result : Out) (results : List Out) (b : BoundedQueue Out)
      → get_elem? s.workers i ≡ some (processing (result ∷ results))
      → push s.out_q result ≡ some b
      → Step process s (record s { out_q = b; workers = set s.workers i (processing results) })
  again :
      (s : Stage In Out) (i : ℕ)
      → get_elem? s.workers i ≡ some (processing [])
      → Step process s (record s { workers = set s.workers i waiting })
  exit :
      (s : Stage In Out) (i : ℕ) (b : BoundedQueue In)
      → get_elem? s.workers i ≡ some waiting
      → pop s.in_q ≡ some (b, none)
      → Step process s (leave s i)
  -- The stage behind pops a result.
  deliver :
      (s : Stage In Out) (b : BoundedQueue Out) (result : Out)
      → pop s.out_q ≡ some (b, some result)
      → Step process s (record s { out_q = b; delivered = s.delivered ++ result ∷ [] })

-- The stages that `n` workers reach.
pub data Reachable {In Out : Type 0} (process : In → List Out) (n in_capacity out_capacity : ℕ)
    : Stage In Out → Type 0 where
  start : Reachable process n in_capacity out_capacity (started n in_capacity out_capacity)
  step :
      (s s' : Stage In Out)
      → Reachable process n in_capacity out_capacity s
      → Step process s s'
      → Reachable process n in_capacity out_capacity s'
