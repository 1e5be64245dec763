-- ===== src/Pipeline/DigitDispatcher/Coverage.antt =====
-- The packages cover the digits: each digit that is to be processed is a real digit of exactly one
-- package, and lookahead goes on from there.
use pi_poetry.Base.{
  ℕ, zero, suc, ◌+◌, ◌-◌, ◌*◌, ◌^◌, ◌≤◌, ◌<◌, ◌≡◌, sym, ap, ◌∙◌, min, true, false, Option, none,
  some, List, [], arith, length, take, drop, length-take, ◌==◌, if◌then◌else◌, add64, Bool-cases,
  inl, inr, ◌⊎◌, concat, map,
}
use native.Mathlib.Nat.{zero-add}
use pi_poetry.Base.Slices.{
  take_nil, take-take_le, take-take, take-append-take, drop-take, drop-drop, take_length,
  nil_of_length,
}
use pi_poetry.Pipeline.DigitDispatcher.{
  DigitPackage, DigitDispatcher, ReadAt, package_for, next, packages, packed, past_end,
  effective_chunk, chunk_offset,
}

-- What `read_at` promises for a finite source: the digits from the offset on, as many as there are.
abbrev pub Reads : List ℕ → ReadAt → Type 0
Reads all read_at = (offset n : ℕ) → read_at offset n ≡ take n (drop offset all)

-- The digits to be processed: all, or the first `max_digits`.
abbrev pub wanted : ℕ → List ℕ → List ℕ
wanted max_digits all = if max_digits == 0 then all else take max_digits all

-- No offset that the dispatcher computes for the sequence numbers up to `last` wraps.
abbrev pub InRange : DigitDispatcher → ℕ → Type 0
InRange d last =
    (0 < d.chunk_size)
    × (suc last * d.chunk_size + d.lookahead_digits < 2 ^ 64)
    × (d.max_digits < 2 ^ 64)

-- The real digits of a package.
abbrev pub real_digits : Option DigitPackage → List ℕ
real_digits none = []
real_digits (some p) = take p.num_real_digits p.digits

real_digits-packed :
    (seq_id offset eff look : ℕ) (rest : List ℕ)
    → 0 < eff
    → real_digits (packed seq_id offset eff (take (eff + look) rest)) ≡ take eff rest
real_digits-packed seq_id offset eff look rest h =
    elim (Bool-cases (length (take (eff + look) rest) == 0)) [
      | inl nothing ↦
          let gone : rest ≡ [] =
            nil_of_length rest (ground (arith, length-take (eff + look) rest)) in
          rw nothing (sym (ap (take eff) gone ∙ take_nil eff))
      | inr some_read ↦
          rw (some_read, take_length eff (take (eff + look) rest))
            (take-take_le eff (eff + look) rest (omega arith))
    ]

-- Past the end nothing is wanted.
drop-wanted_past :
    (max_digits offset : ℕ) (all : List ℕ)
    → 0 < max_digits
    → max_digits ≤ offset
    → drop offset (wanted max_digits all) ≡ []
drop-wanted_past max_digits offset all h k =
    let capped : wanted max_digits all ≡ take max_digits all = ground arith in
    let rest : max_digits - offset ≡ 0 = omega arith in
    rw capped (drop-take offset max_digits all ∙ ap (λ n. take n (drop offset all)) rest)

past_end_bounds :
    (d : DigitDispatcher) (offset : ℕ)
    → past_end d offset ≡ true
    → (0 < d.max_digits) × (d.max_digits ≤ offset)
unfolding past_end
past_end_bounds d offset h = ground arith

-- Before it, the effective chunk is what is wanted of the chunk.
record Effective (d : DigitDispatcher) (offset eff : ℕ) : Type 0 where
  positive : 0 < eff
  within : eff ≤ d.chunk_size
  exact :
      (d.max_digits ≡ 0) × (eff ≡ d.chunk_size)
      ⊎ (0 < d.max_digits) × (eff ≡ min d.chunk_size (d.max_digits - offset))

effective_chunk-Effective :
    (d : DigitDispatcher) (offset : ℕ)
    → 0 < d.chunk_size
    → offset + d.chunk_size < 2 ^ 64
    → d.max_digits < 2 ^ 64
    → past_end d offset ≡ false
    → Effective d offset (effective_chunk d offset)
unfolding past_end effective_chunk
effective_chunk-Effective d offset pos fits cap inside = record {
  positive = ground arith;
  within = ground arith;
  exact = ground arith;
}

take-Effective :
    (d : DigitDispatcher) (offset eff : ℕ) (all : List ℕ)
    → Effective d offset eff
    → take eff (drop offset all) ≡ take d.chunk_size (drop offset (wanted d.max_digits all))
take-Effective d offset eff all v = elim v.exact [
  | inl (none_set, e) ↦ let every : wanted d.max_digits all ≡ all = ground arith in rw (every, e)
  | inr (set, e) ↦
      let capped : wanted d.max_digits all ≡ take d.max_digits all = ground arith in
      rw (capped, drop-take offset d.max_digits all)
        (ap (λ k. take k (drop offset all)) e
          ∙ sym (take-take d.chunk_size (d.max_digits - offset) (drop offset all)))
]

module _ (all : List ℕ) (read_at : ReadAt) (reads : Reads all read_at) (d : DigitDispatcher) where
  -- Let `read_at` give the digits of a finite source from an offset on, as many of those asked for
  -- as there are, let chunks not be empty, and let neither `suc seq_id * chunk_size +
  -- lookahead_digits` nor `max_digits` reach 2^64. Then the real digits of package `seq_id` are the
  -- `chunk_size` digits, or those that there are, from `seq_id * chunk_size` on among the digits
  -- wanted: the first `max_digits`, or all when it is 0.
  pub real_digits-package_for :
      (seq_id : ℕ)
      → InRange d seq_id
      → real_digits (package_for read_at d seq_id)
        ≡ take d.chunk_size (drop (seq_id * d.chunk_size) (wanted d.max_digits all))
  unfolding package_for
  real_digits-package_for seq_id r =
      let offset = seq_id * d.chunk_size in
      let exact : chunk_offset d seq_id ≡ offset = omega arith in
      rw (exact, reads offset (add64 (effective_chunk d offset) d.lookahead_digits))
        (elim (Bool-cases (past_end d offset)) [
          | inl past ↦ rw past (
              sym (
                ap (take d.chunk_size) (
                  drop-wanted_past d.max_digits offset all (past_end_bounds d offset past).0
                    (past_end_bounds d offset past).1)
                ∙ take_nil d.chunk_size))
          | inr inside ↦
              let v = effective_chunk-Effective d offset r.0 (omega arith) r.2 inside in
              let size : add64 (effective_chunk d offset) d.lookahead_digits
                  ≡ effective_chunk d offset + d.lookahead_digits =
                omega (arith, v.within) in
              rw (inside, size)
                (real_digits-packed seq_id offset (effective_chunk d offset) d.lookahead_digits
                    (drop offset all) v.positive
                  ∙ take-Effective d offset (effective_chunk d offset) all v)
        ])

module _ (all : List ℕ) (read_at : ReadAt) (reads : Reads all read_at) where
  concat-packages :
      (n : ℕ) (d : DigitDispatcher)
      → InRange d (d.next_seq + n)
      → concat (map real_digits (packages read_at n d))
        ≡ take (n * d.chunk_size) (drop (d.next_seq * d.chunk_size) (wanted d.max_digits all))
  unfolding packages next
  concat-packages zero d r =
      ap (λ k. take k (drop (d.next_seq * d.chunk_size) (wanted d.max_digits all)))
        (let e : 0 ≡ 0 * d.chunk_size = omega arith in e)
  concat-packages (suc n) d r =
      let w = wanted d.max_digits all in
      let start = d.next_seq * d.chunk_size in
      let here : suc d.next_seq * d.chunk_size + d.lookahead_digits < 2 ^ 64 = grind arith in
      let chunk = d.chunk_size in
      let bump : add64 d.next_seq 1 ≡ suc d.next_seq = grind arith in
      let again : suc (suc d.next_seq + n) * chunk + d.lookahead_digits < 2 ^ 64 = grind arith in
      let onward : suc d.next_seq * chunk ≡ start + chunk = omega arith in
      let size : chunk + n * chunk ≡ suc n * chunk = omega arith in
      rw (
        bump,
        real_digits-package_for all read_at reads d d.next_seq (r.0, here, r.2),
        concat-packages n (record d { next_seq = suc d.next_seq }) (r.0, again, r.2),
        onward,
        ← drop-drop chunk start w,
        take-append-take chunk (n * chunk) (drop start w),
        size,
      )

  -- Let `read_at` give the digits of a finite source from an offset on, as many of those asked for
  -- as there are, let chunks not be empty, and let neither `suc n * chunk_size + lookahead_digits`
  -- nor `max_digits` reach 2^64. Then the first `n` packages of a dispatcher that starts at
  -- sequence number 0 have, one after the other, exactly the first `n * chunk_size` of the digits
  -- wanted: `max_digits` of them, or all when it is 0.
  pub concat-packages_start :
      (n : ℕ) (d : DigitDispatcher)
      → d.next_seq ≡ 0
      → InRange d n
      → concat (map real_digits (packages read_at n d))
        ≡ take (n * d.chunk_size) (wanted d.max_digits all)
  concat-packages_start n d start r =
      let w = wanted d.max_digits all in
      let range : suc (d.next_seq + n) * d.chunk_size + d.lookahead_digits < 2 ^ 64 =
        rw start (rw zero-add (r.1)) in
      let nothing : 0 * d.chunk_size ≡ 0 = omega arith in
      concat-packages n d (r.0, range, r.2)
      ∙ ap (λ k. take (n * d.chunk_size) (drop (k * d.chunk_size) w)) start
      ∙ ap (λ k. take (n * d.chunk_size) (drop k w)) nothing
