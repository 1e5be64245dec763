-- ===== src/Pipeline/Workers/Numbering.antt =====
-- The packages of a chunk carry the numbers that the reorder buffer counts on.
use pi_poetry.Base.{
  ℕ, zero, suc, ◌+◌, ◌<◌, ◌≡◌, refl, sym, ap, ◌∙◌, Bool, false, List, [], ◌∷◌, length, get_elem?,
  some, ◌==◌, arith, map,
}
use pi_poetry.Finder.Word.{WordMatch}
use pi_poetry.Finder.Automaton.{AhoCorasick}
use pi_poetry.Pipeline.Workers.{
  LetterPackage, ComboPackage, numbered, mark_back, or_empty, chains_of, find_words,
}

next_test : (i n : ℕ) → (suc i == suc n) ≡ (suc (suc i) == suc (suc n))
next_test i n = ground arith

module _ (write_letters : Bool) (pkg : LetterPackage) (chunk_id : ℕ) where
  abbrev packages : ℕ → List (List WordMatch) → List ComboPackage
  packages k chains = mark_back write_letters pkg (numbered chunk_id k chains)

  chain-packages :
      (k : ℕ) (chains : List (List WordMatch)) → map (λ p. p.chain) (packages k chains) ≡ chains
  chain-packages k [] = refl
  chain-packages k (chain ∷ []) = refl
  chain-packages k (chain ∷ next ∷ chains) = ap (◌∷◌ chain) (chain-packages (suc k) (next ∷ chains))

  -- The fields of the package at the front.
  front_fields :
      (x p : ComboPackage)
      → some x ≡ some p
      → (p.chunk_id ≡ x.chunk_id)
        × (p.intra_chunk_seq_id ≡ x.intra_chunk_seq_id)
        × (p.final_package_in_chunk ≡ x.final_package_in_chunk)
  front_fields x p e =
      let same : x ≡ p = cc e in
      (
        sym (ap (λ q. q.chunk_id) same),
        sym (ap (λ q. q.intra_chunk_seq_id) same),
        sym (ap (λ q. q.final_package_in_chunk) same),
      )

  length-packages :
      (k : ℕ) (chains : List (List WordMatch)) → length (packages k chains) ≡ length chains
  length-packages k [] = refl
  length-packages k (chain ∷ []) = refl
  length-packages k (chain ∷ next ∷ chains) = ap suc (length-packages (suc k) (next ∷ chains))

  get_elem?-packages :
      (k : ℕ) (chains : List (List WordMatch)) (i : ℕ) (p : ComboPackage)
      → get_elem? (packages k chains) i ≡ some p
      → (p.chunk_id ≡ chunk_id)
        × (p.intra_chunk_seq_id ≡ k + i)
        × (p.final_package_in_chunk ≡ (suc i == length chains))
  get_elem?-packages k [] i p e = absurd (cc e)
  get_elem?-packages k (chain ∷ []) zero p e =
      let (c, n, f) = front_fields _ p e in (c, omega (arith, n), f)
  get_elem?-packages k (chain ∷ []) (suc i) p e = absurd (cc e)
  get_elem?-packages k (chain ∷ next ∷ chains) zero p e =
      let (c, n, f) = front_fields _ p e in
      let t : 1 == suc (suc (length chains)) ≡ false = ground arith in
      (c, omega (arith, n), f ∙ sym t)
  get_elem?-packages k (chain ∷ next ∷ chains) (suc i) p e =
      let (chunk, intra, final) = get_elem?-packages (suc k) (next ∷ chains) i p e in
      (chunk, omega (arith, intra), final ∙ next_test i (length chains))

or_empty-pos : (chains : List (List WordMatch)) → 0 < length (or_empty chains)
or_empty-pos [] = omega arith
or_empty-pos (chain ∷ chains) = omega arith

-- A chunk yields at least one package; the packages carry the chunk's number, are numbered from 0 on
-- in the order of emission, and the last of them, and no other, is marked final; their chains are the
-- chains of the overlap policy, in order, or one empty chain where the policy gives none.
pub find_words-numbered :
    (ac : AhoCorasick) (write_letters : Bool) (pkg : LetterPackage)
    → (let out = find_words ac write_letters pkg in
        (0 < length out)
        × (map (λ p. p.chain) out ≡ or_empty (chains_of ac pkg))
        × ((i : ℕ) (p : ComboPackage)
            → get_elem? out i ≡ some p
            → (p.chunk_id ≡ pkg.seq_id)
              × (p.intra_chunk_seq_id ≡ i)
              × (p.final_package_in_chunk ≡ (suc i == length out))))
unfolding find_words
find_words-numbered ac write_letters pkg =
    let chains = or_empty (chains_of ac pkg) in
    let same = length-packages write_letters pkg pkg.seq_id 0 chains in
    (
      omega (arith, same, or_empty-pos (chains_of ac pkg)),
      chain-packages write_letters pkg pkg.seq_id 0 chains,
      λ i p e.
          let (c, n, f) = get_elem?-packages write_letters pkg pkg.seq_id 0 chains i p e in
          (c, omega (arith, n), f ∙ ap (λ m. suc i == m) (sym same)),
    )
