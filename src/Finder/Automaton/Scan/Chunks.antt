-- ===== src/Finder/Automaton/Scan/Chunks.antt =====
-- Scanning a text in chunks, with the state carried from one to the next.
use pi_poetry.Base.{
  ℕ, suc, ◌+◌, ◌≡◌, refl, subst, List, [], ◌∷◌, ◌++◌, append_assoc, Bytes, arith, length, add64,
}
use pi_poetry.Finder.Automaton.{AcNode, AhoCorasick}
use pi_poetry.Finder.Automaton.Scan.{scan_from, scan_chunk, transition}

scan_from-append :
    (nodes : List AcNode) (off i state : ℕ) (xs ys : Bytes)
    → scan_from nodes off i state (xs ++ ys) ≡ (
        let front = scan_from nodes off i state xs in
        let back = scan_from nodes off (i + length xs) front.1 ys in (front.0 ++ back.0, back.1))
unfolding scan_from
scan_from-append nodes off i state [] ys = let e : i + 0 ≡ i = omega arith in rw (e) refl
scan_from-append nodes off i state (c ∷ cs) ys =
    let e : i + suc (length cs) ≡ suc i + length cs = omega arith in
    let next = transition nodes state c in
    rw (e, scan_from-append nodes off (suc i) next cs ys, append_assoc) refl

add64-add64 : (a b c : ℕ) → add64 (add64 a b) c ≡ add64 a (b + c)
add64-add64 a b c = omega arith

scan_from-shift :
    (nodes : List AcNode) (off n i state : ℕ) (xs : Bytes)
    → scan_from nodes (add64 off n) i state xs ≡ scan_from nodes off (n + i) state xs
unfolding scan_from
scan_from-shift nodes off n i state [] = refl
scan_from-shift nodes off n i state (c ∷ cs) =
    let e : n + suc i ≡ suc (n + i) = omega arith in
    let f : add64 (add64 off n) (i + 1) ≡ add64 off (n + i + 1) =
      omega (arith, add64-add64 off n (i + 1)) in
    rw (f, scan_from-shift nodes off n (suc i) (transition nodes state c) cs, e) refl

-- Scanning two chunks one after the other, the second from the state that the first leaves and at the
-- offset after it, finds the matches that scanning them as one chunk finds.
pub scan_chunk-append :
    (a : AhoCorasick) (xs ys : Bytes) (off state : ℕ)
    → scan_chunk a (xs ++ ys) off state ≡ (
        let front = scan_chunk a xs off state in
        let back = scan_chunk a ys (add64 off (length xs)) front.1 in (front.0 ++ back.0, back.1))
unfolding scan_chunk
scan_chunk-append a xs ys off state =
    let e : length xs + 0 ≡ length xs = omega arith in
    let f : 0 + length xs ≡ length xs = omega arith in
    let front = scan_from a.nodes off 0 state xs in
    rw (scan_from-shift a.nodes off (length xs) 0 front.1 ys, e)
      (subst
        (λ k. scan_from a.nodes off 0 state (xs ++ ys) ≡ (
          front.0 ++ (scan_from a.nodes off k front.1 ys).0,
          (scan_from a.nodes off k front.1 ys).1,
        ))
        f (scan_from-append a.nodes off 0 state xs ys))
