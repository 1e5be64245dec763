-- ===== src/Analyzer/Stream/Draining.antt =====
-- What a reader of the stream gets.
use native.Mathlib.Decide.{dec_le}
use pi_poetry.Base.{
  ℕ, zero, suc, ◌+◌, ◌-◌, ◌≤◌, ◌<◌, min, ◌≡◌, refl, sym, ap, ◌∙◌, subst, [], ◌∷◌, ◌++◌,
  append_assoc, append-nil, arith, length, take, drop, bytes, Bytes, ltb, if◌then◌else◌,
}
use pi_poetry.Base.Lists.{length-append, length-take, length-drop}
use pi_poetry.Base.Slices.{take_nil, drop_nil, nil_of_length, take-append-take}
use pi_poetry.Analyzer.Stream.{
  Phase, body, done, PhraseChunkStreamBuf, chunk_buffer_size, phrases_prefix, phrases_suffix,
  opened, with_block, underflow, read_all,
}

abbrev state : Bytes → ℕ → Phase → Bytes → PhraseChunkStreamBuf
state file remaining phase get = record {
  file = file;
  remaining = remaining;
  phase = phase;
  get = get;
}

-- The bytes that are buffered come first.
read_all-get :
    (get file : Bytes) (remaining : ℕ) (phase : Phase) (fuel : ℕ)
    → read_all (length get + fuel) (state file remaining phase get)
      ≡ get ++ read_all fuel (state file remaining phase [])
unfolding read_all
read_all-get [] file remaining phase fuel =
    ap (λ n. read_all n (state file remaining phase []))
      (let e : 0 + fuel ≡ fuel = omega arith in e)
read_all-get (c ∷ get) file remaining phase fuel =
    ap (λ n. read_all n (state file remaining phase (c ∷ get)))
      (let e : suc (length get) + fuel ≡ suc (length get + fuel) = omega arith in e)
    ∙ ap (◌∷◌ c) (read_all-get get file remaining phase fuel)

-- A reader gets `out` from the state, with any fuel that is more than its length.
abbrev Reads : PhraseChunkStreamBuf → Bytes → Type 0
Reads s out = (fuel : ℕ) → length out < fuel → read_all fuel s ≡ out

get-Reads :
    (get file : Bytes) (remaining : ℕ) (phase : Phase) (out : Bytes)
    → Reads (state file remaining phase []) out
    → Reads (state file remaining phase get) (get ++ out)
get-Reads get file remaining phase out h fuel enough =
    let n = length-append get out in
    let e : fuel ≡ length get + (fuel - length get) = omega arith in
    ap (λ n. read_all n (state file remaining phase get)) e
    ∙ read_all-get get file remaining phase (fuel - length get)
    ∙ ap (◌++◌ get) (h (fuel - length get) (omega arith))

-- The next block, when there is one.
underflow-Reads :
    (s t : PhraseChunkStreamBuf) (c : ℕ) (get out : Bytes)
    → underflow s ≡ record t { get = c ∷ get }
    → Reads (record t { get = c ∷ get }) out
    → Reads s out
unfolding read_all underflow
underflow-Reads s t c get out e h zero enough = absurd (omega arith)
underflow-Reads s t c get out e h (suc fuel) enough = rw e (h (suc fuel) enough)

done-Reads : (file : Bytes) (remaining : ℕ) → Reads (state file remaining done []) []
unfolding read_all underflow
done-Reads file remaining zero enough = refl
done-Reads file remaining (suc fuel) enough = refl

suffix-Reads :
    (file : Bytes) (remaining : ℕ) → Reads (state file remaining done phrases_suffix) phrases_suffix
suffix-Reads file remaining =
    subst (Reads (state file remaining done phrases_suffix)) (append-nil phrases_suffix)
      (get-Reads phrases_suffix file remaining done [] (done-Reads file remaining))

-- What is left of the range after a block.
take-block :
    (m r : ℕ) (file : Bytes)
    → m ≤ r
    → take m file ++ take (r - length (take m file)) (drop m file) ≡ take r file
take-block m r file h =
    let n = length-take m file in
    let l = length-drop m file in
    elim (dec_le m (length file)) [
      | yes long ↦
          let e : r - length (take m file) ≡ r - m = omega arith in
          let f : m + (r - m) ≡ r = omega arith in
          ap (λ k. take m file ++ take k (drop m file)) e
          ∙ take-append-take m (r - m) file
          ∙ ap (λ k. take k file) f
      | no short ↦
          let none_left = nil_of_length (drop m file) (omega arith) in
          let f : m + (r - m) ≡ r = omega arith in
          ap (◌++◌ (take m file)) (
            ap (take (r - length (take m file))) none_left
            ∙ take_nil _
            ∙ sym (take_nil (r - m))
            ∙ ap (take (r - m)) (sym none_left))
          ∙ take-append-take m (r - m) file
          ∙ ap (λ k. take k file) f
    ]

body-Reads :
    (m r : ℕ) (file : Bytes) → r ≤ m → Reads (state file r body []) (take r file ++ phrases_suffix)
unfolding underflow
body-Reads m zero file h =
    underflow-Reads (state file zero body []) (state file zero done []) b']' (bytes "}")
      phrases_suffix refl (suffix-Reads file zero)
body-Reads zero (suc r) file h = absurd (omega arith)
body-Reads (suc m) (suc r) [] h =
    underflow-Reads (state [] (suc r) body []) (state [] 0 done []) b']' (bytes "}") phrases_suffix
      (rw
        (
          take_nil {A = ℕ} (min (suc r) chunk_buffer_size),
          drop_nil {A = ℕ} (min (suc r) chunk_buffer_size),
        )
        refl)
      (suffix-Reads [] 0)
body-Reads (suc m) (suc r) (c ∷ file) h =
    let k = min r (chunk_buffer_size - 1) in
    let block = c ∷ take k file in
    let left = drop k file in
    let r' = suc r - length block in
    let is_suc : min (suc r) chunk_buffer_size ≡ suc k = omega arith in
    let next : underflow (state (c ∷ file) (suc r) body []) ≡ state left r' body block =
      ap
        (λ n. with_block (state (c ∷ file) (suc r) body []) (take n (c ∷ file)) (drop n (c ∷ file)))
        is_suc in
    let whole : block ++ (take r' left ++ phrases_suffix)
        ≡ take (suc r) (c ∷ file) ++ phrases_suffix =
      sym (append_assoc block (take r' left) phrases_suffix)
      ∙ ap (λ xs. xs ++ phrases_suffix) (take-block (suc k) (suc r) (c ∷ file) (omega arith)) in
    subst (Reads (state (c ∷ file) (suc r) body [])) whole (
      underflow-Reads (state (c ∷ file) (suc r) body []) (state left r' body []) c (take k file)
        (block ++ (take r' left ++ phrases_suffix)) next
        (get-Reads block left r' body (take r' left ++ phrases_suffix)
          (body-Reads m r' left (omega arith))))

abbrev pub range_text : Bytes → ℕ → ℕ → Bytes
range_text file start end = take (end - start) (drop start file)

-- A reader of the stream over a range gets the prefix, the bytes of the file in that range, as many as
-- there are, and the suffix, and then the end of the stream, whatever the sizes of the blocks; any fuel
-- above the number of these bytes is enough.
pub read_all-opened :
    (file : Bytes) (start end fuel : ℕ)
    → length (phrases_prefix ++ (range_text file start end ++ phrases_suffix)) < fuel
    → read_all fuel (opened file start end)
      ≡ phrases_prefix ++ (range_text file start end ++ phrases_suffix)
unfolding underflow
read_all-opened file start end fuel enough =
    let left = if ltb start end then end - start else 0 in
    let is : left ≡ end - start = ground arith in
    let out = range_text file start end ++ phrases_suffix in
    let from_body : Reads (state (drop start file) left body []) out =
      subst (λ n. Reads (state (drop start file) n body []) out) (sym is)
        (body-Reads (end - start) (end - start) (drop start file) (omega arith)) in
    underflow-Reads (opened file start end) (state (drop start file) left body []) b'{'
      (bytes "\"phrases\":[") (phrases_prefix ++ out) refl
      (get-Reads phrases_prefix (drop start file) left body out from_body) fuel enough
