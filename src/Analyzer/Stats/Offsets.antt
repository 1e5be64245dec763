-- ===== src/Analyzer/Stats/Offsets.antt =====
-- The smallest offset of each word.
use pi_poetry.Base.{
  ℕ, ◌≡◌, refl, sym, ap, ◌∙◌, Bytes, bytes_eq, bytes_eq_iff, Option, none, some, List, [], ◌∷◌,
  ◌++◌, arith, length, ltb, if◌then◌else◌, add64,
}
use pi_poetry.Analyzer.Stats.{Phrase, WordMap, find_word, offer, offer_words, offer_all}

-- Where the words of a phrase that starts at `offset` are found.
abbrev pub places : ℕ → List Bytes → WordMap
places offset [] = []
places offset (w ∷ words) = (w, offset) ∷ places (add64 offset (length w)) words

abbrev pub all_places : List Phrase → WordMap
all_places [] = []
all_places (p ∷ ps) = places p.start_offset p.words ++ all_places ps

abbrev pub opt_min : Option ℕ → Option ℕ → Option ℕ
opt_min none y = y
opt_min (some x) none = some x
opt_min (some x) (some y) = some (if ltb y x then y else x)

-- The smallest offset that the entries give for the word.
abbrev pub smallest : Bytes → WordMap → Option ℕ
smallest w [] = none
smallest w ((v, offset) ∷ m) = opt_min (if bytes_eq v w then some offset else none) (smallest w m)

opt_min_assoc : (x y z : Option ℕ) → opt_min (opt_min x y) z ≡ opt_min x (opt_min y z)
opt_min_assoc none y z = refl
opt_min_assoc (some x) none z = refl
opt_min_assoc (some x) (some y) none = refl
opt_min_assoc (some x) (some y) (some z) = ground arith

pub opt_min-none : (x : Option ℕ) → opt_min x none ≡ x
opt_min-none none = refl
opt_min-none (some x) = refl

pub smallest-append :
    (w : Bytes) (xs ys : WordMap) → smallest w (xs ++ ys) ≡ opt_min (smallest w xs) (smallest w ys)
smallest-append w [] ys = refl
smallest-append w ((v, o) ∷ xs) ys =
    rw (smallest-append w xs ys) (sym (opt_min_assoc _ (smallest w xs) (smallest w ys)))

-- One word offered: only its own entry changes, to the smaller offset.
pub find_word-offer :
    (v w : Bytes) (o : ℕ) (m : WordMap)
    → find_word w (offer v o m) ≡ opt_min (find_word w m) (if bytes_eq v w then some o else none)
unfolding find_word offer
find_word-offer v w o [] = ground arith
find_word-offer v w o ((u, p) ∷ m) =
    ground (arith, bytes_eq_iff u v, bytes_eq_iff u w, bytes_eq_iff v w, find_word-offer v w o m)

pub find_word-offer_words :
    (w : Bytes) (offset : ℕ) (words : List Bytes) (m : WordMap)
    → find_word w (offer_words offset words m)
      ≡ opt_min (find_word w m) (smallest w (places offset words))
unfolding offer_words
find_word-offer_words w offset [] m = sym (opt_min-none (find_word w m))
find_word-offer_words w offset (v ∷ words) m =
    find_word-offer_words w (add64 offset (length v)) words (offer v offset m)
    ∙ ap (λ x. opt_min x (smallest w (places (add64 offset (length v)) words)))
        (find_word-offer v w offset m)
    ∙ opt_min_assoc (find_word w m) _ _

find_word-offer_all :
    (w : Bytes) (m other : WordMap)
    → find_word w (offer_all m other) ≡ opt_min (find_word w m) (smallest w other)
unfolding offer_all
find_word-offer_all w m [] = sym (opt_min-none (find_word w m))
find_word-offer_all w m ((v, o) ∷ other) =
    find_word-offer_all w (offer v o m) other
    ∙ ap (λ x. opt_min x (smallest w other)) (find_word-offer v w o m)
    ∙ opt_min_assoc (find_word w m) _ _

-- A lookup finds the smallest offset: there is one entry for each word.
abbrev pub IsConsistent : WordMap → Type 0
IsConsistent m = (w : Bytes) → find_word w m ≡ smallest w m

opt_min_comm : (x y : Option ℕ) → opt_min x y ≡ opt_min y x
opt_min_comm none none = refl
opt_min_comm none (some y) = refl
opt_min_comm (some x) none = refl
opt_min_comm (some x) (some y) = ground arith

smallest-offer :
    (v w : Bytes) (o : ℕ) (m : WordMap)
    → smallest w (offer v o m) ≡ opt_min (smallest w m) (if bytes_eq v w then some o else none)
unfolding offer
smallest-offer v w o [] = ground arith
smallest-offer v w o ((u, p) ∷ m) =
    ground (arith, bytes_eq_iff u v, bytes_eq_iff u w, bytes_eq_iff v w, smallest-offer v w o m)

offer-IsConsistent : (v : Bytes) (o : ℕ) (m : WordMap) → IsConsistent m → IsConsistent (offer v o m)
offer-IsConsistent v o m c w =
    find_word-offer v w o m
    ∙ ap (λ x. opt_min x (if bytes_eq v w then some o else none)) (c w)
    ∙ sym (smallest-offer v w o m)

pub offer_words-IsConsistent :
    (offset : ℕ) (words : List Bytes) (m : WordMap)
    → IsConsistent m
    → IsConsistent (offer_words offset words m)
unfolding offer_words
offer_words-IsConsistent offset [] m c = c
offer_words-IsConsistent offset (v ∷ words) m c =
    offer_words-IsConsistent (add64 offset (length v)) words (offer v offset m)
      (offer-IsConsistent v offset m c)

pub offer_all-IsConsistent : (m other : WordMap) → IsConsistent m → IsConsistent (offer_all m other)
unfolding offer_all
offer_all-IsConsistent m [] c = c
offer_all-IsConsistent m ((v, o) ∷ other) c =
    offer_all-IsConsistent (offer v o m) other (offer-IsConsistent v o m c)

-- A merge of consistent maps finds the smaller of the two offsets.
pub find_word-merge :
    (w : Bytes) (m other : WordMap)
    → IsConsistent other
    → find_word w (offer_all m other) ≡ opt_min (find_word w m) (find_word w other)
find_word-merge w m other c =
    find_word-offer_all w m other ∙ ap (opt_min (find_word w m)) (sym (c w))
