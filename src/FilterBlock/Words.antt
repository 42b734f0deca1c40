-- ===== src/FilterBlock/Words.antt =====
-- The array of offsets at the end of a filter block, and the strings between them:
-- leveldb学习/sstable/filter_block.c.
use study_history.Prelude.{
  ℕ, zero, suc, ◌+◌, ◌-◌, ◌*◌, ◌≤◌, ◌<◌, ◌≡◌, refl, sym, ap, ◌∙◌, subst, arith, List, [], ◌∷◌, ◌++◌,
  length, take, drop, get_or, append_assoc, append-nil, length-append, drop-append, drop-drop,
  get_or-append,
}
use study_history.Coding.{Bytes, IsU32, put_fixed32, encode_fixed32, decode_fixed32}
use study_history.Coding.Fixed.{decode-encode_fixed32, length-encode_fixed32}
use study_history.FilterBlock.{tmp_keys, put_offsets}
use study_history.FilterBlock.Flat.{
  flat, starts, flat-snoc, starts0-snoc, length-starts, tmp_keys-starts,
}
use mathlib.Core.Path.{ap₂}

-- The offsets as they stand in the block.
abbrev pub words : List ℕ → Bytes
words [] = []
words (w ∷ ws) = encode_fixed32 w ++ words ws

pub length-words : (ws : List ℕ) → length (words ws) ≡ length ws * 4
length-words [] = refl
length-words (w ∷ ws) =
    omega
      (arith, length-append (encode_fixed32 w) (words ws), length-encode_fixed32 w, length-words ws)

pub words-snoc : (ws : List ℕ) (w : ℕ) → words (ws ++ w ∷ []) ≡ words ws ++ encode_fixed32 w
words-snoc [] w = append-nil (encode_fixed32 w)
words-snoc (v ∷ ws) w =
    ap (◌++◌ (encode_fixed32 v)) (words-snoc ws w)
    ∙ sym (append_assoc (encode_fixed32 v) (words ws) (encode_fixed32 w))

pub put_offsets_lem : (result : Bytes) (ws : List ℕ) → put_offsets result ws ≡ result ++ words ws
unfolding put_offsets put_fixed32
put_offsets_lem result [] = sym (append-nil result)
put_offsets_lem result (w ∷ ws) =
    put_offsets_lem (result ++ encode_fixed32 w) ws
    ∙ append_assoc result (encode_fixed32 w) (words ws)

-- The word at an index.
pub word_at :
    (ws : List ℕ) (rest : Bytes) (i : ℕ)
    → i < length ws
    → IsU32 (get_or ws i 0)
    → decode_fixed32 (drop (i * 4) (words ws ++ rest)) ≡ get_or ws i 0
word_at [] rest i h small = absurd (omega arith)
word_at (w ∷ ws) rest zero h small =
    ap decode_fixed32 (append_assoc (encode_fixed32 w) (words ws) rest)
    ∙ decode-encode_fixed32 w (words ws ++ rest) small
word_at (w ∷ ws) rest (suc i) h small =
    ap (λ n. decode_fixed32 (drop n ((encode_fixed32 w ++ words ws) ++ rest))) {x = suc i * 4}
      {y = 4 + i * 4} (omega arith)
    ∙ ap decode_fixed32 (
        drop-drop 4 (i * 4) ((encode_fixed32 w ++ words ws) ++ rest)
        ∙ ap (drop (i * 4)) (ap (drop 4) (append_assoc (encode_fixed32 w) (words ws) rest) ∙ four))
    ∙ word_at ws rest i (omega arith) small
  where
    four : drop 4 (encode_fixed32 w ++ (words ws ++ rest)) ≡ words ws ++ rest
    four =
        ap (λ n. drop n (encode_fixed32 w ++ (words ws ++ rest))) (sym (length-encode_fixed32 w))
        ∙ drop-append (encode_fixed32 w) (words ws ++ rest)

-- The starts of the strings and the end of the last one.
abbrev pub edges : ℕ → List Bytes → List ℕ
edges a xs = starts a xs ++ (a + length (flat xs)) ∷ []

pub edges-bounds :
    (a : ℕ) (xs : List Bytes) (i : ℕ)
    → i < length xs
    → (get_or (edges a xs) i 0 ≤ get_or (edges a xs) (suc i) 0)
      × (get_or (edges a xs) (suc i) 0 ≤ a + length (flat xs))
edges-bounds a [] i h = absurd (omega arith)
edges-bounds a (x ∷ []) zero h = (omega arith, omega arith)
edges-bounds a (x ∷ y ∷ xs) zero h = (omega arith, omega (arith, length-append x (flat (y ∷ xs))))
edges-bounds a (x ∷ xs) (suc i) h =
    let same : a + length x + length (flat xs) ≡ a + length (flat (x ∷ xs)) =
      omega (arith, length-append x (flat xs)) in
    subst
      (λ n.
        (get_or (starts (a + length x) xs ++ n ∷ []) i 0
          ≤ get_or (starts (a + length x) xs ++ n ∷ []) (suc i) 0)
        × (get_or (starts (a + length x) xs ++ n ∷ []) (suc i) 0 ≤ n))
      same (edges-bounds (a + length x) xs i (omega arith))

-- What the loop over the starts puts at an index.
tmp_keys_at :
    (keys : Bytes) (ss : List ℕ) (i : ℕ)
    → suc i < length ss
    → get_or (tmp_keys keys ss) i []
      ≡ take (get_or ss (suc i) 0 - get_or ss i 0) (drop (get_or ss i 0) keys)
unfolding tmp_keys
tmp_keys_at keys [] i h = absurd (omega arith)
tmp_keys_at keys (a ∷ []) i h = absurd (omega arith)
tmp_keys_at keys (a ∷ b ∷ ss) zero h = refl
tmp_keys_at keys (a ∷ b ∷ ss) (suc i) h = tmp_keys_at keys (b ∷ ss) i (omega arith)

-- The string between two edges, with more bytes behind the last one.
pub slice_at :
    (xs : List Bytes) (rest : Bytes) (i : ℕ)
    → i < length xs
    → take
        (get_or (edges 0 xs) (suc i) 0 - get_or (edges 0 xs) i 0)
        (drop (get_or (edges 0 xs) i 0) (flat xs ++ rest))
      ≡ get_or xs i []
slice_at xs rest i h =
    let more = xs ++ rest ∷ [] in
    let count = length-starts 0 xs in
    let ends : List ℕ = (0 + length (flat more)) ∷ [] in
    let size = length-append (starts 0 xs) ((0 + length (flat xs)) ∷ []) in
    let first = get_or-append (edges 0 xs) ends i 0 (omega (arith, count, size)) in
    let second = get_or-append (edges 0 xs) ends (suc i) 0 (omega (arith, count, size)) in
    let cut_here =
      tmp_keys_at (flat xs ++ rest) (edges 0 xs ++ ends) i
        (omega (arith, count, size, length-append (edges 0 xs) ends)) in
    let whole =
      ap₂ tmp_keys (sym (flat-snoc xs rest)) (ap (λ s. s ++ ends) edges_more)
      ∙ tmp_keys-starts [] more in
    ap₂ (λ b a. take (b - a) (drop a (flat xs ++ rest))) (sym second) (sym first)
    ∙ sym cut_here
    ∙ ap (λ ys. get_or ys i []) whole
    ∙ get_or-append xs (rest ∷ []) i [] h
  where
    edges_more : edges 0 xs ≡ starts 0 (xs ++ rest ∷ [])
    edges_more =
        ap (λ n. starts 0 xs ++ n ∷ []) {x = 0 + length (flat xs)} {y = length (flat xs)}
          (omega arith)
        ∙ sym (starts0-snoc xs rest)
