-- ===== src/FilterBlock/Flat.antt =====
-- Strings joined in one and cut again at their starts, as filter_block.c keeps the keys and filters:
-- leveldb学习/sstable/filter_block.c.
use study_history.Prelude.{
  ℕ, suc, ◌+◌, ◌-◌, ◌≡◌, refl, sym, ap, ◌∙◌, arith, List, [], ◌∷◌, ◌++◌, false, ◌==◌, length, take,
  drop, append_assoc, append-nil, length-append, take-append, drop-append,
}
use study_history.Coding.{Bytes}
use study_history.FilterBlock.{tmp_keys}
use mathlib.Core.Path.{ap₂}

abbrev pub flat : List Bytes → Bytes
flat [] = []
flat (x ∷ xs) = x ++ flat xs

-- Where the strings of a list start in its flat form, from an offset on.
abbrev pub starts : ℕ → List Bytes → List ℕ
starts a [] = []
starts a (x ∷ xs) = a ∷ starts (a + length x) xs

pub flat-snoc : (xs : List Bytes) (x : Bytes) → flat (xs ++ x ∷ []) ≡ flat xs ++ x
flat-snoc [] x = append-nil x
flat-snoc (y ∷ xs) x = ap (◌++◌ y) (flat-snoc xs x) ∙ sym (append_assoc y (flat xs) x)

pub starts-snoc :
    (a : ℕ) (xs : List Bytes) (x : Bytes)
    → starts a (xs ++ x ∷ []) ≡ starts a xs ++ (a + length (flat xs)) ∷ []
starts-snoc a [] x = ap (λ n. n ∷ []) (omega arith)
starts-snoc a (y ∷ xs) x =
    ap (◌∷◌ a) (starts-snoc (a + length y) xs x)
    ∙ ap (λ n. a ∷ (starts (a + length y) xs ++ n ∷ [])) {x = a + length y + length (flat xs)}
        {y = a + length (y ++ flat xs)} (omega (arith, length-append y (flat xs)))

pub starts0-snoc :
    (xs : List Bytes) (x : Bytes) → starts 0 (xs ++ x ∷ []) ≡ starts 0 xs ++ length (flat xs) ∷ []
starts0-snoc xs x =
    starts-snoc 0 xs x
    ∙ ap (λ n. starts 0 xs ++ n ∷ []) {x = 0 + length (flat xs)} {y = length (flat xs)}
        (omega arith)

pub length-starts : (a : ℕ) (xs : List Bytes) → length (starts a xs) ≡ length xs
length-starts a [] = refl
length-starts a (x ∷ xs) = ap suc (length-starts (a + length x) xs)

pub suc-nonzero : (n : ℕ) → (suc n == 0) ≡ false
suc-nonzero n = ground arith

-- The flat keys are cut where they were joined.
cut :
    (before x after : Bytes)
    → take
        (length before + length x - length before)
        (drop (length before) (before ++ (x ++ after)))
      ≡ x
cut before x after =
    ap (take (length before + length x - length before)) (drop-append before (x ++ after))
    ∙ ap (λ n. take n (x ++ after)) (omega arith)
    ∙ take-append x after

pub tmp_keys-starts :
    (before : Bytes) (xs : List Bytes)
    → tmp_keys
        (before ++ flat xs)
        (starts (length before) xs ++ (length before + length (flat xs)) ∷ [])
      ≡ xs
unfolding tmp_keys
tmp_keys-starts before [] = refl
tmp_keys-starts before (x ∷ []) =
    ap (λ n. take (n - length before) (drop (length before) (before ++ (x ++ []))) ∷ [])
      {x = length before + length (x ++ [])} {y = length before + length x}
      (omega (arith, length-append x []))
    ∙ ap (λ y. y ∷ []) (cut before x [])
tmp_keys-starts before (x ∷ y ∷ xs) =
    let behind = y ++ flat xs in
    let whole = before ++ (x ++ behind) in
    let end = length before + length (x ++ behind) in
    let joined = length-append before x in
    ap₂ ◌∷◌ (cut before x behind) (
      ap (λ b. tmp_keys b (starts (length before + length x) (y ∷ xs) ++ end ∷ []))
        (sym (append_assoc before x behind))
      ∙ ap (λ n. tmp_keys ((before ++ x) ++ behind) (starts n (y ∷ xs) ++ end ∷ [])) (sym joined)
      ∙ ap
          (λ n.
            tmp_keys ((before ++ x) ++ behind) (starts (length (before ++ x)) (y ∷ xs) ++ n ∷ []))
          {x = end} {y = length (before ++ x) + length behind}
          (omega (arith, joined, length-append x behind))
      ∙ tmp_keys-starts (before ++ x) (y ∷ xs))
