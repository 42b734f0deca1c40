-- ===== src/Prelude/Sorting.antt =====
-- Lists that a Boolean order keeps sorted: insertion, sorting and merging.
use Prim.Native.Nat.{ℕ, suc, ◌+◌}
use mathlib.Core.Path.{◌≡◌, refl, sym, ap, ◌∙◌, subst}
use mathlib.Core.Bool.{Bool, true, false, ◌&&◌}
use mathlib.Core.List.{List, [], ◌∷◌, ◌++◌}
use native.Mathlib.Omega.{arith}
use study_history.Prelude.Lists.{All, All-append}
use study_history.Prelude.Tests.{if◌then◌else◌}

module _ {ℓ} {A : Type ℓ} where
  abbrev pub filter : (A → Bool) → List A → List A
  filter p [] = []
  filter p (x ∷ xs) = let rest = filter p xs in if p x then x ∷ rest else rest

  abbrev pub count : (A → Bool) → List A → ℕ
  count p [] = 0
  count p (x ∷ xs) = let rest = count p xs in if p x then suc rest else rest

  pub filter-append :
      (p : A → Bool) (xs ys : List A) → filter p (xs ++ ys) ≡ filter p xs ++ filter p ys
  filter-append p [] ys = refl
  filter-append p (x ∷ xs) ys =
      elim (p x)
        as (λ b.
          (if b then x ∷ filter p (xs ++ ys) else filter p (xs ++ ys))
          ≡ (if b then x ∷ filter p xs else filter p xs) ++ filter p ys) [
            | true ↦ ap (◌∷◌ x) (filter-append p xs ys)
            | false ↦ filter-append p xs ys
          ]

  pub count-append : (p : A → Bool) (xs ys : List A) → count p (xs ++ ys) ≡ count p xs + count p ys
  count-append p [] ys = omega arith
  count-append p (x ∷ xs) ys = let ih = count-append p xs ys in ground (arith)

  pub count-filter :
      (q p : A → Bool) (xs : List A) → count p (filter q xs) ≡ count (λ x. q x && p x) xs
  count-filter q p [] = refl
  count-filter q p (x ∷ xs) = let ih = count-filter q p xs in ground (arith)

module _ {ℓ κ} {A : Type ℓ} where
  pub All-filter : (P : A → Type κ) (p : A → Bool) (xs : List A) → All P xs → All P (filter p xs)
  All-filter P p [] _ = tt
  All-filter P p (x ∷ xs) (head, tail) =
      elim (p x) as (λ b. All P (if b then x ∷ filter p xs else filter p xs)) [
        | true ↦ (head, All-filter P p xs tail)
        | false ↦ All-filter P p xs tail
      ]

module _ {ℓ} {A : Type ℓ} (lt : A → A → Bool) where
  -- No element comes before one that is smaller.
  abbrev pub Ordered : List A → Type 0
  Ordered [] = Unit
  Ordered (x ∷ xs) = All (λ y. lt y x ≡ false) xs × Ordered xs

  -- Before the first of the elements that `x` does not come after.
  abbrev pub insert : A → List A → List A
  insert x [] = x ∷ []
  insert x (y ∷ ys) = let rest = insert x ys in if lt y x then y ∷ rest else x ∷ y ∷ ys

  -- An insertion that changes nothing where an element is there that is neither smaller nor larger.
  abbrev pub insert_new : A → List A → List A
  insert_new x [] = x ∷ []
  insert_new x (y ∷ ys) =
      let rest = insert_new x ys in
      if lt y x then y ∷ rest else (if lt x y then x ∷ y ∷ ys else y ∷ ys)

  abbrev pub sort : List A → List A
  sort [] = []
  sort (x ∷ xs) = insert x (sort xs)

  abbrev pub placed : A → List A → List A × List A → Bool → List A × List A
  placed y ys r true = ([], y ∷ ys)
  placed y ys r false = (y ∷ r.0, r.1)

  -- The elements up to the first that `x` comes before, and the rest.
  abbrev pub upper_bound : A → List A → List A × List A
  upper_bound x [] = ([], [])
  upper_bound x (y ∷ ys) = placed y ys (upper_bound x ys) (lt x y)

  abbrev pub merge : List A → List A → List A
  merge base [] = base
  merge base (x ∷ added) =
      let (smaller, rest) = upper_bound x base in smaller ++ x ∷ merge rest added

  -- What `upper_bound` cuts a list into.
  pub upper_bound-append : (x : A) (ys : List A) → (upper_bound x ys).0 ++ (upper_bound x ys).1 ≡ ys
  upper_bound-append x [] = refl
  upper_bound-append x (y ∷ ys) =
      elim (lt x y)
        as (λ b.
          (placed y ys (upper_bound x ys) b).0 ++ (placed y ys (upper_bound x ys) b).1 ≡ y ∷ ys) [
            | true ↦ refl
            | false ↦ ap (◌∷◌ y) (upper_bound-append x ys)
          ]

  pub upper_bound-before : (x : A) (ys : List A) → All (λ y. lt x y ≡ false) (upper_bound x ys).0
  upper_bound-before x [] = tt
  upper_bound-before x (y ∷ ys) =
      elim (lt x y)
          as (λ b. lt x y ≡ b → All (λ z. lt x z ≡ false) (placed y ys (upper_bound x ys) b).0) [
            | true ↦ λ h. tt
            | false ↦ λ h. (h, upper_bound-before x ys)
          ]
        refl

  -- Two parts of an ordered list.
  abbrev AllAbove : List A → List A → Type 0
  AllAbove xs ys = All (λ x. All (λ y. lt y x ≡ false) ys) xs

  Ordered-append : (xs ys : List A) → Ordered xs → Ordered ys → AllAbove xs ys → Ordered (xs ++ ys)
  Ordered-append [] ys _ ordered _ = ordered
  Ordered-append (x ∷ xs) ys (above, left) right (head, tail) =
      (All-append (λ y. lt y x ≡ false) xs ys above head, Ordered-append xs ys left right tail)

  All-split : (P : A → Type 0) (xs ys : List A) → All P (xs ++ ys) → All P xs × All P ys
  All-split P [] ys all = (tt, all)
  All-split P (x ∷ xs) ys (head, tail) = let (a, b) = All-split P xs ys tail in ((head, a), b)

  Ordered-split : (xs ys : List A) → Ordered (xs ++ ys) → Ordered xs × (Ordered ys × AllAbove xs ys)
  Ordered-split [] ys ordered = (tt, (ordered, tt))
  Ordered-split (x ∷ xs) ys (above, ordered) =
      let (a, (b, c)) = Ordered-split xs ys ordered in
      let (l, r) = All-split (λ y. lt y x ≡ false) xs ys above in ((l, a), (b, (r, c)))

  pub All-merge :
      (P : A → Type 0) (base added : List A) → All P base → All P added → All P (merge base added)
  All-merge P base [] all _ = all
  All-merge P base (x ∷ added) all (head, tail) =
      let (a, b) =
        All-split P (upper_bound x base).0 (upper_bound x base).1
          (subst (All P) (sym (upper_bound-append x base)) all) in
      All-append P (upper_bound x base).0 (x ∷ merge (upper_bound x base).1 added) a
        (head, All-merge P (upper_bound x base).1 added b tail)

  -- Merging loses nothing and makes nothing up.
  pub count-merge :
      (p : A → Bool) (base added : List A)
      → count p (merge base added) ≡ count p base + count p added
  count-merge p base [] = omega arith
  count-merge p base (x ∷ added) =
      let smaller = (upper_bound x base).0 in
      let rest = (upper_bound x base).1 in
      let whole = count-append p smaller (x ∷ merge rest added) in
      let parts = ap (count p) (sym (upper_bound-append x base)) ∙ count-append p smaller rest in
      let ih = count-merge p rest added in ground (arith)

  pub Ordered-filter : (p : A → Bool) (xs : List A) → Ordered xs → Ordered (filter p xs)
  Ordered-filter p [] _ = tt
  Ordered-filter p (x ∷ xs) (above, ordered) =
      elim (p x) as (λ b. Ordered (if b then x ∷ filter p xs else filter p xs)) [
        | true ↦ (All-filter (λ y. lt y x ≡ false) p xs above, Ordered-filter p xs ordered)
        | false ↦ Ordered-filter p xs ordered
      ]

  pub All-insert : (P : A → Type 0) (x : A) (ys : List A) → P x → All P ys → All P (insert x ys)
  All-insert P x [] head _ = (head, tt)
  All-insert P x (y ∷ ys) head (h, tail) =
      elim (lt y x) as (λ b. All P (if b then y ∷ insert x ys else x ∷ y ∷ ys)) [
        | true ↦ (h, All-insert P x ys head tail)
        | false ↦ (head, (h, tail))
      ]

  pub All-insert_new :
      (P : A → Type 0) (x : A) (ys : List A) → P x → All P ys → All P (insert_new x ys)
  All-insert_new P x [] head _ = (head, tt)
  All-insert_new P x (y ∷ ys) head (h, tail) =
      elim (lt y x)
        as (λ b.
          All P (if b then y ∷ insert_new x ys else (if lt x y then x ∷ y ∷ ys else y ∷ ys))) [
            | true ↦ (h, All-insert_new P x ys head tail)
            | false ↦ elim (lt x y) as (λ b. All P (if b then x ∷ y ∷ ys else y ∷ ys)) [
              | true ↦ (head, (h, tail))
              | false ↦ (h, tail)
            ]
          ]

  pub count-insert : (p : A → Bool) (x : A) (ys : List A) → count p (insert x ys) ≡ count p (x ∷ ys)
  count-insert p x [] = refl
  count-insert p x (y ∷ ys) = let ih = count-insert p x ys in ground (arith)

  module _ (trans : (x y z : A) → lt y x ≡ false → lt z y ≡ false → lt z x ≡ false)
      (weak : (x y : A) → lt x y ≡ true → lt y x ≡ false) where
    All-above :
        (x y : A) (ys : List A)
        → lt y x ≡ false
        → All (λ z. lt z y ≡ false) ys
        → All (λ z. lt z x ≡ false) ys
    All-above x y [] h _ = tt
    All-above x y (z ∷ zs) h (head, tail) = (trans x y z h head, All-above x y zs h tail)

    upper_bound-after :
        (x : A) (ys : List A) → Ordered ys → All (λ y. lt y x ≡ false) (upper_bound x ys).1
    upper_bound-after x [] _ = tt
    upper_bound-after x (y ∷ ys) (above, ordered) =
        elim (lt x y)
            as (λ b. lt x y ≡ b → All (λ z. lt z x ≡ false) (placed y ys (upper_bound x ys) b).1) [
              | true ↦ λ h. (weak x y h, All-above x y ys (weak x y h) above)
              | false ↦ λ h. upper_bound-after x ys ordered
            ]
          refl

    above-merge :
        (x : A) (smaller rest added : List A)
        → All (λ s. lt x s ≡ false) smaller
        → AllAbove smaller rest
        → All (λ z. lt z x ≡ false) added
        → AllAbove smaller (x ∷ merge rest added)
    above-merge x [] rest added _ _ _ = tt
    above-merge x (s ∷ smaller) rest added (before, befores) (after, afters) above = (
      (before, All-merge (λ z. lt z s ≡ false) rest added after (All-above s x added before above)),
      above-merge x smaller rest added befores afters above,
    )

    pub Ordered-merge :
        (base added : List A) → Ordered base → Ordered added → Ordered (merge base added)
    Ordered-merge base [] ordered _ = ordered
    Ordered-merge base (x ∷ added) ordered (above, later) =
        let smaller = (upper_bound x base).0 in
        let rest = (upper_bound x base).1 in
        let (low, (high, apart)) =
          Ordered-split smaller rest (subst Ordered (sym (upper_bound-append x base)) ordered) in
        Ordered-append smaller (x ∷ merge rest added) low
          (
            All-merge (λ z. lt z x ≡ false) rest added (upper_bound-after x base ordered) above,
            Ordered-merge rest added high later,
          )
          (above-merge x smaller rest added (upper_bound-before x base) apart above)

    pub Ordered-insert : (x : A) (ys : List A) → Ordered ys → Ordered (insert x ys)
    Ordered-insert x [] _ = (tt, tt)
    Ordered-insert x (y ∷ ys) (above, ordered) =
        elim (lt y x) as (λ b. lt y x ≡ b → Ordered (if b then y ∷ insert x ys else x ∷ y ∷ ys)) [
          | true ↦ λ h. (
            All-insert (λ z. lt z y ≡ false) x ys (weak y x h) above,
            Ordered-insert x ys ordered,
          )
          | false ↦ λ h. ((h, All-above x y ys h above), (above, ordered))
        ]
          refl

    pub Ordered-insert_new : (x : A) (ys : List A) → Ordered ys → Ordered (insert_new x ys)
    Ordered-insert_new x [] _ = (tt, tt)
    Ordered-insert_new x (y ∷ ys) (above, ordered) =
        elim (lt y x)
            as (λ b.
              lt y x ≡ b
              → Ordered
                  (if b then y ∷ insert_new x ys else (if lt x y then x ∷ y ∷ ys else y ∷ ys))) [
                    | true ↦ λ h. (
                      All-insert_new (λ z. lt z y ≡ false) x ys (weak y x h) above,
                      Ordered-insert_new x ys ordered,
                    )
                    | false ↦ λ h.
                        elim (lt x y) as (λ b. Ordered (if b then x ∷ y ∷ ys else y ∷ ys)) [
                          | true ↦ ((h, All-above x y ys h above), (above, ordered))
                          | false ↦ (above, ordered)
                        ]
                  ]
          refl
