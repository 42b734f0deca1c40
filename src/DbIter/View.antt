-- ===== src/DbIter/View.antt =====
-- The versions that an internal iterator reads, and a walk over them: leveldb学习/初始化/db_iter.c.
use study_history.Prelude.{
  ℕ, zero, suc, ◌≤◌, ◌≡◌, ◌≢◌, inl, inr, refl, sym, ap, ◌∙◌, arith, List, [], ◌∷◌, ◌++◌, Bool, true,
  false, Bool-cases, Option, none, some, ltb, length, All, length-append,
}
use study_history.Coding.{Bytes}
use study_history.Comparator.{Comparator, IsOrder, Le, flip}
use study_history.DbFormat.{
  ParsedInternalKey, ValueType, deletion, value, append_internal_key, max_sequence_number,
}
use study_history.FileSet.{is_gt}
use study_history.DbIter.{Iterator, DbIter, db_key, db_value, db_next}
use Prim.Native.Nat.{Ordering}

-- A version of a key, as the internal iterator gives it.
abbrev pub Version : Type 0
Version = ParsedInternalKey × Bytes

abbrev pub is_eq : Ordering → Bool
is_eq Ordering.eq = true
is_eq Ordering.lt = false
is_eq Ordering.gt = false

module _ (ucmp : Comparator) (sequence : ℕ) where
  -- Whether a version has the user key of the visible version before it, if there is one.
  abbrev pub hides : Option Bytes → Bytes → Bool
  hides none user_key = false
  hides (some newer) user_key = is_eq (ucmp.compare user_key newer)

  abbrev pub shown : Bool → ValueType → Bytes → Bytes → List (Bytes × Bytes)
  shown true type user_key v = []
  shown false deletion user_key v = []
  shown false value user_key v = (user_key, v) ∷ []

  -- Of the versions that are not newer than a sequence number, the values that come first of their
  -- user key. `last` is the user key of the version before.
  abbrev pub visible : Option Bytes → List Version → List (Bytes × Bytes)
  visible last [] = []
  visible last ((k, v) ∷ versions) = elim (ltb sequence k.sequence) [
    | true ↦ visible last versions
    | false ↦
        shown (hides last k.user_key) k.type k.user_key v ++ visible (some k.user_key) versions
  ]

  pub visible_newer :
      (last : Option Bytes) (e : Version) (es : List Version)
      → ltb sequence e.0.sequence ≡ true
      → visible last (e ∷ es) ≡ visible last es
  visible_newer last (k, v) es newer = rw (visible, newer) refl

  pub visible_seen :
      (last : Option Bytes) (e : Version) (es : List Version)
      → ltb sequence e.0.sequence ≡ false
      → visible last (e ∷ es)
        ≡ shown (hides last e.0.user_key) e.0.type e.0.user_key e.1
          ++ visible (some e.0.user_key) es
  visible_seen last (k, v) es seen = rw (visible, seen) refl

  -- The user keys do not fall along the versions.
  abbrev pub Rises : List Version → Type 0
  Rises [] = Unit
  Rises (e ∷ versions) =
      All (λ later. Le ucmp e.0.user_key later.0.user_key) versions × Rises versions

  abbrev pub Bound : Option Bytes → List Version → Type 0
  Bound none versions = Unit
  Bound (some last) versions = All (λ later. Le ucmp last later.0.user_key) versions

  -- The key that FindNextUserEntry skips is, to the comparator, that of the version before.
  abbrev pub Skips : Bool → Bytes → Option Bytes → Type 0
  Skips false skip none = Unit
  Skips true skip (some last) = ucmp.compare skip last ≡ Ordering.eq
  Skips skipping skip last = ⊥

  abbrev pub AreVersions : List Version → Type 0
  AreVersions = All (λ e. e.0.sequence ≤ max_sequence_number)

  -- The internal iterator reads a list of versions, from `rest` on.
  pub record Reads {S : Type 0} (ops : Iterator S) (rest : S → List Version)
      (versions : List Version) : Type 0 where
    pub at_end : (s : S) → rest s ≡ [] → ops.valid s ≡ false
    pub at_version :
        (s : S) (e : Version) (es : List Version) → rest s ≡ e ∷ es → ops.valid s ≡ true
    pub key_lem :
        (s : S) (e : Version) (es : List Version)
        → rest s ≡ e ∷ es
        → ops.key s ≡ append_internal_key [] e.0
    pub value_lem : (s : S) (e : Version) (es : List Version) → rest s ≡ e ∷ es → ops.value s ≡ e.1
    pub next_lem :
        (s : S) (e : Version) (es : List Version) → rest s ≡ e ∷ es → rest (ops.next s) ≡ es
    pub first_lem : (s : S) → rest (ops.seek_to_first s) ≡ versions

  module _ {S : Type 0} (ops : Iterator S) where
    -- What a walk forward shows: `none` if FindNextUserEntry ran out of fuel.
    abbrev pub walk_forward : ℕ → ℕ → Option (DbIter S) → Option (List (Bytes × Bytes))
    walk_forward fuel zero found = none
    walk_forward fuel (suc rounds) none = none
    walk_forward fuel (suc rounds) (some it) = elim it.valid [
      | false ↦ some []
      | true ↦ elim (walk_forward fuel rounds (db_next ops ucmp sequence fuel it)) [
        | none ↦ none
        | some more ↦ some ((db_key ops it, db_value ops it) ∷ more)
      ]
    ]

  module _ (order : IsOrder ucmp) where
    abbrev Middle : Ordering → Type 0
    Middle r = (r ≢ Ordering.gt) → (is_gt (flip r) ≡ false) → r ≡ Ordering.eq

    middle : (r : Ordering) → Middle r
    middle Ordering.lt h g = absurd (cc (g))
    middle Ordering.eq h g = refl
    middle Ordering.gt h g = absurd (h refl)

    above : (r : Ordering) → is_gt (flip r) ≡ true → is_eq (flip r) ≡ false
    above Ordering.lt h = refl
    above Ordering.eq h = absurd (cc (h))
    above Ordering.gt h = absurd (cc (h))

    -- A later version at the skipped key is of the same key, and then hidden.
    pub same_key :
        (skip last user_key : Bytes)
        → ucmp.compare skip last ≡ Ordering.eq
        → Le ucmp last user_key
        → is_gt (ucmp.compare user_key skip) ≡ false
        → (is_eq (ucmp.compare user_key last) ≡ true) × (ucmp.compare skip user_key ≡ Ordering.eq)
    same_key skip last user_key eq le not_gt =
        let across = order.eq_left skip last user_key eq in
        let turned : is_gt (flip (ucmp.compare last user_key)) ≡ false =
          ap is_gt (sym (order.flips skip user_key ∙ ap flip across)) ∙ not_gt in
        let mid = middle (ucmp.compare last user_key) le turned in
        (ap is_eq (order.flips last user_key ∙ ap flip mid), across ∙ mid)

    pub other_key :
        (skip last user_key : Bytes)
        → ucmp.compare skip last ≡ Ordering.eq
        → is_gt (ucmp.compare user_key skip) ≡ true
        → is_eq (ucmp.compare user_key last) ≡ false
    other_key skip last user_key eq gt =
        let across = order.eq_left skip last user_key eq in
        let turned : is_gt (flip (ucmp.compare last user_key)) ≡ true =
          ap is_gt (sym (order.flips skip user_key ∙ ap flip across)) ∙ gt in
        ap is_eq (order.flips last user_key) ∙ above (ucmp.compare last user_key) turned

    length-shown :
        (hidden : Bool) (type : ValueType) (k v : Bytes) → length (shown hidden type k v) ≤ 1
    length-shown true type k v = omega arith
    length-shown false deletion k v = omega arith
    length-shown false value k v = omega arith

    pub length-visible :
        (last : Option Bytes) (es : List Version) → length (visible last es) ≤ length es
    length-visible last [] = omega arith
    length-visible last (e ∷ es) = elim (Bool-cases (ltb sequence e.0.sequence)) [
      | inl newer ↦ omega (arith, ap length (visible_newer last e es newer), length-visible last es)
      | inr seen ↦
          let first = shown (hides last e.0.user_key) e.0.type e.0.user_key e.1 in
          omega (
            arith,
            ap length (visible_seen last e es seen),
            length-append first (visible (some e.0.user_key) es),
            length-shown (hides last e.0.user_key) e.0.type e.0.user_key e.1,
            length-visible (some e.0.user_key) es,
          )
    ]

    own : (r : Ordering) → r ≡ flip r → r ≡ Ordering.eq
    own Ordering.lt h = cc (h)
    own Ordering.eq h = refl
    own Ordering.gt h = cc (h)

    pub own_key : (k : Bytes) → ucmp.compare k k ≡ Ordering.eq
    own_key k = own (ucmp.compare k k) (order.flips k k)

    pub shown-deletion : (hidden : Bool) (k v : Bytes) → shown hidden deletion k v ≡ []
    shown-deletion true k v = refl
    shown-deletion false k v = refl
