-- ===== src/DbIter/Newest.antt =====
-- What a user sees of some versions, said of each version by itself, without their order; it is
-- compared with the traversal that remembers the user key before.
use study_history.Prelude.{
  ℕ, ◌<◌, ◌≡◌, inl, inr, refl, sym, ap, ◌∙◌, subst, arith, List, [], ◌∷◌, ◌++◌, Bool, true, false,
  ◌&&◌, ◌||◌, Bool-cases, Option, none, some, ltb, leb, All, append_assoc,
}
use study_history.Coding.{Bytes}
use study_history.Comparator.{Comparator, IsOrder, Le, flip}
use study_history.DbIter.View.{
  Version, is_eq, hides, shown, visible, visible_newer, visible_seen, Rises, Bound,
}
use Prim.Native.Nat.{Ordering}

module _ (ucmp : Comparator) (sequence : ℕ) where
  -- Whether `other` is a version of the same user key that is newer than `e` and still visible at
  -- the snapshot.
  abbrev pub is_newer : Version → Version → Bool
  is_newer e other =
      is_eq (ucmp.compare e.0.user_key other.0.user_key)
      && (leb other.0.sequence sequence && ltb e.0.sequence other.0.sequence)

  abbrev pub any_newer : List Version → Version → Bool
  any_newer [] e = false
  any_newer (other ∷ all) e = is_newer e other || any_newer all e

  -- The keys and values of those of some versions that are values, are not newer than the snapshot,
  -- and have no newer visible version of their user key among all.
  abbrev pub newest_values : List Version → List Version → List (Bytes × Bytes)
  newest_values all [] = []
  newest_values all (e ∷ es) =
      shown ucmp sequence (ltb sequence e.0.sequence || any_newer all e) e.0.type e.0.user_key e.1
      ++ newest_values all es

  -- Of two versions of a user key, the one with the larger sequence number comes first.
  abbrev pub NewestFirst : List Version → Type 0
  NewestFirst [] = Unit
  NewestFirst (e ∷ es) =
      All
        (λ later.
          ucmp.compare e.0.user_key later.0.user_key ≡ Ordering.eq
          → later.0.sequence < e.0.sequence)
        es
      × NewestFirst es

  any_newer-append :
      (pre es : List Version) (e : Version)
      → any_newer (pre ++ es) e ≡ any_newer pre e || any_newer es e
  any_newer-append [] es e = refl
  any_newer-append (other ∷ pre) es e = let ih = any_newer-append pre es e in ground (arith, ih)

  none_newer :
      (e : Version) (es : List Version)
      → All
          (λ later.
            ucmp.compare e.0.user_key later.0.user_key ≡ Ordering.eq
            → later.0.sequence < e.0.sequence)
          es
      → any_newer es e ≡ false
  none_newer e [] _ = refl
  none_newer e (later ∷ es) (head, tail) =
      let ih = none_newer e es tail in
      let r = ucmp.compare e.0.user_key later.0.user_key in
      elim r
          as (λ x.
            r ≡ x
            → (is_eq x && (leb later.0.sequence sequence && ltb e.0.sequence later.0.sequence))
                || any_newer es e
              ≡ false) [
                | Ordering.lt ↦ λ h. ih
                | Ordering.gt ↦ λ h. ih
                | Ordering.eq ↦ λ h. let lower = head h in ground (arith, ih, lower)
              ]
        refl

  -- What the traversal knows of the versions before, at a version that it has yet to read.
  abbrev Known : Option Bytes → List Version → Version → Type 0
  Known last pre e =
      ltb sequence e.0.sequence ≡ false → any_newer pre e ≡ hides ucmp sequence last e.0.user_key

  Known-newer :
      (last : Option Bytes) (pre : List Version) (e : Version) (es : List Version)
      → ltb sequence e.0.sequence ≡ true
      → All (Known last pre) es
      → All (Known last (pre ++ e ∷ [])) es
  Known-newer last pre e [] newer _ = tt
  Known-newer last pre e (later ∷ es) newer (head, tail) = (
    (λ seen.
        let split = any_newer-append pre (e ∷ []) later in
        let before = head seen in ground (arith, split, before)),
    Known-newer last pre e es newer tail,
  )

  module _ (order : IsOrder ucmp) where
    between : (r : Ordering) → (r ≡ Ordering.gt → ⊥) → (flip r ≡ Ordering.gt → ⊥) → is_eq r ≡ true
    between Ordering.lt h k = absurd (k refl)
    between Ordering.eq h k = refl
    between Ordering.gt h k = absurd (h refl)

    from_eq : (r : Ordering) → is_eq r ≡ true → r ≡ Ordering.eq
    from_eq Ordering.lt h = absurd (cc (h))
    from_eq Ordering.eq h = refl
    from_eq Ordering.gt h = absurd (cc (h))

    -- A version whose user key is not that of the one before is not hidden by those before either.
    not_hidden :
        (last : Option Bytes) (e later : Version) (es : List Version)
        → Bound ucmp sequence last (e ∷ es)
        → Le ucmp e.0.user_key later.0.user_key
        → is_eq (ucmp.compare later.0.user_key e.0.user_key) ≡ false
        → hides ucmp sequence last later.0.user_key ≡ false
    not_hidden none e later es _ le other = refl
    not_hidden (some l) e later es (low, _) le other =
        let r = ucmp.compare later.0.user_key l in
        elim (Bool-cases (is_eq r)) [
          | inr different ↦ different
          | inl same ↦
              (let across = order.eq_left later.0.user_key l e.0.user_key (from_eq r same) in
                let equal =
                  between (ucmp.compare later.0.user_key e.0.user_key) (λ gt. low (sym across ∙ gt))
                    (λ gt. le (order.flips later.0.user_key e.0.user_key ∙ gt)) in
                absurd (cc (equal, other)))
        ]

    Known-seen :
        (last : Option Bytes) (pre : List Version) (e : Version) (fs es : List Version)
        → ltb sequence e.0.sequence ≡ false
        → Bound ucmp sequence last (e ∷ fs)
        → All (λ later. Le ucmp e.0.user_key later.0.user_key) es
        → All
            (λ later.
              ucmp.compare e.0.user_key later.0.user_key ≡ Ordering.eq
              → later.0.sequence < e.0.sequence)
            es
        → All (Known last pre) es
        → All (Known (some e.0.user_key) (pre ++ e ∷ [])) es
    Known-seen last pre e fs [] seen bound _ _ _ = tt
    Known-seen last pre e fs (later ∷ es) seen bound (le, les) (lower, lowers) (head, tail) = (
      (λ visible_later.
          let split = any_newer-append pre (e ∷ []) later in
          let before = head visible_later in
          elim (Bool-cases (is_eq (ucmp.compare later.0.user_key e.0.user_key))) [
            | inl same ↦
                (let turned =
                    order.flips later.0.user_key e.0.user_key
                    ∙ ap flip (from_eq (ucmp.compare later.0.user_key e.0.user_key) same) in
                  let smaller = lower turned in ground (arith, split, same, smaller, seen))
            | inr other ↦
                (let free = not_hidden last e later fs bound le other in
                  ground (arith, split, before, free, other))
          ]),
      Known-seen last pre e fs es seen bound les lowers tail,
    )

    own_newer :
        (pre : List Version) (e : Version) (es : List Version)
        → NewestFirst (e ∷ es)
        → any_newer (pre ++ e ∷ es) e ≡ any_newer pre e
    own_newer pre e es (lowers, _) =
        let split = any_newer-append pre (e ∷ es) e in
        let later = none_newer e es lowers in ground (arith, split, later)

    newest_seen :
        (last : Option Bytes) (pre : List Version) (e : Version) (es : List Version)
        → ltb sequence e.0.sequence ≡ false
        → any_newer (pre ++ e ∷ es) e ≡ hides ucmp sequence last e.0.user_key
        → newest_values (pre ++ e ∷ es) es ≡ visible ucmp sequence (some e.0.user_key) es
        → newest_values (pre ++ e ∷ es) (e ∷ es) ≡ visible ucmp sequence last (e ∷ es)
    newest_seen last pre e es seen own rest =
        ap
          (λ b.
            shown ucmp sequence (b || any_newer (pre ++ e ∷ es) e) e.0.type e.0.user_key e.1
            ++ newest_values (pre ++ e ∷ es) es)
          seen
        ∙ ap
            (λ b.
              shown ucmp sequence b e.0.type e.0.user_key e.1 ++ newest_values (pre ++ e ∷ es) es)
            own
        ∙ ap
            (λ more.
              shown ucmp sequence (hides ucmp sequence last e.0.user_key) e.0.type e.0.user_key e.1
              ++ more)
            rest
        ∙ sym (visible_seen ucmp sequence last e es seen)

    newest_newer :
        (last : Option Bytes) (all : List Version) (e : Version) (es : List Version)
        → ltb sequence e.0.sequence ≡ true
        → newest_values all es ≡ visible ucmp sequence last es
        → newest_values all (e ∷ es) ≡ visible ucmp sequence last (e ∷ es)
    newest_newer last all e es newer rest =
        ap
          (λ b.
            shown ucmp sequence (b || any_newer all e) e.0.type e.0.user_key e.1
            ++ newest_values all es)
          newer
        ∙ rest
        ∙ sym (visible_newer ucmp sequence last e es newer)

    Bound-tail :
        (last : Option Bytes) (e : Version) (es : List Version)
        → Bound ucmp sequence last (e ∷ es)
        → Bound ucmp sequence last es
    Bound-tail none e es _ = tt
    Bound-tail (some l) e es (_, tail) = tail

    newest-visible :
        (last : Option Bytes) (pre es : List Version)
        → Rises ucmp sequence es
        → NewestFirst es
        → Bound ucmp sequence last es
        → All (Known last pre) es
        → newest_values (pre ++ es) es ≡ visible ucmp sequence last es
    newest-visible last pre [] rises first bound known = refl
    newest-visible last pre (e ∷ es) rises first bound known =
        let moved = append_assoc pre (e ∷ []) es in
        elim (Bool-cases (ltb sequence e.0.sequence)) [
          | inl newer ↦ newest_newer last (pre ++ e ∷ es) e es newer (
              subst (λ all. newest_values all es ≡ visible ucmp sequence last es) moved
                (newest-visible last (pre ++ e ∷ []) es rises.1 first.1 (Bound-tail last e es bound)
                  (Known-newer last pre e es newer known.1)))
          | inr seen ↦ newest_seen last pre e es seen (own_newer pre e es first ∙ known.0 seen) (
              subst (λ all. newest_values all es ≡ visible ucmp sequence (some e.0.user_key) es)
                moved
                (newest-visible (some e.0.user_key) (pre ++ e ∷ []) es rises.1 first.1 rises.0
                  (Known-seen last pre e es es seen bound rises.0 first.0 known.1)))
        ]

    Known-none : (es : List Version) → All (Known none []) es
    Known-none [] = tt
    Known-none (e ∷ es) = ((λ seen. refl), Known-none es)

    pub newest-visible_all :
        (versions : List Version)
        → Rises ucmp sequence versions
        → NewestFirst versions
        → newest_values versions versions ≡ visible ucmp sequence none versions
    newest-visible_all versions rises first =
        newest-visible none [] versions rises first tt (Known-none versions)
