-- ===== src/DbIter/Round.antt =====
-- The loop FindNextUserEntry of leveldb学习/初始化/db_iter.c, a version at a time.
use study_history.Prelude.{
  ℕ, zero, suc, ◌≤◌, ◌≡◌, ◌⊎◌, inl, inr, refl, sym, ap, ◌∙◌, subst, arith, List, [], ◌∷◌, ◌++◌,
  Bool, true, false, Bool-cases, not, Option, none, some, ltb, if◌then◌else◌, length,
}
use study_history.Coding.{Bytes}
use study_history.Comparator.{Comparator, IsOrder}
use study_history.DbFormat.{
  ParsedInternalKey, ValueType, deletion, value, parse_internal_key, max_sequence_number,
}
use study_history.DbFormat.Keys.{parse-append}
use study_history.FileSet.{is_gt}
use study_history.DbIter.{
  Iterator, forward, DbIter, Examined, pass, yield, on_type, examine, find_next_user_entry,
}
use study_history.DbIter.View.{
  Version, hides, shown, visible, visible_newer, visible_seen, Rises, Bound, Skips, AreVersions,
  Reads, same_key, other_key, own_key, shown-deletion,
}

module _ (ucmp : Comparator) (sequence : ℕ) (order : IsOrder ucmp) {S : Type 0} (ops : Iterator S)
    (rest : S → List Version) (versions : List Version)
    (reads : Reads ucmp sequence ops rest versions) where
  -- What is known where the loop goes on behind a version, and where it returns at one.
  record GoesOn (it : DbIter S) (shows : List (Bytes × Bytes)) (es : List Version) (it' : DbIter S)
      (skipping' : Bool) (last' : Option Bytes) : Type 0 where
    iter_lem : it'.iter ≡ it.iter
    direction_lem : it'.direction ≡ it.direction
    skips_lem : Skips ucmp sequence skipping' it'.saved_key last'
    bound_lem : Bound ucmp sequence last' es
    shows_lem : shows ≡ visible ucmp sequence last' es

  record Returns (it : DbIter S) (shows : List (Bytes × Bytes)) (e : Version) (es : List Version)
      (it' : DbIter S) : Type 0 where
    iter_lem : it'.iter ≡ it.iter
    direction_lem : it'.direction ≡ it.direction
    valid_lem : it'.valid ≡ true
    seen_lem : ltb sequence e.0.sequence ≡ false
    type_lem : e.0.type ≡ value
    shows_lem : shows ≡ (e.0.user_key, e.1) ∷ visible ucmp sequence (some e.0.user_key) es

  examined_newer :
      (it : DbIter S) (skipping : Bool) (k : ParsedInternalKey)
      → parse_internal_key (ops.key it.iter) ≡ some k
      → ltb sequence k.sequence ≡ true
      → examine ops ucmp sequence it skipping ≡ pass it skipping
  unfolding examine
  examined_newer it skipping k parsed newer = rw (examine, parsed, newer) refl

  examined_seen :
      (it : DbIter S) (skipping : Bool) (k : ParsedInternalKey)
      → parse_internal_key (ops.key it.iter) ≡ some k
      → ltb sequence k.sequence ≡ false
      → examine ops ucmp sequence it skipping
        ≡ on_type ops ucmp sequence it skipping k.user_key k.type
  unfolding examine
  examined_seen it skipping k parsed seen = rw (examine, parsed, seen) refl

  abbrev Outcome : DbIter S → List (Bytes × Bytes) → Version → List Version → Examined S → Type 0
  Outcome it shows e es x =
      ((it' : DbIter S) × (skipping' : Bool) × (last' : Option Bytes) × (x ≡ pass it' skipping')
        × GoesOn it shows es it' skipping' last')
      ⊎ ((it' : DbIter S) × (x ≡ yield it') × Returns it shows e es it')

  -- The `switch` on the type of a version that is not newer than the snapshot.
  on_type-Outcome :
      (it : DbIter S) (skipping : Bool) (last : Option Bytes) (e : Version) (es : List Version)
      (type : ValueType)
      → e.0.type ≡ type
      → ltb sequence e.0.sequence ≡ false
      → Skips ucmp sequence skipping it.saved_key last
      → Bound ucmp sequence last (e ∷ es)
      → Rises ucmp sequence (e ∷ es)
      → Outcome it
          (shown ucmp sequence (hides ucmp sequence last e.0.user_key) type e.0.user_key e.1
            ++ visible ucmp sequence (some e.0.user_key) es)
          e
          es
          (on_type ops ucmp sequence it skipping e.0.user_key type)
  unfolding on_type
  on_type-Outcome it skipping last e es deletion same seen skips bound rises = inl (
    record it { saved_key = e.0.user_key },
    true,
    some e.0.user_key,
    refl,
    record {
      iter_lem = refl;
      direction_lem = refl;
      skips_lem = own_key ucmp sequence order e.0.user_key;
      bound_lem = rises.0;
      shows_lem =
          ap (λ x. x ++ visible ucmp sequence (some e.0.user_key) es)
            (shown-deletion ucmp sequence order (hides ucmp sequence last e.0.user_key) e.0.user_key
              e.1);
    },
  )
  on_type-Outcome it false none e es value same seen skips bound rises = inr (
    record it { valid = true; saved_key = [] },
    refl,
    record {
      iter_lem = refl;
      direction_lem = refl;
      valid_lem = refl;
      seen_lem = seen;
      type_lem = same;
      shows_lem = refl;
    },
  )
  on_type-Outcome it true none e es value same seen skips bound rises = elim skips [ ]
  on_type-Outcome it false (some last) e es value same seen skips bound rises = elim skips [ ]
  on_type-Outcome it true (some last) e es value same seen skips bound rises =
      let user_key = e.0.user_key in
      let returned = record it { valid = true; saved_key = [] } in
      elim (Bool-cases (is_gt (ucmp.compare user_key it.saved_key))) [
        | inl gt ↦ inr (
          returned,
          ap (λ c. if not c then pass it true else yield returned) gt,
          record {
            iter_lem = refl;
            direction_lem = refl;
            valid_lem = refl;
            seen_lem = seen;
            type_lem = same;
            shows_lem =
                ap
                  (λ h.
                    shown ucmp sequence h value user_key e.1
                    ++ visible ucmp sequence (some user_key) es)
                  (other_key ucmp sequence order it.saved_key last user_key skips gt);
          },
        )
        | inr not_gt ↦
            let both =
              same_key ucmp sequence order it.saved_key last user_key skips bound.0 not_gt in
            inl (
              it,
              true,
              some user_key,
              ap (λ c. if not c then pass it true else yield returned) not_gt,
              record {
                iter_lem = refl;
                direction_lem = refl;
                skips_lem = both.1;
                bound_lem = rises.0;
                shows_lem =
                    ap
                      (λ h.
                        shown ucmp sequence h value user_key e.1
                        ++ visible ucmp sequence (some user_key) es)
                      both.0;
              },
            )
      ]

  Bound-tail :
      (last : Option Bytes) (e : Version) (es : List Version)
      → Bound ucmp sequence last (e ∷ es)
      → Bound ucmp sequence last es
  Bound-tail none e es bound = tt
  Bound-tail (some last) e es bound = bound.1

  -- One round of FindNextUserEntry at a version.
  examine-Outcome :
      (it : DbIter S) (skipping : Bool) (last : Option Bytes) (e : Version) (es : List Version)
      → rest it.iter ≡ e ∷ es
      → e.0.sequence ≤ max_sequence_number
      → Skips ucmp sequence skipping it.saved_key last
      → Bound ucmp sequence last (e ∷ es)
      → Rises ucmp sequence (e ∷ es)
      → Outcome it
          (visible ucmp sequence last (e ∷ es))
          e
          es
          (examine ops ucmp sequence it skipping)
  examine-Outcome it skipping last e es at small skips bound rises =
      let parsed = ap parse_internal_key (reads.key_lem it.iter e es at) ∙ parse-append e.0 small in
      elim (Bool-cases (ltb sequence e.0.sequence)) [
        | inl newer ↦ inl (
          it,
          skipping,
          last,
          examined_newer it skipping e.0 parsed newer,
          record {
            iter_lem = refl;
            direction_lem = refl;
            skips_lem = skips;
            bound_lem = Bound-tail last e es bound;
            shows_lem = visible_newer ucmp sequence last e es newer;
          },
        )
        | inr seen ↦
            subst (λ x. Outcome it x e es (examine ops ucmp sequence it skipping))
              (sym (visible_seen ucmp sequence last e es seen))
              (subst
                (Outcome it
                  (shown ucmp sequence (hides ucmp sequence last e.0.user_key) e.0.type e.0.user_key
                      e.1
                    ++ visible ucmp sequence (some e.0.user_key) es)
                  e es)
                (sym (examined_seen it skipping e.0 parsed seen))
                (on_type-Outcome it skipping last e es e.0.type refl seen skips bound rises))
      ]

  -- Where the loop ends: behind the last version, or at one that it shows.
  pub record Stands (shows : List (Bytes × Bytes)) (it' : DbIter S) (e : Version)
      (es : List Version) : Type 0 where
    pub at_lem : rest it'.iter ≡ e ∷ es
    pub forward_lem : it'.direction ≡ forward
    pub valid_lem : it'.valid ≡ true
    pub seen_lem : ltb sequence e.0.sequence ≡ false
    pub type_lem : e.0.type ≡ value
    pub shows_lem : shows ≡ (e.0.user_key, e.1) ∷ visible ucmp sequence (some e.0.user_key) es
    pub rises_lem : Rises ucmp sequence (e ∷ es)
    pub versions_lem : AreVersions ucmp sequence (e ∷ es)

  abbrev pub Found : List (Bytes × Bytes) → DbIter S → Type 0
  Found shows it' =
      ((shows ≡ []) × (it'.valid ≡ false))
      ⊎ ((e : Version) × (es : List Version) × Stands shows it' e es
          × (length (e ∷ es) ≤ length versions))

  abbrev FindAt : ℕ → Type 0
  FindAt fuel =
      (it : DbIter S) (skipping : Bool) (last : Option Bytes) (e : Version) (es : List Version)
      → rest it.iter ≡ e ∷ es
      → it.direction ≡ forward
      → length (e ∷ es) ≤ fuel
      → length (e ∷ es) ≤ length versions
      → AreVersions ucmp sequence (e ∷ es)
      → Skips ucmp sequence skipping it.saved_key last
      → Bound ucmp sequence last (e ∷ es)
      → Rises ucmp sequence (e ∷ es)
      → (it' : DbIter S) × (find_next_user_entry ops ucmp sequence fuel it skipping ≡ some it')
        × Found (visible ucmp sequence last (e ∷ es)) it'

  abbrev stepped : DbIter S → DbIter S
  stepped it = record it { iter = ops.next it.iter }

  abbrev ended : DbIter S → DbIter S
  ended it = record (stepped it) { saved_key = []; valid = false }

  find_yield :
      (fuel : ℕ) (it it' : DbIter S) (skipping : Bool)
      → examine ops ucmp sequence it skipping ≡ yield it'
      → find_next_user_entry ops ucmp sequence (suc fuel) it skipping ≡ some it'
  unfolding find_next_user_entry
  find_yield fuel it it' skipping x = rw (find_next_user_entry, x) refl

  find_pass :
      (fuel : ℕ) (it it' : DbIter S) (skipping skipping' : Bool)
      → examine ops ucmp sequence it skipping ≡ pass it' skipping'
      → ops.valid (ops.next it'.iter) ≡ true
      → find_next_user_entry ops ucmp sequence (suc fuel) it skipping
        ≡ find_next_user_entry ops ucmp sequence fuel (stepped it') skipping'
  unfolding find_next_user_entry
  find_pass fuel it it' skipping skipping' x more = rw (find_next_user_entry, x, more) refl

  find_end :
      (fuel : ℕ) (it it' : DbIter S) (skipping skipping' : Bool)
      → examine ops ucmp sequence it skipping ≡ pass it' skipping'
      → ops.valid (ops.next it'.iter) ≡ false
      → find_next_user_entry ops ucmp sequence (suc fuel) it skipping ≡ some (ended it')
  unfolding find_next_user_entry
  find_end fuel it it' skipping skipping' x none_left = rw (find_next_user_entry, x, none_left) refl

  -- The versions behind one that the loop went on at.
  go_on :
      (fuel : ℕ) (find : FindAt fuel) (it it' : DbIter S) (skipping skipping' : Bool)
      (last' : Option Bytes) (shows : List (Bytes × Bytes)) (e : Version) (es : List Version)
      → examine ops ucmp sequence it skipping ≡ pass it' skipping'
      → GoesOn it shows es it' skipping' last'
      → rest it.iter ≡ e ∷ es
      → it.direction ≡ forward
      → length (e ∷ es) ≤ suc fuel
      → length (e ∷ es) ≤ length versions
      → AreVersions ucmp sequence es
      → Rises ucmp sequence es
      → (it'' : DbIter S) × (find_next_user_entry ops ucmp sequence (suc fuel) it skipping
          ≡ some it'')
        × Found shows it''
  go_on fuel find it it' skipping skipping' last' shows e [] x g at dir enough fits small rises =
      let moved = ap (λ s. rest (ops.next s)) g.iter_lem ∙ reads.next_lem it.iter e [] at in
      (
        ended it',
        find_end fuel it it' skipping skipping' x (reads.at_end (ops.next it'.iter) moved),
        inl (g.shows_lem, refl),
      )
  go_on fuel find it it' skipping skipping' last' shows e (e' ∷ es) x g at dir enough fits small
        rises =
      let moved = ap (λ s. rest (ops.next s)) g.iter_lem ∙ reads.next_lem it.iter e (e' ∷ es) at in
      let (it'', found, result) =
        find (stepped it') skipping' last' e' es moved (g.direction_lem ∙ dir) (omega arith)
          (omega arith) small g.skips_lem g.bound_lem rises in
      (
        it'',
        find_pass fuel it it' skipping skipping' x
              (reads.at_version (ops.next it'.iter) e' es moved)
            ∙ found,
        subst (λ s. Found s it'') (sym g.shows_lem) result,
      )

  pub find_lem : (fuel : ℕ) → FindAt fuel
  find_lem zero it skipping last e es at dir enough fits small skips bound rises =
      absurd (omega arith)
  find_lem (suc fuel) it skipping last e es at dir enough fits small skips bound rises =
      elim (examine-Outcome it skipping last e es at small.0 skips bound rises) [
        | inl (it', skipping', last', x, g) ↦
            go_on fuel (find_lem fuel) it it' skipping skipping' last'
              (visible ucmp sequence last (e ∷ es)) e es x g at dir enough fits small.1 rises.1
        | inr (it', x, g) ↦ (
          it',
          find_yield fuel it it' skipping x,
          inr (
            e,
            es,
            record {
              at_lem = ap rest g.iter_lem ∙ at;
              forward_lem = g.direction_lem ∙ dir;
              valid_lem = g.valid_lem;
              seen_lem = g.seen_lem;
              type_lem = g.type_lem;
              shows_lem = g.shows_lem;
              rises_lem = rises;
              versions_lem = small;
            },
            omega arith,
          ),
        )
      ]
