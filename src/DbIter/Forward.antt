-- ===== src/DbIter/Forward.antt =====
-- The forward half of leveldb学习/初始化/db_iter.c: SeekToFirst and Next over a list of versions.
use study_history.Prelude.{
  ℕ, zero, suc, ◌≤◌, ◌<◌, ◌≡◌, inl, inr, refl, sym, ap, ◌∙◌, subst, arith, List, [], ◌∷◌, ◌++◌,
  true, false, none, some, length,
}
use study_history.Coding.{Bytes}
use study_history.Comparator.{Comparator, IsOrder}
use study_history.DbFormat.{extract_user_key, max_sequence_number}
use study_history.DbFormat.Keys.{internal_key-parts}
use study_history.DbIter.{
  Iterator, forward, DbIter, find_next_user_entry, db_key, db_value, db_next, db_seek_to_first,
  db_key_at, db_value_at, next_from, found_from,
}
use mathlib.Core.Path.{ap₂}
use study_history.DbIter.View.{
  Version, is_eq, shown, visible, visible_seen, Rises, AreVersions, Reads, walk_forward, own_key,
  length-visible,
}
use study_history.DbIter.Newest.{NewestFirst, newest_values, newest-visible_all}
use study_history.DbIter.Round.{Stands, Found, find_lem}

module _ (ucmp : Comparator) (sequence : ℕ) (order : IsOrder ucmp) {S : Type 0} (ops : Iterator S)
    (rest : S → List Version) (versions : List Version)
    (reads : Reads ucmp sequence ops rest versions) where
  walk_end :
      (fuel rounds : ℕ) (it : DbIter S)
      → it.valid ≡ false
      → walk_forward ucmp sequence ops fuel (suc rounds) (some it) ≡ some []
  walk_end fuel rounds it invalid = rw (walk_forward, invalid) refl

  walk_more :
      (fuel rounds : ℕ) (it : DbIter S) (k v : Bytes) (more : List (Bytes × Bytes))
      → it.valid ≡ true
      → db_key ops it ≡ k
      → db_value ops it ≡ v
      → walk_forward ucmp sequence ops fuel rounds (db_next ops ucmp sequence fuel it) ≡ some more
      → walk_forward ucmp sequence ops fuel (suc rounds) (some it) ≡ some ((k, v) ∷ more)
  walk_more fuel rounds it k v more valid key val later =
      rw (walk_forward, valid, later) (ap₂ (λ a b. some ((a, b) ∷ more)) key val)

  user_key_at :
      (s : S) (e : Version) (es : List Version)
      → rest s ≡ e ∷ es
      → e.0.sequence ≤ max_sequence_number
      → extract_user_key (ops.key s) ≡ e.0.user_key
  user_key_at s e es at small =
      ap extract_user_key (reads.key_lem s e es at)
      ∙ (internal_key-parts e.0.user_key e.0.sequence e.0.type small).0

  forward_key :
      (it : DbIter S) → it.direction ≡ forward → db_key ops it ≡ extract_user_key (ops.key it.iter)
  unfolding db_key
  forward_key it dir = ap (λ d. db_key_at ops d it) dir

  forward_value : (it : DbIter S) → it.direction ≡ forward → db_value ops it ≡ ops.value it.iter
  unfolding db_value
  forward_value it dir = ap (λ d. db_value_at ops d it) dir

  abbrev saving : DbIter S → DbIter S
  saving it = record it { saved_key = extract_user_key (ops.key it.iter) }

  forward_next :
      (fuel : ℕ) (it : DbIter S)
      → it.direction ≡ forward
      → db_next ops ucmp sequence fuel it
        ≡ find_next_user_entry ops ucmp sequence fuel (saving it) true
  unfolding db_next
  forward_next fuel it dir = ap (λ d. next_from ops ucmp sequence d fuel it) dir

  -- Next from a version that is shown ucmp sequence.
  next-Found :
      (fuel : ℕ) (it : DbIter S) (shows : List (Bytes × Bytes)) (e : Version) (es : List Version)
      → Stands ucmp sequence order ops rest versions reads shows it e es
      → length (e ∷ es) ≤ length versions
      → length versions ≤ fuel
      → (it' : DbIter S) × (db_next ops ucmp sequence fuel it ≡ some it')
        × Found ucmp sequence order ops rest versions reads
            (visible ucmp sequence (some e.0.user_key) es)
            it'
  next-Found fuel it shows e es s fits enough =
      let uk = e.0.user_key in
      let saved = user_key_at it.iter e es s.at_lem s.versions_lem.0 in
      let own = own_key ucmp sequence order uk in
      let (it', found, result) =
        find_lem ucmp sequence order ops rest versions reads fuel (saving it) true (some uk) e es
          s.at_lem s.forward_lem (omega arith) fits s.versions_lem
          (ap (λ k. ucmp.compare k uk) saved ∙ own) ((λ gt. absurd (cc (own, gt))), s.rises_lem.0)
          s.rises_lem in
      let hidden =
        visible_seen ucmp sequence (some uk) e es s.seen_lem
        ∙ ap (λ h. shown ucmp sequence h e.0.type uk e.1 ++ visible ucmp sequence (some uk) es)
            (ap is_eq own) in
      (
        it',
        forward_next fuel it s.forward_lem ∙ found,
        subst (λ x. Found ucmp sequence order ops rest versions reads x it') hidden result,
      )

  walk_lem :
      (fuel rounds : ℕ) (it : DbIter S) (shows : List (Bytes × Bytes))
      → length versions ≤ fuel
      → length shows < rounds
      → Found ucmp sequence order ops rest versions reads shows it
      → walk_forward ucmp sequence ops fuel rounds (some it) ≡ some shows
  walk_lem fuel zero it shows enough many found = absurd (omega arith)
  walk_lem fuel (suc rounds) it shows enough many (inl (none_left, invalid)) =
      walk_end fuel rounds it invalid ∙ ap some (sym none_left)
  walk_lem fuel (suc rounds) it shows enough many (inr (e, es, s, fits)) =
      let (it', next, result) = next-Found fuel it shows e es s fits enough in
      let more = visible ucmp sequence (some e.0.user_key) es in
      let later =
        walk_lem fuel rounds it' more enough (omega (arith, ap length s.shows_lem)) result in
      walk_more fuel rounds it e.0.user_key e.1 more s.valid_lem
        (forward_key it s.forward_lem ∙ user_key_at it.iter e es s.at_lem s.versions_lem.0)
        (forward_value it s.forward_lem ∙ reads.value_lem it.iter e es s.at_lem)
        (ap (walk_forward ucmp sequence ops fuel rounds) next ∙ later)
      ∙ ap some (sym s.shows_lem)

  abbrev at_first : DbIter S → DbIter S
  at_first it = record it {
    direction = forward;
    saved_value = [];
    iter = ops.seek_to_first it.iter;
  }

  found_none :
      (fuel : ℕ) (it : DbIter S)
      → ops.valid it.iter ≡ false
      → found_from ops ucmp sequence fuel it ≡ some (record it { valid = false })
  unfolding found_from
  found_none fuel it e = rw (found_from, e) refl

  found_some :
      (fuel : ℕ) (it : DbIter S)
      → ops.valid it.iter ≡ true
      → found_from ops ucmp sequence fuel it ≡ find_next_user_entry ops ucmp sequence fuel it false
  unfolding found_from
  found_some fuel it e = rw (found_from, e) refl

  found_lem :
      (fuel : ℕ) (it : DbIter S) (es : List Version)
      → rest it.iter ≡ es
      → it.direction ≡ forward
      → length es ≤ fuel
      → length es ≤ length versions
      → AreVersions ucmp sequence es
      → Rises ucmp sequence es
      → (it' : DbIter S) × (found_from ops ucmp sequence fuel it ≡ some it')
        × Found ucmp sequence order ops rest versions reads (visible ucmp sequence none es) it'
  found_lem fuel it [] at dir enough fits small rises =
      (record it { valid = false }, found_none fuel it (reads.at_end it.iter at), inl (refl, refl))
  found_lem fuel it (e ∷ es) at dir enough fits small rises =
      let (it', found, result) =
        find_lem ucmp sequence order ops rest versions reads fuel it false none e es at dir enough
          fits small tt tt rises in
      (it', found_some fuel it (reads.at_version it.iter e es at) ∙ found, result)

  first-Found :
      (fuel : ℕ) (it : DbIter S)
      → length versions ≤ fuel
      → AreVersions ucmp sequence versions
      → Rises ucmp sequence versions
      → (it' : DbIter S) × (db_seek_to_first ops ucmp sequence fuel it ≡ some it')
        × Found ucmp sequence order ops rest versions reads
            (visible ucmp sequence none versions)
            it'
  unfolding db_seek_to_first
  first-Found fuel it enough small rises =
      found_lem fuel (at_first it) versions (reads.first_lem it.iter) refl enough (omega arith)
        small rises

  -- Over a user comparator that is a total order, and an internal iterator that reads a list of
  -- versions whose user keys do not fall and where, of two versions of a user key, the one with the
  -- larger sequence number comes first: SeekToFirst and then Next until the end show the user the
  -- keys and values, in order, of exactly those versions that are values, are not newer than the
  -- snapshot, and of whose user key no version is newer and not newer than the snapshot. One round of
  -- fuel for each version suffices.
  pub walk_forward-first :
      (it : DbIter S)
      → AreVersions ucmp sequence versions
      → Rises ucmp sequence versions
      → NewestFirst ucmp sequence versions
      → walk_forward ucmp sequence ops
          (length versions)
          (suc (length versions))
          (db_seek_to_first ops ucmp sequence (length versions) it)
        ≡ some (newest_values ucmp sequence versions versions)
  walk_forward-first it small rises newest =
      let (it', first, found) = first-Found (length versions) it (omega arith) small rises in
      ap (walk_forward ucmp sequence ops (length versions) (suc (length versions))) first
      ∙ walk_lem (length versions) (suc (length versions)) it' (visible ucmp sequence none versions)
          (omega arith) (omega (arith, length-visible ucmp sequence order none versions)) found
      ∙ ap some (sym (newest-visible_all ucmp sequence order versions rises newest))
