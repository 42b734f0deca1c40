-- ===== src/VersionEdit/Parts.antt =====
-- DecodeFrom over each part of what EncodeTo writes: the members, and the three loops.
use study_history.Prelude.{
  ℕ, ◌^◌, ◌<◌, ◌≡◌, refl, sym, subst, arith, List, [], ◌∷◌, ◌++◌, Bool, true, false, length,
  append_assoc, append-nil, All,
}
use study_history.Coding.{Bytes, IsU64, encode_varint64}
use study_history.Coding.Slices.{prefixed}
use study_history.VersionEdit.{
  FileMetaData, VersionEdit, num_levels, Tag, comparator_tag, log_number_tag, next_file_number_tag,
  last_sequence_tag, compact_pointer_tag, deleted_file_tag, new_file_tag, prev_log_number_tag,
  Status, file_meta, add_file, set_insert, delete_file, pair_ltb, decode_field, set_comparator_name,
  set_log_number, set_prev_log_number, set_next_file, set_last_sequence, set_compact_pointer, next,
}
use study_history.VersionEdit.Fields.{
  field, Decodes, Decodes-field, part, pointer_field, deleted_field, new_field, fields,
  round-comparator, round-log_number, round-prev_log_number, round-next_file_number,
  round-last_sequence, round-pointer, round-deleted, round-new,
}

-- The order of a std::set: every element is below all that follow it.
abbrev pub Ascending : List (ℕ × ℕ) → Type 0
Ascending [] = Unit {0}
Ascending (x ∷ s) = All (λ y. pair_ltb x y ≡ true) s × Ascending s

-- A member that was not set has its initial value.
abbrev pub Unset : Bool → Type 0 → Type 0
Unset true P = Unit {0}
Unset false P = P

-- What `file_meta` builds over 64-bit numbers.
pub record IsFile (f : FileMetaData) : Type 0 where
  pub fresh : f ≡ file_meta f.number f.file_size f.smallest f.largest
  pub number_u64 : IsU64 f.number
  pub size_u64 : IsU64 f.file_size
  pub smallest_size : length f.smallest < 2 ^ 32
  pub largest_size : length f.largest < 2 ^ 32

-- An edit that the setters can build over 64-bit numbers and keys of less than 4 GB.
pub record IsEncodable (e : VersionEdit) : Type 0 where
  pub comparator_size : length e.comparator < 2 ^ 32
  pub log_u64 : IsU64 e.log_number
  pub prev_log_u64 : IsU64 e.prev_log_number
  pub next_file_u64 : IsU64 e.next_file_number
  pub sequence_u64 : IsU64 e.last_sequence
  pub no_comparator : Unset e.has_comparator (e.comparator ≡ [])
  pub no_log : Unset e.has_log_number (e.log_number ≡ 0)
  pub no_prev_log : Unset e.has_prev_log_number (e.prev_log_number ≡ 0)
  pub no_next_file : Unset e.has_next_file_number (e.next_file_number ≡ 0)
  pub no_sequence : Unset e.has_last_sequence (e.last_sequence ≡ 0)
  pub pointers : All (λ p. (p.0 < num_levels) × (length p.1 < 2 ^ 32)) e.compact_pointers
  pub deleted : All (λ p. (p.0 < num_levels) × IsU64 p.1) e.deleted_files
  pub deleted_set : Ascending e.deleted_files
  pub added : All (λ p. (p.0 < num_levels) × IsFile p.1) e.new_files

-- An element above all of a set is inserted at its end.
set_insert-last :
    (x : ℕ × ℕ) (acc : List (ℕ × ℕ))
    → All (λ y. pair_ltb y x ≡ true) acc
    → set_insert x acc ≡ acc ++ x ∷ []
unfolding set_insert
set_insert-last x [] h = refl
set_insert-last x (y ∷ acc) h = ground (arith, set_insert-last x acc h.1)

Ascending-below :
    (acc : List (ℕ × ℕ)) (x : ℕ × ℕ) (s : List (ℕ × ℕ))
    → Ascending (acc ++ x ∷ s)
    → All (λ y. pair_ltb y x ≡ true) acc
Ascending-below [] x s h = tt
Ascending-below (y ∷ acc) x s h = (All-middle acc h.0, Ascending-below acc x s h.1)
  where
    All-middle :
        (l : List (ℕ × ℕ)) → All (λ z. pair_ltb y z ≡ true) (l ++ x ∷ s) → pair_ltb y x ≡ true
    All-middle [] k = k.0
    All-middle (z ∷ l) k = All-middle l k.1

-- One field before more of the input.
Decodes-cons :
    (t : Tag) (body more rest : Bytes) (e e' : VersionEdit) (out : VersionEdit × Status)
    → decode_field t (body ++ (more ++ rest)) e ≡ next e' (more ++ rest)
    → Decodes (more ++ rest) e' out
    → Decodes ((field t body ++ more) ++ rest) e out
Decodes-cons t body more rest e e' out round later =
    rw (append_assoc (field t body) more rest)
      (Decodes-field t body (more ++ rest) e e' out round later)

module _ (e : VersionEdit) (rest : Bytes) (out : VersionEdit × Status) where
  pub Decodes-pointers :
      (ps acc : List (ℕ × Bytes))
      → All (λ p. (p.0 < num_levels) × (length p.1 < 2 ^ 32)) ps
      → Decodes rest (record e { compact_pointers = acc ++ ps }) out
      → Decodes (fields pointer_field ps ++ rest) (record e { compact_pointers = acc }) out
  unfolding set_compact_pointer
  Decodes-pointers [] acc h d =
      subst (λ l. Decodes rest (record e { compact_pointers = l }) out) (append-nil acc) d
  Decodes-pointers ((level, key) ∷ ps) acc h d =
      let before : VersionEdit = record e { compact_pointers = acc } in
      Decodes-cons compact_pointer_tag _ (fields pointer_field ps) rest before
        (set_compact_pointer before level key) out
        (round-pointer before (fields pointer_field ps ++ rest) level key h.0.0 h.0.1)
        (Decodes-pointers ps (acc ++ (level, key) ∷ []) h.1 (
          subst (λ l. Decodes rest (record e { compact_pointers = l }) out)
            (sym (append_assoc acc ((level, key) ∷ []) ps)) d))

  pub Decodes-deleted :
      (ds acc : List (ℕ × ℕ))
      → All (λ p. (p.0 < num_levels) × IsU64 p.1) ds
      → Ascending (acc ++ ds)
      → Decodes rest (record e { deleted_files = acc ++ ds }) out
      → Decodes (fields deleted_field ds ++ rest) (record e { deleted_files = acc }) out
  unfolding delete_file
  Decodes-deleted [] acc h s d =
      subst (λ l. Decodes rest (record e { deleted_files = l }) out) (append-nil acc) d
  Decodes-deleted ((level, number) ∷ ds) acc h s d =
      let before : VersionEdit = record e { deleted_files = acc } in
      let x : ℕ × ℕ = (level, number) in
      let last = set_insert-last x acc (Ascending-below acc x ds s) in
      let assoc = sym (append_assoc acc (x ∷ []) ds) in
      Decodes-cons deleted_file_tag _ (fields deleted_field ds) rest before
        (delete_file before level number) out
        (round-deleted before (fields deleted_field ds ++ rest) level number h.0.0 h.0.1)
        (subst (λ l. Decodes (fields deleted_field ds ++ rest) (record e { deleted_files = l }) out)
          (sym last)
          (Decodes-deleted ds (acc ++ x ∷ []) h.1 (subst Ascending assoc s)
            (subst (λ l. Decodes rest (record e { deleted_files = l }) out) assoc d)))

  pub Decodes-new :
      (fs acc : List (ℕ × FileMetaData))
      → All (λ p. (p.0 < num_levels) × IsFile p.1) fs
      → Decodes rest (record e { new_files = acc ++ fs }) out
      → Decodes (fields new_field fs ++ rest) (record e { new_files = acc }) out
  unfolding add_file
  Decodes-new [] acc h d =
      subst (λ l. Decodes rest (record e { new_files = l }) out) (append-nil acc) d
  Decodes-new ((level, f) ∷ fs) acc h d =
      let before : VersionEdit = record e { new_files = acc } in
      let ok_f = h.0.1 in
      let assoc = sym (append_assoc acc ((level, f) ∷ []) fs) in
      Decodes-cons new_file_tag _ (fields new_field fs) rest before
        (add_file before level (file_meta f.number f.file_size f.smallest f.largest)) out
        (round-new before (fields new_field fs ++ rest) level f.number f.file_size f.smallest
          f.largest h.0.0 ok_f.number_u64 ok_f.size_u64 ok_f.smallest_size ok_f.largest_size)
        (subst
          (λ g.
            Decodes (fields new_field fs ++ rest) (record e { new_files = acc ++ (level, g) ∷ [] })
              out)
          ok_f.fresh
          (Decodes-new fs (acc ++ (level, f) ∷ []) h.1
            (subst (λ l. Decodes rest (record e { new_files = l }) out) assoc d)))

  pub Decodes-comparator :
      (has : Bool) (s : Bytes)
      → Unset has (s ≡ [])
      → length s < 2 ^ 32
      → Decodes rest (record e { has_comparator = has; comparator = s }) out
      → Decodes
          (part has (field comparator_tag (prefixed s)) ++ rest)
          (record e { has_comparator = false; comparator = [] })
          out
  unfolding set_comparator_name
  Decodes-comparator true s u h d =
      let before : VersionEdit = record e { has_comparator = false; comparator = [] } in
      Decodes-field comparator_tag (prefixed s) rest before (set_comparator_name before s) out
        (round-comparator before rest s h) d
  Decodes-comparator false s u h d =
      subst (λ n. Decodes rest (record e { has_comparator = false; comparator = n }) out) u d

  pub Decodes-log :
      (has : Bool) (n : ℕ)
      → Unset has (n ≡ 0)
      → IsU64 n
      → Decodes rest (record e { has_log_number = has; log_number = n }) out
      → Decodes
          (part has (field log_number_tag (encode_varint64 n)) ++ rest)
          (record e { has_log_number = false; log_number = 0 })
          out
  unfolding set_log_number
  Decodes-log true n u h d =
      let before : VersionEdit = record e { has_log_number = false; log_number = 0 } in
      Decodes-field log_number_tag (encode_varint64 n) rest before (set_log_number before n) out
        (round-log_number before rest n h) d
  Decodes-log false n u h d =
      subst (λ k. Decodes rest (record e { has_log_number = false; log_number = k }) out) u d

  pub Decodes-prev_log :
      (has : Bool) (n : ℕ)
      → Unset has (n ≡ 0)
      → IsU64 n
      → Decodes rest (record e { has_prev_log_number = has; prev_log_number = n }) out
      → Decodes
          (part has (field prev_log_number_tag (encode_varint64 n)) ++ rest)
          (record e { has_prev_log_number = false; prev_log_number = 0 })
          out
  unfolding set_prev_log_number
  Decodes-prev_log true n u h d =
      let before : VersionEdit = record e { has_prev_log_number = false; prev_log_number = 0 } in
      Decodes-field prev_log_number_tag (encode_varint64 n) rest before
        (set_prev_log_number before n) out (round-prev_log_number before rest n h) d
  Decodes-prev_log false n u h d =
      subst (λ k. Decodes rest (record e { has_prev_log_number = false; prev_log_number = k }) out)
        u d

  pub Decodes-next_file :
      (has : Bool) (n : ℕ)
      → Unset has (n ≡ 0)
      → IsU64 n
      → Decodes rest (record e { has_next_file_number = has; next_file_number = n }) out
      → Decodes
          (part has (field next_file_number_tag (encode_varint64 n)) ++ rest)
          (record e { has_next_file_number = false; next_file_number = 0 })
          out
  unfolding set_next_file
  Decodes-next_file true n u h d =
      let before : VersionEdit = record e { has_next_file_number = false; next_file_number = 0 } in
      Decodes-field next_file_number_tag (encode_varint64 n) rest before (set_next_file before n)
        out (round-next_file_number before rest n h) d
  Decodes-next_file false n u h d =
      subst
        (λ k. Decodes rest (record e { has_next_file_number = false; next_file_number = k }) out) u
        d

  pub Decodes-sequence :
      (has : Bool) (n : ℕ)
      → Unset has (n ≡ 0)
      → IsU64 n
      → Decodes rest (record e { has_last_sequence = has; last_sequence = n }) out
      → Decodes
          (part has (field last_sequence_tag (encode_varint64 n)) ++ rest)
          (record e { has_last_sequence = false; last_sequence = 0 })
          out
  unfolding set_last_sequence
  Decodes-sequence true n u h d =
      let before : VersionEdit = record e { has_last_sequence = false; last_sequence = 0 } in
      Decodes-field last_sequence_tag (encode_varint64 n) rest before (set_last_sequence before n)
        out (round-last_sequence before rest n h) d
  Decodes-sequence false n u h d =
      subst (λ k. Decodes rest (record e { has_last_sequence = false; last_sequence = k }) out) u d
