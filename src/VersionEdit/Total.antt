-- ===== src/VersionEdit/Total.antt =====
-- DecodeFrom on any input: leveldb学习/manifest/version_edit.c.
use study_history.Prelude.{
  ℕ, zero, suc, ◌+◌, ◌≤◌, ◌<◌, ◌≡◌, refl, arith, List, [], ◌∷◌, true, Option, none, some, length,
  All, All-append, Option-cases, inl, inr, ◌⊎◌, subst,
}
use study_history.Coding.{Bytes, get_varint32, get_varint64, get_length_prefixed_slice}
use study_history.Coding.Slices.{
  get_varint32-shorter, get_varint64-shorter, get_length_prefixed_slice-shorter,
}
use study_history.VersionEdit.{
  FileMetaData, VersionEdit, num_levels, Tag, ok, corruption, unknown_tag, invalid_tag,
  comparator_tag, log_number_tag, next_file_number_tag, last_sequence_tag, compact_pointer_tag,
  deleted_file_tag, new_file_tag, prev_log_number_tag, tag_of_code, Status, clear, file_meta,
  add_file, set_insert, delete_file, pair_ltb, get_level, decode_new, decode_field, decode_loop,
  decode_from, set_comparator_name, set_log_number, set_prev_log_number, set_next_file,
  set_last_sequence, set_compact_pointer, Step, next, fail, when, Message,
}
use study_history.VersionEdit.Parts.{Ascending}

-- Levels below kNumLevels, and a set for the deleted files.
pub record IsWellFormed (e : VersionEdit) : Type 0 where
  pub pointer_levels : All (λ p. p.0 < num_levels) e.compact_pointers
  pub deleted_levels : All (λ p. p.0 < num_levels) e.deleted_files
  pub deleted_set : Ascending e.deleted_files
  pub new_levels : All (λ p. p.0 < num_levels) e.new_files

-- A step that goes on keeps a well-formed edit so, and leaves at most the given bytes.
abbrev Goes : ℕ → Step → Type 0
Goes n (next e rest) = IsWellFormed e × (length rest ≤ n)
Goes n (fail msg) = Unit {0}

-- The rule for `when`: the rest of a read is shorter.
when-Goes {ℓ} :
    {A : Type ℓ} (n : ℕ) (o : Option (A × Bytes)) (msg : Message) (k : A → Bytes → Step)
    → ((a : A) (rest : Bytes) → o ≡ some (a, rest) → Goes n (k a rest))
    → Goes n (when o msg k)
when-Goes n none msg k h = tt
when-Goes n (some (a, rest)) msg k h = h a rest refl

get_level_takes :
    (p : Bytes) (v : ℕ) (rest : Bytes)
    → get_level p ≡ some (v, rest)
    → (v < num_levels) × (length rest < length p)
unfolding get_level
get_level_takes p v rest e = elim (Option-cases (get_varint32 p)) [
  | inl bad ↦ absurd (ground arith)
  | inr ((w, tail), got) ↦ ground (arith, get_varint32-shorter p w tail got)
]

set_insert-All :
    (P : ℕ × ℕ → Type 0) (x : ℕ × ℕ) (s : List (ℕ × ℕ)) → P x → All P s → All P (set_insert x s)
unfolding set_insert
set_insert-All P x [] h k = (h, tt)
set_insert-All P x (y ∷ s) h k = ground (arith, set_insert-All P x s h k.1)

pair_ltb_trans : (x y z : ℕ × ℕ) → pair_ltb x y ≡ true → pair_ltb y z ≡ true → pair_ltb x z ≡ true
pair_ltb_trans x y z h k = ground arith

All-below :
    (x y : ℕ × ℕ) (s : List (ℕ × ℕ))
    → pair_ltb x y ≡ true
    → All (λ z. pair_ltb y z ≡ true) s
    → All (λ z. pair_ltb x z ≡ true) s
All-below x y [] h k = tt
All-below x y (z ∷ s) h k = (pair_ltb_trans x y z h k.0, All-below x y s h k.1)

-- `std::set::insert` keeps the order.
pub set_insert-Ascending : (x : ℕ × ℕ) (s : List (ℕ × ℕ)) → Ascending s → Ascending (set_insert x s)
unfolding set_insert
set_insert-Ascending x [] h = (tt, tt)
set_insert-Ascending x (y ∷ s) h = ground (
  arith,
  All-below x y s,
  set_insert-Ascending x s h.1,
  set_insert-All (λ z. pair_ltb y z ≡ true) x s,
)

module _ (e : VersionEdit) (w : IsWellFormed e) where
  added-IsWellFormed :
      (level : ℕ) (f : FileMetaData) → level < num_levels → IsWellFormed (add_file e level f)
  unfolding add_file
  added-IsWellFormed level f h = record {
    pointer_levels = w.pointer_levels;
    deleted_levels = w.deleted_levels;
    deleted_set = w.deleted_set;
    new_levels =
        All-append (λ (p : ℕ × FileMetaData). p.0 < num_levels) e.new_files ((level, f) ∷ [])
          w.new_levels (h, tt);
  }

  pointed-IsWellFormed :
      (level : ℕ) (key : Bytes)
      → level < num_levels
      → IsWellFormed (set_compact_pointer e level key)
  unfolding set_compact_pointer
  pointed-IsWellFormed level key h = record {
    pointer_levels =
        All-append (λ (p : ℕ × Bytes). p.0 < num_levels) e.compact_pointers ((level, key) ∷ [])
          w.pointer_levels (h, tt);
    deleted_levels = w.deleted_levels;
    deleted_set = w.deleted_set;
    new_levels = w.new_levels;
  }

  deleted-IsWellFormed :
      (level file : ℕ) → level < num_levels → IsWellFormed (delete_file e level file)
  unfolding delete_file
  deleted-IsWellFormed level file h = record {
    pointer_levels = w.pointer_levels;
    deleted_levels =
        set_insert-All (λ p. p.0 < num_levels) (level, file) e.deleted_files h w.deleted_levels;
    deleted_set = set_insert-Ascending (level, file) e.deleted_files w.deleted_set;
    new_levels = w.new_levels;
  }

  decode_new-Goes : (input : Bytes) → Goes (length input) (decode_new input e)
  unfolding decode_new
  decode_new-Goes input = when-Goes (length input) (get_level input) _ _ λ level r1 h1.
      when-Goes (length input) (get_varint64 r1) _ _ λ number r2 h2.
        when-Goes (length input) (get_varint64 r2) _ _ λ size r3 h3.
          when-Goes (length input) (get_length_prefixed_slice r3) _ _ λ smallest r4 h4.
            when-Goes (length input) (get_length_prefixed_slice r4) _ _ λ largest r5 h5. (
              added-IsWellFormed level (file_meta number size smallest largest)
                  (get_level_takes input level r1 h1).0,
              omega (
                arith,
                get_level_takes input level r1 h1,
                get_varint64-shorter r1 number r2 h2,
                get_varint64-shorter r2 size r3 h3,
                get_length_prefixed_slice-shorter r3 smallest r4 h4,
                get_length_prefixed_slice-shorter r4 largest r5 h5,
              ),
            )

  number-Goes :
      (input : Bytes) (msg : Message) (set_number : ℕ → VersionEdit)
      → ((n : ℕ) → IsWellFormed (set_number n))
      → Goes (length input) (when (get_varint64 input) msg λ n. next (set_number n))
  number-Goes input msg set_number h =
      when-Goes (length input) (get_varint64 input) msg (λ n. next (set_number n))
        λ n rest e. (h n, omega (arith, get_varint64-shorter input n rest e))

  decode_field-Goes : (t : Tag) (input : Bytes) → Goes (length input) (decode_field t input e)
  unfolding decode_field set_comparator_name set_log_number set_prev_log_number set_next_file
      set_last_sequence
  decode_field-Goes comparator_tag input =
      when-Goes (length input) (get_length_prefixed_slice input) _ _
        λ s rest h. (ground arith, omega (arith, get_length_prefixed_slice-shorter input s rest h))
  decode_field-Goes log_number_tag input =
      number-Goes input _ (set_log_number e) (λ n. ground arith)
  decode_field-Goes prev_log_number_tag input =
      number-Goes input _ (set_prev_log_number e) (λ n. ground arith)
  decode_field-Goes next_file_number_tag input =
      number-Goes input _ (set_next_file e) (λ n. ground arith)
  decode_field-Goes last_sequence_tag input =
      number-Goes input _ (set_last_sequence e) (λ n. ground arith)
  decode_field-Goes compact_pointer_tag input =
      when-Goes (length input) (get_level input) _ _ λ level r1 h1.
        when-Goes (length input) (get_length_prefixed_slice r1) _ _ λ key r2 h2. (
          pointed-IsWellFormed level key (get_level_takes input level r1 h1).0,
          omega (
            arith,
            get_level_takes input level r1 h1,
            get_length_prefixed_slice-shorter r1 key r2 h2,
          ),
        )
  decode_field-Goes deleted_file_tag input =
      when-Goes (length input) (get_level input) _ _ λ level r1 h1.
        when-Goes (length input) (get_varint64 r1) _ _ λ number r2 h2. (
          deleted-IsWellFormed level number (get_level_takes input level r1 h1).0,
          omega (arith, get_level_takes input level r1 h1, get_varint64-shorter r1 number r2 h2),
        )
  decode_field-Goes new_file_tag input = decode_new-Goes input

Step-cases :
    (s : Step)
    → ((p : VersionEdit × Bytes) × (s ≡ next p.0 p.1)) ⊎ ((msg : Message) × (s ≡ fail msg))
Step-cases (next e rest) = inl ((e, rest), refl)
Step-cases (fail msg) = inr (msg, refl)

-- The loop ends before its fuel does, with a well-formed edit.
decode_loop_total :
    (fuel : ℕ) (input : Bytes) (e : VersionEdit)
    → length input < fuel
    → IsWellFormed e
    → (out : VersionEdit × Status) × (decode_loop fuel input e ≡ some out) × IsWellFormed out.0
unfolding decode_loop
decode_loop_total zero input e h w = elim h [ ]
decode_loop_total (suc fuel) input e h w = elim (Option-cases (get_varint32 input)) [
  | inl done ↦
      ((e, elim input [ [] ↦ ok | _ ∷ _ ↦ corruption invalid_tag ]), rw (done, decode_loop), w)
  | inr ((code, rest), tagged) ↦ elim (Option-cases (tag_of_code code)) [
    | inl unknown ↦ ((e, corruption unknown_tag), rw (tagged, unknown, decode_loop), w)
    | inr (t, known) ↦ elim (Step-cases (decode_field t rest e)) [
      | inl ((e', rest'), go) ↦
          let goes = subst (Goes (length rest)) go (decode_field-Goes e w t rest) in
          let shorter = get_varint32-shorter input code rest tagged in
          let (out, runs, good) =
            decode_loop_total fuel rest' e' (omega (arith, shorter, goes.1)) goes.0 in
          (out, rw (tagged, known, go, decode_loop) runs, good)
      | inr (msg, stop) ↦ ((e, corruption msg), rw (tagged, known, stop, decode_loop), w)
    ]
  ]
]

-- On any input DecodeFrom returns, with OK or with a corruption message. If the compaction pointers
-- of the object lie below kNumLevels, so do all levels of the edit that it leaves, and the deleted
-- files stand in the order of a std::set without duplicates.
pub decode_from_total :
    (old : VersionEdit) (src : Bytes)
    → All (λ p. p.0 < num_levels) old.compact_pointers
    → (out : VersionEdit × Status) × (decode_from old src ≡ some out) × IsWellFormed out.0
unfolding decode_from clear
decode_from_total old src h =
    decode_loop_total (length src + 1) src (clear old) (omega arith)
      (record { pointer_levels = h; deleted_levels = tt; deleted_set = tt; new_levels = tt })
