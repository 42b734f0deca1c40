-- ===== src/VersionEdit/Fields.antt =====
-- One round of DecodeFrom's loop on what EncodeTo writes for each member.
use study_history.Prelude.{
  ℕ, zero, suc, ◌^◌, ◌≤◌, ◌<◌, ◌≡◌, refl, sym, ◌∙◌, arith, List, [], ◌∷◌, ◌++◌, Bool, true, false,
  some, length, length-append, append_assoc, append-nil,
}
use study_history.Coding.{
  Bytes, IsU64, encode_varint32, encode_varint64, put_varint32, put_varint64, get_varint32,
  get_varint32_ptr, get_varint32_ptr_fallback, get_varint64,
}
use study_history.Coding.Varint.{get_varint32-put, get_varint64-put}
use study_history.Coding.Slices.{
  prefixed, put_length_prefixed_slice_lem, get_length_prefixed_slice-prefixed,
}
use study_history.VersionEdit.{
  FileMetaData, VersionEdit, num_levels, Tag, comparator_tag, log_number_tag, next_file_number_tag,
  last_sequence_tag, compact_pointer_tag, deleted_file_tag, new_file_tag, prev_log_number_tag,
  tag_code, tag_of_code, Status, ok, next, set_comparator_name, set_log_number, set_prev_log_number,
  set_next_file, set_last_sequence, set_compact_pointer, file_meta, add_file, delete_file,
  encode_number, encode_pointer, encode_deleted, encode_new, get_level, decode_new, decode_field,
  decode_loop,
}
use mathlib.Core.List.{foldl}

tag_code_lt : (t : Tag) → tag_code t < 128
tag_code_lt comparator_tag = omega arith
tag_code_lt log_number_tag = omega arith
tag_code_lt next_file_number_tag = omega arith
tag_code_lt last_sequence_tag = omega arith
tag_code_lt compact_pointer_tag = omega arith
tag_code_lt deleted_file_tag = omega arith
tag_code_lt new_file_tag = omega arith
tag_code_lt prev_log_number_tag = omega arith

tag_of-tag_code : (t : Tag) → tag_of_code (tag_code t) ≡ some t
unfolding tag_of_code
tag_of-tag_code comparator_tag = refl
tag_of-tag_code log_number_tag = refl
tag_of-tag_code next_file_number_tag = refl
tag_of-tag_code last_sequence_tag = refl
tag_of-tag_code compact_pointer_tag = refl
tag_of-tag_code deleted_file_tag = refl
tag_of-tag_code new_file_tag = refl
tag_of-tag_code prev_log_number_tag = refl

-- A field: its tag and its body.
abbrev pub field : Tag → Bytes → Bytes
field t body = encode_varint32 (tag_code t) ++ body

-- With any fuel above its length, the loop turns the input and the edit into the result.
abbrev pub Decodes : Bytes → VersionEdit → VersionEdit × Status → Type 0
Decodes input e out = (fuel : ℕ) → length input < fuel → decode_loop fuel input e ≡ some out

pub Decodes-end : (e : VersionEdit) → Decodes [] e (e, ok)
unfolding decode_loop get_varint32 get_varint32_ptr get_varint32_ptr_fallback
Decodes-end e zero h = elim h [ ]
Decodes-end e (suc fuel) h = refl

pub Decodes-field :
    (t : Tag) (body rest : Bytes) (e e' : VersionEdit) (out : VersionEdit × Status)
    → decode_field t (body ++ rest) e ≡ next e' rest
    → Decodes rest e' out
    → Decodes (field t body ++ rest) e out
unfolding decode_loop
Decodes-field t body rest e e' out round later zero h = elim h [ ]
Decodes-field t body rest e e' out round later (suc fuel) h =
    let code = encode_varint32 (tag_code t) in
    rw (append_assoc code body rest) (
      ground (
        arith,
        get_varint32-put (tag_code t) (body ++ rest),
        tag_code_lt t,
        tag_of-tag_code t,
        length-append (code ++ body) rest,
        length-append code body,
        encode_varint32-length (tag_code t),
        later fuel,
      ))
  where
    encode_varint32-length : (v : ℕ) → 1 ≤ length (encode_varint32 v)
    encode_varint32-length v = unfold encode_varint32 in ground arith

-- The bodies, read back.
get_varint64_at :
    (n : ℕ) (r : Bytes) → IsU64 n → get_varint64 (encode_varint64 n ++ r) ≡ some (n, r)
get_varint64_at n r h = get_varint64-put n r h

get_level-encode :
    (l : ℕ) (r : Bytes) → l < num_levels → get_level (encode_varint32 l ++ r) ≡ some (l, r)
unfolding get_level
get_level-encode l r h = ground (arith, get_varint32-put l r)

-- A part that is written only if the flag is set.
abbrev pub part : Bool → Bytes → Bytes
part true bytes = bytes
part false bytes = []

abbrev pub pointer_field : ℕ × Bytes → Bytes
pointer_field p = field compact_pointer_tag (encode_varint32 p.0 ++ prefixed p.1)

abbrev pub deleted_field : ℕ × ℕ → Bytes
deleted_field p = field deleted_file_tag (encode_varint32 p.0 ++ encode_varint64 p.1)

abbrev pub new_field : ℕ × FileMetaData → Bytes
new_field p = field new_file_tag (
    encode_varint32 p.0
    ++ (encode_varint64 p.1.number
        ++ (encode_varint64 p.1.file_size ++ (prefixed p.1.smallest ++ prefixed p.1.largest))))

abbrev pub fields {ℓ} : {A : Type ℓ} → (A → Bytes) → List A → Bytes
fields f [] = []
fields f (x ∷ xs) = f x ++ fields f xs

pub encode_number_lem :
    (has : Bool) (t : Tag) (num : ℕ) (dst : Bytes)
    → encode_number has t num dst ≡ dst ++ part has (field t (encode_varint64 num))
unfolding encode_number put_varint64 put_varint32
encode_number_lem true t num dst = append_assoc dst _ _
encode_number_lem false t num dst = sym (append-nil dst)

pub encode_pointer_lem :
    (dst : Bytes) (p : ℕ × Bytes) → encode_pointer dst p ≡ dst ++ pointer_field p
unfolding encode_pointer put_varint32
encode_pointer_lem dst (level, key) = simp (put_length_prefixed_slice_lem, append_assoc)

pub encode_deleted_lem : (dst : Bytes) (p : ℕ × ℕ) → encode_deleted dst p ≡ dst ++ deleted_field p
unfolding encode_deleted put_varint32 put_varint64
encode_deleted_lem dst (level, number) = simp append_assoc

pub encode_new_lem : (dst : Bytes) (p : ℕ × FileMetaData) → encode_new dst p ≡ dst ++ new_field p
unfolding encode_new put_varint32 put_varint64
encode_new_lem dst (level, f) = simp (put_length_prefixed_slice_lem, append_assoc)

pub foldl-fields {ℓ} :
    {A : Type ℓ} (enc : Bytes → A → Bytes) (f : A → Bytes)
    → ((dst : Bytes) (x : A) → enc dst x ≡ dst ++ f x)
    → (dst : Bytes) (xs : List A) → foldl enc dst xs ≡ dst ++ fields f xs
foldl-fields enc f e dst [] = sym (append-nil dst)
foldl-fields enc f e dst (x ∷ xs) =
    foldl-fields enc f e (enc dst x) xs ∙ rw (e dst x) (append_assoc dst (f x) (fields f xs))

reassoc :
    (a b c d e rest : Bytes)
    → (a ++ (b ++ (c ++ (d ++ e)))) ++ rest ≡ a ++ (b ++ (c ++ (d ++ (e ++ rest))))
reassoc a b c d e rest = simp append_assoc

module _ (e : VersionEdit) (rest : Bytes) where
  pub round-comparator :
      (s : Bytes)
      → length s < 2 ^ 32
      → decode_field comparator_tag (prefixed s ++ rest) e ≡ next (set_comparator_name e s) rest
  unfolding decode_field
  round-comparator s h = rw (get_length_prefixed_slice-prefixed s rest h)

  pub round-log_number :
      (n : ℕ)
      → IsU64 n
      → decode_field log_number_tag (encode_varint64 n ++ rest) e ≡ next (set_log_number e n) rest
  unfolding decode_field
  round-log_number n h = rw (get_varint64-put n rest h)

  pub round-prev_log_number :
      (n : ℕ)
      → IsU64 n
      → decode_field prev_log_number_tag (encode_varint64 n ++ rest) e
        ≡ next (set_prev_log_number e n) rest
  unfolding decode_field
  round-prev_log_number n h = rw (get_varint64-put n rest h)

  pub round-next_file_number :
      (n : ℕ)
      → IsU64 n
      → decode_field next_file_number_tag (encode_varint64 n ++ rest) e
        ≡ next (set_next_file e n) rest
  unfolding decode_field
  round-next_file_number n h = rw (get_varint64-put n rest h)

  pub round-last_sequence :
      (n : ℕ)
      → IsU64 n
      → decode_field last_sequence_tag (encode_varint64 n ++ rest) e
        ≡ next (set_last_sequence e n) rest
  unfolding decode_field
  round-last_sequence n h = rw (get_varint64-put n rest h)

  pub round-pointer :
      (level : ℕ) (key : Bytes)
      → level < num_levels
      → length key < 2 ^ 32
      → decode_field compact_pointer_tag ((encode_varint32 level ++ prefixed key) ++ rest) e
        ≡ next (set_compact_pointer e level key) rest
  unfolding decode_field
  round-pointer level key h k = rw (
    append_assoc (encode_varint32 level) (prefixed key) rest,
    get_level-encode level (prefixed key ++ rest) h,
    get_length_prefixed_slice-prefixed key rest k,
  )

  pub round-deleted :
      (level number : ℕ)
      → level < num_levels
      → IsU64 number
      → decode_field deleted_file_tag ((encode_varint32 level ++ encode_varint64 number) ++ rest) e
        ≡ next (delete_file e level number) rest
  unfolding decode_field
  round-deleted level number h k = rw (
    append_assoc (encode_varint32 level) (encode_varint64 number) rest,
    get_level-encode level (encode_varint64 number ++ rest) h,
    get_varint64-put number rest k,
  )

  pub round-new :
      (level number file_size : ℕ) (smallest largest : Bytes)
      → level < num_levels
      → IsU64 number
      → IsU64 file_size
      → length smallest < 2 ^ 32
      → length largest < 2 ^ 32
      → decode_field new_file_tag
          ((encode_varint32 level
              ++ (encode_varint64 number
                  ++ (encode_varint64 file_size ++ (prefixed smallest ++ prefixed largest))))
            ++ rest)
          e
        ≡ next (add_file e level (file_meta number file_size smallest largest)) rest
  unfolding decode_field decode_new
  round-new level number file_size smallest largest hl hn hf hs hg =
      let r5 = prefixed largest ++ rest in
      let r4 = prefixed smallest ++ r5 in
      let r3 = encode_varint64 file_size ++ r4 in
      let r2 = encode_varint64 number ++ r3 in
      rw
        (reassoc (encode_varint32 level) (encode_varint64 number) (encode_varint64 file_size)
          (prefixed smallest) (prefixed largest) rest)
        (rw (
          get_level-encode level r2 hl,
          get_varint64-put number r3 hn,
          get_varint64-put file_size r4 hf,
          get_length_prefixed_slice-prefixed smallest r5 hs,
          get_length_prefixed_slice-prefixed largest rest hg,
        ))
