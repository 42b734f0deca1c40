-- ===== src/Version.antt =====
-- leveldb学习/manifest/version_set.c: the lookup in the files of a version, and the seeks it charges.
-- A version is the list of its files for each level. The table cache is a parameter: its Get calls
-- back with at most one entry. `std::sort` with NewestFirst is an insertion sort by falling numbers.
-- A file object is known by its number; `allowed_seeks` is only compared with 0, so that it stays at
-- 0 where the source goes on below.
pub mod Lookup
mod Tests
use study_history.Prelude.{
  ℕ, zero, suc, ◌+◌, ◌-◌, List, [], ◌∷◌, Bool, true, false, not, ◌&&◌, Option, none, some, ltb, leb,
  ◌==◌, if◌then◌else◌, map, get_elem?, filter, sort,
}
use study_history.Coding.{Bytes}
use study_history.Comparator.{Comparator}
use study_history.DbFormat.{extract_user_key, parse_internal_key}
use study_history.VersionEdit.{FileMetaData}
use study_history.FileSet.{
  is_lt, is_gt, find_file, SaverState, not_found, found, deleted, corrupt, Saver, save_value,
}

-- A file with the level it was searched in, as `seek_file` and `seek_file_level` are.
abbrev pub LeveledFile : Type 0
LeveledFile = FileMetaData × ℕ

abbrev pub newest_first : FileMetaData → FileMetaData → Bool
newest_first a b = ltb b.number a.number

module _ (ucmp : Comparator) where
  abbrev pub covers : Bytes → FileMetaData → Bool
  covers user_key f =
      not (is_lt (ucmp.compare user_key (extract_user_key f.smallest)))
      && not (is_gt (ucmp.compare user_key (extract_user_key f.largest)))

  abbrev pub is_past : Bytes → FileMetaData → Bool
  is_past user_key f = is_lt (ucmp.compare user_key (extract_user_key f.smallest))

  -- Get's list of files to search in a level.
  unfoldable pub files_to_search : Bytes → Bytes → ℕ → List FileMetaData → List FileMetaData
  files_to_search ikey user_key zero files = sort newest_first (filter (covers user_key) files)
  files_to_search ikey user_key (suc level) files =
      elim (get_elem? files (find_file ucmp files ikey)) [
        | none ↦ []
        | some f ↦ if is_past user_key f then [] else f ∷ []
      ]

  -- ForEachOverlapping, with the callback's argument as a state; the second result of a callback
  -- says whether to go on.
  module _ {S : Type 0} (func : S → ℕ → FileMetaData → S × Bool) where
    unfoldable pub visit_files : ℕ → List FileMetaData → S → S × Bool
    visit_files level [] s = (s, true)
    visit_files level (f ∷ files) s =
        let (s', more) = func s level f in
        elim more [ true ↦ visit_files level files s' | false ↦ (s', false) ]

    unfoldable pub visit_levels : Bytes → Bytes → ℕ → List (List FileMetaData) → S → S
    visit_levels user_key internal_key level [] s = s
    visit_levels user_key internal_key level (files ∷ levels) s =
        elim (get_elem? files (find_file ucmp files internal_key)) [
          | none ↦ visit_levels user_key internal_key (suc level) levels s
          | some f ↦ elim (is_past user_key f) [
            | true ↦ visit_levels user_key internal_key (suc level) levels s
            | false ↦
                let (s', more) = func s level f in
                elim more [
                  | true ↦ visit_levels user_key internal_key (suc level) levels s'
                  | false ↦ s'
                ]
          ]
        ]

    unfoldable pub for_each_overlapping : Bytes → Bytes → List (List FileMetaData) → S → S
    unfolding visit_files visit_levels
    for_each_overlapping user_key internal_key [] s = s
    for_each_overlapping user_key internal_key (files ∷ levels) s =
        let (s', more) = visit_files 0 (sort newest_first (filter (covers user_key) files)) s in
        elim more [ true ↦ visit_levels user_key internal_key 1 levels s' | false ↦ s' ]

-- What the table cache answers: an error, or the entry that its callback gets, if it is called.
pub data TableRead (E : Type 0) : Type 0 where
  table_error : E → TableRead E
  no_entry : TableRead E
  table_entry : Bytes → Bytes → TableRead E

-- The status of a lookup, and its value.
pub data Answer (E : Type 0) : Type 0 where
  read_error : E → Answer E
  key_found : Bytes → Answer E
  key_missing key_corrupted : Answer E

-- The files that a lookup has read: the one to charge, and the last.
pub record Reading : Type 0 where
  pub seek_file : Option LeveledFile
  pub last_file_read : Option LeveledFile

abbrev pub charge : Option LeveledFile → Option LeveledFile → Option LeveledFile
charge none last_file_read = last_file_read
charge (some seek_file) last_file_read = some seek_file

-- The `switch` on the state of the saver: `none` goes on to other files.
abbrev pub answer_of : {E : Type 0} → Bytes → SaverState → Option (Answer E)
answer_of value not_found = none
answer_of value found = some (key_found value)
answer_of value deleted = some key_missing
answer_of value corrupt = some key_corrupted

module _ (ucmp : Comparator) {E : Type 0} (table_get : ℕ → ℕ → Bytes → TableRead E) where
  -- The status and the saver after one table was read.
  unfoldable pub read_table : Bytes → Bytes → FileMetaData → Option (Answer E)
  unfolding save_value
  read_table ikey user_key f =
      let saver : Saver = record { state = not_found; user_key = user_key; value = [] } in
      elim (table_get f.number f.file_size ikey) [
        | table_error e ↦ some (read_error e)
        | no_entry ↦ none
        | table_entry key value ↦
            let s = save_value ucmp saver key value in answer_of s.value s.state
      ]

  -- The body of the loop over the files of a level.
  unfoldable pub get_file : Bytes → Bytes → Reading → ℕ → FileMetaData → Reading × Option (Answer E)
  unfolding read_table
  get_file ikey user_key r level f = (
    record { seek_file = charge r.seek_file r.last_file_read; last_file_read = some (f, level) },
    read_table ikey user_key f,
  )

  unfoldable pub get_files :
      Bytes → Bytes → ℕ → List FileMetaData → Reading → Reading × Option (Answer E)
  unfolding get_file
  get_files ikey user_key level [] r = (r, none)
  get_files ikey user_key level (f ∷ files) r =
      let (r', answered) = get_file ikey user_key r level f in
      elim answered [
        | none ↦ get_files ikey user_key level files r'
        | some answer ↦ (r', some answer)
      ]

  unfoldable pub get_levels :
      Bytes → Bytes → ℕ → List (List FileMetaData) → Reading → Reading × Answer E
  unfolding get_files files_to_search
  get_levels ikey user_key level [] r = (r, key_missing)
  get_levels ikey user_key level (files ∷ levels) r =
      let (r', answered) =
        get_files ikey user_key level (files_to_search ucmp ikey user_key level files) r in
      elim answered [
        | none ↦ get_levels ikey user_key (suc level) levels r'
        | some answer ↦ (r', answer)
      ]

  -- Version::Get
  unfoldable pub get : Bytes → Bytes → List (List FileMetaData) → Reading × Answer E
  unfolding get_levels
  get ikey user_key levels =
      get_levels ikey user_key 0 levels (record { seek_file = none; last_file_read = none })

-- The files, and the one that is to be compacted because of its seeks.
pub record Version : Type 0 where
  pub files : List (List FileMetaData)
  pub file_to_compact : Option LeveledFile

abbrev pub spend_seek : FileMetaData → FileMetaData
spend_seek f = record f { allowed_seeks = f.allowed_seeks - 1 }

abbrev pub spend_in : ℕ → List FileMetaData → List FileMetaData
spend_in number [] = []
spend_in number (f ∷ files) =
    let rest = spend_in number files in if f.number == number then spend_seek f ∷ rest else f ∷ rest

-- The file object of a number, as it now is.
abbrev pub in_files : ℕ → List FileMetaData → Option FileMetaData
in_files number [] = none
in_files number (f ∷ files) =
    let rest = in_files number files in if f.number == number then some f else rest

abbrev pub in_levels : ℕ → List (List FileMetaData) → Option FileMetaData
in_levels number [] = none
in_levels number (files ∷ levels) = elim (in_files number files) [
  | none ↦ in_levels number levels
  | some f ↦ some f
]

unfoldable pub update_stats : Version → Option LeveledFile → Version × Bool
update_stats v none = (v, false)
update_stats v (some (f, level)) =
    let v' = record v { files = map (spend_in f.number) v.files } in
    elim (in_levels f.number v'.files) [
      | none ↦ (v', false)
      | some f' ↦ elim v.file_to_compact [
        | some other ↦ (v', false)
        | none ↦
            if f'.allowed_seeks == 0
            then (record v' { file_to_compact = some (f', level) }, true)
            else (v', false)
      ]
    ]

-- The state of RecordReadSample, and its callback.
pub record Sample : Type 0 where
  pub seek_file : Option LeveledFile
  pub matches : ℕ

unfoldable pub match_file : Sample → ℕ → FileMetaData → Sample × Bool
match_file s level f =
    let matches = s.matches + 1 in
    (
      record {
        seek_file = if matches == 1 then some (f, level) else s.seek_file;
        matches = matches;
      },
      ltb matches 2,
    )

unfoldable pub record_read_sample : Comparator → Version → Bytes → Version × Bool
unfolding match_file for_each_overlapping update_stats
record_read_sample ucmp v internal_key = elim (parse_internal_key internal_key) [
  | none ↦ (v, false)
  | some ikey ↦
      let s =
        for_each_overlapping ucmp match_file ikey.user_key internal_key v.files
          (record { seek_file = none; matches = 0 }) in
      if leb 2 s.matches then update_stats v s.seek_file else (v, false)
]
