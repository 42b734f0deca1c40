-- ===== src/Inputs/Closure.antt =====
-- The whole loop of GetOverlappingInputs of leveldb学习/manifest/version_set.c.
use study_history.Prelude.{
  ℕ, zero, suc, ◌+◌, ◌*◌, ◌<◌, ◌≡◌, inl, inr, refl, sym, ap, ◌∙◌, arith, List, [], ◌∷◌, ◌++◌, true,
  false, not, Option, some, All, filter, count, length, get_or, append-nil, append_assoc, ◌==◌,
  if◌then◌else◌,
}
use study_history.Coding.{Bytes}
use study_history.Comparator.{Comparator, IsOrder}
use study_history.DbFormat.{extract_user_key}
use study_history.VersionEdit.{FileMetaData}
use study_history.Inputs.{
  Scan, collected, widened, is_apart, starts_before, ends_after, scan_files, overlapping,
  get_overlapping_inputs, user_key_of,
}
use study_history.Inputs.Widening.{
  In, count-lt, count-length, All-at, Earlier, Later, IsSettled, Outcome, scan_files-Outcome,
}
use study_history.Inputs.Range.{
  Earlier-refl, Later-refl, Earlier-trans, Later-trans, Earlier-start, Later-limit,
  starts_before_trans, ends_after_trans, starts_before_self, ends_after_self, within, near-wider,
  Earlier-settled, Later-settled,
}

module _ (ucmp : Comparator) (o : IsOrder ucmp) where
  module _ (files : List FileMetaData) where
    -- The least range around the given one such that every file is apart from it or within ucmp o it.
    pub record Hull (b e : Option Bytes) : Type 0 where
      pub begin : Option Bytes
      pub end : Option Bytes
      pub settled : All (IsSettled ucmp begin end) files
      pub early : Earlier ucmp begin b
      pub late : Later ucmp end e
      pub least :
          (wide_b wide_e : Option Bytes)
          → All (IsSettled ucmp wide_b wide_e) files
          → Earlier ucmp wide_b b
          → Later ucmp wide_e e
          → Earlier ucmp wide_b begin × Later ucmp wide_e end

    -- The files that are not apart from the hull.
    abbrev pub Collects : (b e : Option Bytes) → Hull b e → Option (List FileMetaData) → Type 0
    Collects b e h result = result ≡ some (filter (λ f. not (is_apart ucmp h.begin h.end f)) files)

    abbrev room : Option Bytes → Option Bytes → ℕ
    room b e = count (starts_before ucmp b) files + count (ends_after ucmp e) files

    Hull-start :
        (b e : Option Bytes) (f : FileMetaData)
        → In f files
        → is_apart ucmp b e f ≡ false
        → starts_before ucmp b f ≡ true
        → Hull (some (extract_user_key f.smallest)) e
        → Hull b e
    Hull-start b e f inside near grows h = record {
      begin = h.begin;
      end = h.end;
      settled = h.settled;
      early =
          Earlier-trans ucmp o h.begin (some (extract_user_key f.smallest)) b h.early
            (Earlier-start ucmp o b f grows);
      late = h.late;
      least = λ wide_b wide_e all early late.
          h.least wide_b wide_e all
            (Earlier-settled ucmp o wide_b f
              (within ucmp o wide_b wide_e f (near-wider ucmp o b e wide_b wide_e f early late near)
                (All-at (IsSettled ucmp wide_b wide_e) f files inside all)).0)
            late;
    }

    Hull-limit :
        (b e : Option Bytes) (f : FileMetaData)
        → In f files
        → is_apart ucmp b e f ≡ false
        → ends_after ucmp e f ≡ true
        → Hull b (some (extract_user_key f.largest))
        → Hull b e
    Hull-limit b e f inside near grows h = record {
      begin = h.begin;
      end = h.end;
      settled = h.settled;
      early = h.early;
      late =
          Later-trans ucmp o h.end (some (extract_user_key f.largest)) e h.late
            (Later-limit ucmp o e f grows);
      least = λ wide_b wide_e all early late. h.least wide_b wide_e all early (
          Later-settled ucmp o wide_e f
            (within ucmp o wide_b wide_e f (near-wider ucmp o b e wide_b wide_e f early late near)
              (All-at (IsSettled ucmp wide_b wide_e) f files inside all)).1);
    }

    -- What is left to do after a pass.
    abbrev resume : ℕ → Scan → Option (List FileMetaData)
    resume fuel (collected inputs) = some inputs
    resume fuel (widened b e) = overlapping ucmp fuel true b e files

    resume_lem :
        (fuel : ℕ) (r : Scan)
        → (elim r [
          | collected inputs ↦ some inputs
          | widened b e ↦ overlapping ucmp fuel true b e files
        ])
          ≡ resume fuel r
    resume_lem fuel (collected inputs) = refl
    resume_lem fuel (widened b e) = refl

    overlapping-resume :
        (fuel : ℕ) (b e : Option Bytes)
        → overlapping ucmp (suc fuel) true b e files
          ≡ resume fuel (scan_files ucmp true b e [] files)
    unfolding overlapping
    overlapping-resume fuel b e = resume_lem fuel (scan_files ucmp true b e [] files)

    resume-Collects :
        (fuel : ℕ) (b e : Option Bytes) (r : Scan)
        → ((b' e' : Option Bytes)
            → room b' e' < fuel
            → (h : Hull b' e') × Collects b' e' h (overlapping ucmp fuel true b' e' files))
        → room b e < suc fuel
        → Outcome ucmp b e [] files r
        → (h : Hull b e) × Collects b e h (resume fuel r)
    unfolding Hull-start Hull-limit
    resume-Collects fuel b e (collected found) ih enough (same, settled) = (
      record {
        begin = b;
        end = e;
        settled = settled;
        early = Earlier-refl ucmp o b;
        late = Later-refl ucmp o e;
        least = λ wide_b wide_e all early late. (early, late);
      },
      ap some same,
    )
    resume-Collects fuel b e (widened b' e') ih enough (f, inside, near, inl (start, same, grows)) =
        let fewer =
          count-lt (starts_before ucmp (some (extract_user_key f.smallest))) (starts_before ucmp b)
            f files inside (starts_before_self ucmp o f) grows
            (λ g. starts_before_trans ucmp o b f g grows) in
        let (h, result) =
          ih (some (extract_user_key f.smallest)) e (omega (arith, fewer, enough)) in
        (
          Hull-start b e f inside near grows h,
          ap (λ x. overlapping ucmp fuel true x e' files) start
              ∙ ap (λ x. overlapping ucmp fuel true (some (extract_user_key f.smallest)) x files)
                  same
              ∙ result,
        )
    resume-Collects fuel b e (widened b' e') ih enough (f, inside, near, inr (same, limit, grows)) =
        let fewer =
          count-lt (ends_after ucmp (some (extract_user_key f.largest))) (ends_after ucmp e) f files
            inside (ends_after_self ucmp o f) grows (λ g. ends_after_trans ucmp o e f g grows) in
        let (h, result) = ih b (some (extract_user_key f.largest)) (omega (arith, fewer, enough)) in
        (
          Hull-limit b e f inside near grows h,
          ap (λ x. overlapping ucmp fuel true x e' files) same
              ∙ ap (λ x. overlapping ucmp fuel true b x files) limit
              ∙ result,
        )

    overlapping-Collects :
        (fuel : ℕ) (b e : Option Bytes)
        → room b e < fuel
        → (h : Hull b e) × Collects b e h (overlapping ucmp fuel true b e files)
    overlapping-Collects zero b e enough = absurd (omega (arith, enough))
    overlapping-Collects (suc fuel) b e enough =
        let (h, result) =
          resume-Collects fuel b e (scan_files ucmp true b e [] files) (overlapping-Collects fuel)
            enough (scan_files-Outcome ucmp b e [] files) in
        (h, overlapping-resume fuel b e ∙ result)

  -- Over a user comparator that is a total order: on level 0 GetOverlappingInputs ends, and returns
  -- the files that touch the least range around the given one which no file of the level sticks
  -- out of, in their order.
  pub get_overlapping_inputs-Collects :
      (levels : List (List FileMetaData)) (begin end : Option Bytes)
      → (h : Hull (get_or levels 0 []) (user_key_of begin) (user_key_of end)) × Collects
          (get_or levels 0 [])
          (user_key_of begin)
          (user_key_of end)
          h
          (get_overlapping_inputs ucmp levels 0 begin end)
  unfolding get_overlapping_inputs
  get_overlapping_inputs-Collects levels begin end =
      let files = get_or levels 0 [] in
      let b = user_key_of begin in
      let e = user_key_of end in
      overlapping-Collects files (suc (2 * length files)) b e (
        omega (
          arith,
          count-length (starts_before ucmp b) files,
          count-length (ends_after ucmp e) files,
        ))

module _ (ucmp : Comparator) where
  scan_files-below :
      (b e : Option Bytes) (inputs files : List FileMetaData)
      → scan_files ucmp false b e inputs files
        ≡ collected (inputs ++ filter (λ f. not (is_apart ucmp b e f)) files)
  unfolding scan_files
  scan_files-below b e inputs [] = ap collected (sym (append-nil inputs))
  scan_files-below b e inputs (f ∷ files) =
      elim (is_apart ucmp b e f)
        as (λ a.
          (elim a [
            | true ↦ scan_files ucmp false b e inputs files
            | false ↦ scan_files ucmp false b e (inputs ++ f ∷ []) files
          ])
          ≡ collected (
              inputs
              ++ (if not a
                  then f ∷ filter (λ g. not (is_apart ucmp b e g)) files
                  else filter (λ g. not (is_apart ucmp b e g)) files))) [
                    | true ↦ scan_files-below b e inputs files
                    | false ↦
                        scan_files-below b e (inputs ++ f ∷ []) files
                        ∙ ap collected (
                            append_assoc inputs (f ∷ [])
                              (filter (λ g. not (is_apart ucmp b e g)) files))
                  ]

  overlapping-once :
      (fuel : ℕ) (b e : Option Bytes) (files : List FileMetaData)
      → overlapping ucmp (suc fuel) false b e files
        ≡ some (filter (λ f. not (is_apart ucmp b e f)) files)
  unfolding overlapping
  overlapping-once fuel b e files = rw (overlapping, scan_files-below b e [] files) refl

  -- Below level 0 the inputs are the files that touch the range, in one pass.
  pub get_overlapping_inputs-below :
      (levels : List (List FileMetaData)) (level : ℕ) (begin end : Option Bytes)
      → get_overlapping_inputs ucmp levels (suc level) begin end
        ≡ some (
            filter
              (λ f. not (is_apart ucmp (user_key_of begin) (user_key_of end) f))
              (get_or levels (suc level) []))
  unfolding get_overlapping_inputs
  get_overlapping_inputs-below levels level begin end =
      let files = get_or levels (suc level) [] in
      ap
        (λ z.
          overlapping ucmp (suc (2 * length files)) z (user_key_of begin) (user_key_of end) files)
        {x = suc level == 0} {y = false} (ground arith)
      ∙ overlapping-once (2 * length files) (user_key_of begin) (user_key_of end) files
