-- ===== src/Inputs/Range.antt =====
-- Ranges of user keys, from narrow to wide, and the files that touch them.
use study_history.Prelude.{◌≡◌, inl, inr, refl, arith, Bool, true, false, ◌||◌, Option, none, some}
use study_history.Coding.{Bytes}
use study_history.Comparator.{Comparator, IsOrder}
use study_history.DbFormat.{extract_user_key}
use study_history.VersionEdit.{FileMetaData}
use study_history.Inputs.{is_apart, ends_before, starts_after, starts_before, ends_after}
use study_history.Inputs.Widening.{Earlier, Later, IsSettled}

module _ (ucmp : Comparator) (o : IsOrder ucmp) where
  pub Earlier-refl : (b : Option Bytes) → Earlier ucmp b b
  Earlier-refl none = tt
  Earlier-refl (some x) = ground (arith, o.flips x x)

  pub Later-refl : (e : Option Bytes) → Later ucmp e e
  Later-refl none = tt
  Later-refl (some x) = ground (arith, o.flips x x)

  pub Earlier-trans :
      (a b c : Option Bytes) → Earlier ucmp a b → Earlier ucmp b c → Earlier ucmp a c
  Earlier-trans none b c h h' = tt
  Earlier-trans (some x) none c h h' = absurd h
  Earlier-trans (some x) (some y) none h h' = absurd h'
  Earlier-trans (some x) (some y) (some z) h h' = ground (
    arith,
    o.lt_trans x y z,
    o.eq_left x y z,
    o.eq_left y z x,
    o.flips x y,
    o.flips x z,
    o.flips y z,
  )

  pub Later-trans : (a b c : Option Bytes) → Later ucmp a b → Later ucmp b c → Later ucmp a c
  Later-trans none b c h h' = tt
  Later-trans (some x) none c h h' = absurd h
  Later-trans (some x) (some y) none h h' = absurd h'
  Later-trans (some x) (some y) (some z) h h' = ground (
    arith,
    o.lt_trans z y x,
    o.eq_left x y z,
    o.eq_left y z x,
    o.flips x y,
    o.flips x z,
    o.flips y z,
  )

  pub Earlier-start :
      (b : Option Bytes) (f : FileMetaData)
      → starts_before ucmp b f ≡ true
      → Earlier ucmp (some (extract_user_key f.smallest)) b
  Earlier-start none f h = cc (h)
  Earlier-start (some x) f h = ground (arith)

  pub Later-limit :
      (e : Option Bytes) (f : FileMetaData)
      → ends_after ucmp e f ≡ true
      → Later ucmp (some (extract_user_key f.largest)) e
  Later-limit none f h = cc (h)
  Later-limit (some x) f h = ground (arith)

  pub starts_before_trans :
      (b : Option Bytes) (f g : FileMetaData)
      → starts_before ucmp b f ≡ true
      → starts_before ucmp (some (extract_user_key f.smallest)) g ≡ true
      → starts_before ucmp b g ≡ true
  starts_before_trans none f g h h' = cc (h)
  starts_before_trans (some x) f g h h' =
      ground (arith, o.lt_trans (extract_user_key g.smallest) (extract_user_key f.smallest) x)

  pub ends_after_trans :
      (e : Option Bytes) (f g : FileMetaData)
      → ends_after ucmp e f ≡ true
      → ends_after ucmp (some (extract_user_key f.largest)) g ≡ true
      → ends_after ucmp e g ≡ true
  ends_after_trans none f g h h' = cc (h)
  ends_after_trans (some x) f g h h' =
      let s = extract_user_key f.largest in
      let t = extract_user_key g.largest in
      ground (arith, o.lt_trans x s t, o.flips x s, o.flips s t, o.flips x t)

  pub starts_before_self :
      (f : FileMetaData) → starts_before ucmp (some (extract_user_key f.smallest)) f ≡ false
  starts_before_self f =
      ground (arith, o.flips (extract_user_key f.smallest) (extract_user_key f.smallest))

  pub ends_after_self :
      (f : FileMetaData) → ends_after ucmp (some (extract_user_key f.largest)) f ≡ false
  ends_after_self f =
      ground (arith, o.flips (extract_user_key f.largest) (extract_user_key f.largest))

  -- A file that touches a range touches a wider one.
  pub ends_before-wider :
      (b wide : Option Bytes) (f : FileMetaData)
      → Earlier ucmp wide b
      → ends_before ucmp b f ≡ false
      → ends_before ucmp wide f ≡ false
  ends_before-wider b none f h near = refl
  ends_before-wider none (some y) f h near = absurd h
  ends_before-wider (some x) (some y) f h near =
      let t = extract_user_key f.largest in
      ground (arith, o.lt_trans t y x, o.eq_left y x t, o.flips t y, o.flips t x)

  pub starts_after-wider :
      (e wide : Option Bytes) (f : FileMetaData)
      → Later ucmp wide e
      → starts_after ucmp e f ≡ false
      → starts_after ucmp wide f ≡ false
  starts_after-wider e none f h near = refl
  starts_after-wider none (some y) f h near = absurd h
  starts_after-wider (some x) (some y) f h near =
      let s = extract_user_key f.smallest in
      ground (arith, o.lt_trans x y s, o.eq_left y x s, o.flips s y, o.flips s x, o.flips x y)

  pub or_false→both : (a b : Bool) → a || b ≡ false → (a ≡ false) × (b ≡ false)
  or_false→both true b h = absurd (cc (h))
  or_false→both false b h = (refl, h)

  pub within :
      (b e : Option Bytes) (f : FileMetaData)
      → is_apart ucmp b e f ≡ false
      → IsSettled ucmp b e f
      → (starts_before ucmp b f ≡ false) × (ends_after ucmp e f ≡ false)
  within b e f near (inl apart) = absurd (cc (near, apart))
  within b e f near (inr inside) = inside

  pub near-wider :
      (b e wide_b wide_e : Option Bytes) (f : FileMetaData)
      → Earlier ucmp wide_b b
      → Later ucmp wide_e e
      → is_apart ucmp b e f ≡ false
      → is_apart ucmp wide_b wide_e f ≡ false
  near-wider b e wide_b wide_e f early late near =
      let (x, y) = or_false→both (ends_before ucmp b f) (starts_after ucmp e f) near in
      rw (ends_before-wider b wide_b f early x, starts_after-wider e wide_e f late y) refl

  pub Earlier-settled :
      (b : Option Bytes) (f : FileMetaData)
      → starts_before ucmp b f ≡ false
      → Earlier ucmp b (some (extract_user_key f.smallest))
  Earlier-settled none f h = tt
  Earlier-settled (some y) f h = ground (arith, o.flips (extract_user_key f.smallest) y)

  pub Later-settled :
      (e : Option Bytes) (f : FileMetaData)
      → ends_after ucmp e f ≡ false
      → Later ucmp e (some (extract_user_key f.largest))
  Later-settled none f h = tt
  Later-settled (some y) f h = ground (arith, o.flips (extract_user_key f.largest) y)
