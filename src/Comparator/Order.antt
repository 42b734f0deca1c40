-- ===== src/Comparator/Order.antt =====
-- The interface: what `Comparator` declares, and the order that its documentation asks for.
use study_history.Prelude.{◌≡◌, ◌≢◌}
use study_history.Coding.{Bytes}
use Prim.Native.Nat.{Ordering}

-- The sign of the comparison the other way round.
abbrev pub flip : Ordering → Ordering
flip Ordering.lt = Ordering.gt
flip Ordering.eq = Ordering.eq
flip Ordering.gt = Ordering.lt

pub record Comparator : Type 0 where
  pub compare : Bytes → Bytes → Ordering
  pub find_shortest_separator : Bytes → Bytes → Bytes
  pub find_short_successor : Bytes → Bytes

abbrev pub Lt : Comparator → Bytes → Bytes → Type 0
Lt c a b = c.compare a b ≡ Ordering.lt

abbrev pub Le : Comparator → Bytes → Bytes → Type 0
Le c a b = c.compare a b ≢ Ordering.gt

-- A total order, up to keys that compare as equal.
pub record IsOrder (c : Comparator) : Type 0 where
  pub flips : (a b : Bytes) → c.compare b a ≡ flip (c.compare a b)
  pub lt_trans : (a b d : Bytes) → Lt c a b → Lt c b d → Lt c a d
  pub eq_left : (a b d : Bytes) → c.compare a b ≡ Ordering.eq → c.compare a d ≡ c.compare b d
