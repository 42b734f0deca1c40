-- ===== src/Comparator.antt =====
-- The comparator interface of leveldb学习/project/leveldb/leveldb/include/comparator.h, and the
-- bytewise comparator of util/comparator.cpp over `Slice::compare` of include/slice.h.
-- The sign of an `int` result is an `Ordering`.
mod Order
pub mod Bytewise
mod Tests
pub use Order.{flip, Comparator, IsOrder, Lt, Le}
use study_history.Prelude.{
  ℕ, zero, suc, ◌+◌, List, [], ◌∷◌, ◌++◌, Bool, ◌&&◌, ltb, ◌==◌, not, if◌then◌else◌, length,
}
use study_history.Coding.{Bytes}
use Prim.Native.Nat.{compare, Ordering}

-- `memcmp(a, b, n)` on two strings of `n` bytes at least.
pub memcmp : ℕ → Bytes → Bytes → Ordering
memcmp (suc n) (x ∷ a) (y ∷ b) =
    let rest = memcmp n a b in elim (compare x y) [ Ordering.eq ↦ rest | r ↦ r ]
memcmp n a b = Ordering.eq

unfoldable pub slice_compare : Bytes → Bytes → Ordering
unfolding memcmp
slice_compare a b =
    let min_lin = if ltb (length a) (length b) then length a else length b in
    elim (memcmp min_lin a b) [ Ordering.eq ↦ compare (length a) (length b) | r ↦ r ]

-- The end of `start`, from the byte where the `while` loop of FindShortestSeparator stops: the
-- bytes that both share stay, and the loop ends where one of the two is used up.
unfoldable pub bytewise_separator : Bytes → Bytes → Bytes
bytewise_separator (x ∷ start) (y ∷ limit) =
    if x == y
    then x ∷ bytewise_separator start limit
    else (if ltb x 0xff && ltb (x + 1) y then (x + 1) ∷ [] else x ∷ start)
bytewise_separator start limit = start

-- The `for` loop of FindShortSuccessor; a key of bytes 0xff alone is left as it is.
unfoldable pub bytewise_successor : Bytes → Bytes
bytewise_successor [] = []
bytewise_successor (byte ∷ key) =
    if not (byte == 0xff) then (byte + 1) ∷ [] else byte ∷ bytewise_successor key

unfoldable pub bytewise_comparator : Comparator
bytewise_comparator = record {
  compare = slice_compare;
  find_shortest_separator = bytewise_separator;
  find_short_successor = bytewise_successor;
}
