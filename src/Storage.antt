-- ===== src/Storage.antt =====
-- core/src/storage.rs: the ordered store, by its reference implementation `MemoryStore`, whose
-- futures are ready and never fail. A scan is the list of the entries that it yields.
pub mod Successor
pub mod Store
pub mod Examples
use homebase.Prelude.{
  ℕ, ◌+◌, ◌≡◌, Bool, true, false, List, [], ◌∷◌, ltb, not, ◌&&◌, if◌then◌else◌, Option, none, some,
  list_cmp, nat_ord, list_ord, Ordering, lt, eq, gt,
}
use homebase.Prelude.Bytes.{Bytes}
use homebase.Prelude.Map.{Map, map_get, map_insert, map_remove, map_range}
use mathlib.Core.List.{reverse}
use mathlib.Core.Option

pub data Op : Type 0 where
  put : Bytes → Bytes → Op
  delete : Bytes → Op

abbrev pub WriteBatch : Type 0
WriteBatch = List Op

-- The loop of `prefix_successor` over the bytes from the last to the first.
unfoldable pub successor_loop : Bytes → Option Bytes
successor_loop [] = none
successor_loop (last ∷ init) =
    if ltb last 0xff then some ((last + 1) ∷ init) else successor_loop init

unfoldable pub prefix_successor : Bytes → Option Bytes
unfolding successor_loop
prefix_successor p = Option.map reverse (successor_loop (reverse p))

abbrev pub MemoryStore : Type 0
MemoryStore = Map Bytes Bytes

abbrev pub store_new : MemoryStore
store_new = []

unfoldable pub get : MemoryStore → Bytes → Option Bytes
get store key = map_get key store

abbrev below : Bytes → Option Bytes → Bool
below key none = true
below key (some end) = elim (list_cmp key end) [ lt ↦ true | _ ↦ false ]

abbrev at_least : Bytes → Bytes → Bool
at_least key start = elim (list_cmp key start) [ lt ↦ false | _ ↦ true ]

-- `start <= key` and, unless `end` is unbounded, `key < end`.
abbrev pub in_range : Bytes → Option Bytes → Bytes → Bool
in_range start end key = at_least key start && below key end

-- `BTreeMap::range` panics on a start beyond its end. A caller of `scan` that can reach this tests
-- for it; a prefix never lies beyond its successor.
abbrev pub in_order : Bytes → Option Bytes → Bool
in_order start none = true
in_order start (some end) = at_least end start

unfoldable pub scan : MemoryStore → Bytes → Option Bytes → List (Bytes × Bytes)
scan store start end = map_range (in_range start end) store

unfoldable pub scan_prefix : MemoryStore → Bytes → List (Bytes × Bytes)
unfolding scan
scan_prefix store p = scan store p (prefix_successor p)

abbrev pub apply_op : MemoryStore → Op → MemoryStore
apply_op store (put key value) = map_insert key value store
apply_op store (delete key) = map_remove key store

unfoldable pub apply : MemoryStore → WriteBatch → MemoryStore
apply store [] = store
apply store (op ∷ ops) = apply (apply_op store op) ops
