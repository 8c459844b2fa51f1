-- ===== src/Storage/Store.antt =====
-- `MemoryStore` (core/src/storage.rs): point reads after a batch, and prefix scans.
use homebase.Prelude.{
  ◌≡◌, refl, true, false, ==_self, [], ◌∷◌, ◌++◌, if◌then◌else◌, Option, none, some, ◌==◌, nat_ord,
  list_ord, starts_with, All, arith, ◌∙◌, sym, ◌↔◌, eq_of_==, Bool-cases, inl, inr,
}
use homebase.Prelude.Bytes.{Bytes, IsByte}
use homebase.Prelude.Map.{
  map_get-nil, map_get-insert, map_get-remove, IsSorted, map_insert-IsSorted, map_remove-IsSorted,
  map_range-All, map_range-elim,
}
use homebase.Storage.{
  Op, put, delete, WriteBatch, MemoryStore, get, scan_prefix, apply, apply_op, prefix_successor,
  in_range,
}
use homebase.Storage.Successor.{in_range-prefix_successor}

abbrev pub KeyBytes : WriteBatch → Type 0
KeyBytes [] = Unit
KeyBytes (put key value ∷ ops) = All IsByte key × KeyBytes ops
KeyBytes (delete key ∷ ops) = KeyBytes ops

-- The entries are in key order, and the keys are bytes.
pub record IsStore (store : MemoryStore) : Type 0 where
  pub sorted : IsSorted store
  pub bytes : (k v : Bytes) → get store k ≡ some v → All IsByte k

-- The last operation of a batch on a key: what it leaves there.
unfoldable pub last_op : Bytes → WriteBatch → Option (Option Bytes)
last_op k [] = none
last_op k (put key value ∷ ops) = elim (last_op k ops) [
  | some r ↦ some r
  | none ↦ if k == key then some (some value) else none
]
last_op k (delete key ∷ ops) = elim (last_op k ops) [
  | some r ↦ some r
  | none ↦ if k == key then some none else none
]

-- After a batch each key reads as its last operation in the batch left it, and as before where
-- no operation names it.
pub get-apply :
    (ops : WriteBatch) (store : MemoryStore) (k : Bytes)
    → get (apply store ops) k ≡ elim (last_op k ops) [ some r ↦ r | none ↦ get store k ]
unfolding apply last_op get
get-apply [] store k = refl
get-apply (put key value ∷ ops) store k =
    ground
      (arith, get-apply ops (apply_op store (put key value)) k, map_get-insert k key value store)
get-apply (delete key ∷ ops) store k =
    ground (arith, get-apply ops (apply_op store (delete key)) k, map_get-remove k key store)

-- The end of a batch decides.
pub last_op-append :
    (k : Bytes) (ops last : WriteBatch) (r : Option Bytes)
    → last_op k last ≡ some r
    → last_op k (ops ++ last) ≡ some r
unfolding last_op
last_op-append k [] last r h = h
last_op-append k (put key value ∷ ops) last r h = rw (last_op-append k ops last r h) refl
last_op-append k (delete key ∷ ops) last r h = rw (last_op-append k ops last r h) refl

pub last_op-last : (k v : Bytes) → last_op k (put k v ∷ []) ≡ some (some v)
unfolding last_op
last_op-last k v = rw (==_self k) refl

last_op-skip : (j k w : Bytes) → (j == k) ≡ false → last_op j (put k w ∷ []) ≡ none
unfolding last_op
last_op-skip j k w h = rw h refl

pub last_op-first :
    (j k v w : Bytes) → (j == k) ≡ false → last_op j (put j v ∷ put k w ∷ []) ≡ some (some v)
unfolding last_op
last_op-first j k v w h = rw (last_op, last_op-skip j k w h, ==_self j) refl

apply_op-IsStore :
    (op : Op) (store : MemoryStore)
    → KeyBytes (op ∷ [])
    → IsStore store
    → IsStore (apply_op store op)
unfolding get
apply_op-IsStore (put key value) store h s = record {
  sorted = map_insert-IsSorted key value store s.sorted;
  bytes = λ k v e. elim (Bool-cases (k == key)) [
    | inl q ↦ rw (eq_of_== k key q) h.0
    | inr q ↦ s.bytes k v (rw q at (rw (map_get-insert k key value store) at e))
  ];
}
apply_op-IsStore (delete key) store h s = record {
  sorted = map_remove-IsSorted key store s.sorted;
  bytes = λ k v e. elim (Bool-cases (k == key)) [
    | inl q ↦ cc (rw q at (rw (map_get-remove k key store) at e))
    | inr q ↦ s.bytes k v (rw q at (rw (map_get-remove k key store) at e))
  ];
}

pub apply-IsStore :
    (ops : WriteBatch) (store : MemoryStore)
    → KeyBytes ops
    → IsStore store
    → IsStore (apply store ops)
unfolding apply
apply-IsStore [] store h s = s
apply-IsStore (put key value ∷ ops) store h s =
    apply-IsStore ops (apply_op store (put key value)) h.1
      (apply_op-IsStore (put key value) store (h.0, tt) s)
apply-IsStore (delete key ∷ ops) store h s =
    apply-IsStore ops (apply_op store (delete key)) h (apply_op-IsStore (delete key) store tt s)

module _ (store : MemoryStore) (p : Bytes) (s : IsStore store) (hp : All IsByte p) where
  in_range-stored :
      (k v : Bytes) → get store k ≡ some v → in_range p (prefix_successor p) k ≡ starts_with k p
  in_range-stored k v e = in_range-prefix_successor p k hp (s.bytes k v e)

  -- A prefix scan yields nothing but entries of the store whose keys start with the prefix.
  pub scan_prefix-All :
      (P : Bytes × Bytes → Type 0)
      → ((k v : Bytes) → get store k ≡ some v → starts_with k p ≡ true → P (k, v))
      → All P (scan_prefix store p)
  unfolding scan_prefix get
  scan_prefix-All P h =
      map_range-All P (in_range p (prefix_successor p)) store s.sorted
        (λ k v e q. h k v e (rw (in_range-stored k v e) at q))

  -- A prefix scan yields every entry of the store whose key starts with the prefix.
  pub scan_prefix-elim :
      (P : Bytes × Bytes → Type 0)
      → All P (scan_prefix store p)
      → (k v : Bytes) → get store k ≡ some v
      → starts_with k p ≡ true
      → P (k, v)
  unfolding scan_prefix get
  scan_prefix-elim P h k v e q =
      map_range-elim P (in_range p (prefix_successor p)) store h k v e (in_range-stored k v e ∙ q)

-- For a store in key order over byte keys and a prefix of bytes: what holds of all entries of a
-- prefix scan is what holds of every entry of the store whose key starts with the prefix. The scan
-- yields all of these and nothing else.
pub scan_prefix_iff :
    (store : MemoryStore) (p : Bytes) (P : Bytes × Bytes → Type 0)
    → IsStore store
    → All IsByte p
    → All P (scan_prefix store p)
      ↔ ((k v : Bytes) → get store k ≡ some v → starts_with k p ≡ true → P (k, v))
scan_prefix_iff store p P s hp = (scan_prefix-elim store p s hp P, scan_prefix-All store p s hp P)

pub get-nil_none : (k : Bytes) → get [] k ≡ none
unfolding get
get-nil_none k = map_get-nil k

pub get-nil : (k v : Bytes) → ¬ (get [] k ≡ some v)
get-nil k v e = cc (sym (get-nil_none k) ∙ e)

pub IsStore-nil : IsStore []
IsStore-nil = record { sorted = tt; bytes = λ k v e. absurd (get-nil k v e) }
