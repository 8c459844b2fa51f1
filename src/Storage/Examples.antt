-- ===== src/Storage/Examples.antt =====
-- The store on concrete batches.
use homebase.Prelude.{
  ℕ, ◌≡◌, true, [], ◌∷◌, none, some, All, arith, starts_with, nat_ord, list_ord, ◌↔◌,
}
use homebase.Prelude.Bytes.{Bytes}
use homebase.Storage.{WriteBatch, put, delete, get, scan_prefix, apply, in_range, prefix_successor}
use homebase.Storage.Store.{
  IsStore, IsStore-nil, apply-IsStore, last_op, get-apply, scan_prefix_iff,
}
use homebase.Storage.Successor.{in_range-prefix_successor}

abbrev batch : WriteBatch
batch = put (1 ∷ 255 ∷ []) (9 ∷ []) ∷ put (2 ∷ []) (8 ∷ []) ∷ delete (2 ∷ []) ∷ put (1 ∷ []) [] ∷ []

batch-IsStore : IsStore (apply [] batch)
batch-IsStore =
    apply-IsStore batch []
      ((omega arith, (omega arith, tt)), ((omega arith, tt), ((omega arith, tt), tt))) IsStore-nil

get-apply_example :
    get (apply [] batch) (2 ∷ [])
    ≡ elim (last_op (2 ∷ []) batch) [ some r ↦ r | none ↦ get [] (2 ∷ []) ]
get-apply_example = get-apply batch [] (2 ∷ [])

scan_prefix_iff_example :
    All
      (λ (e : Bytes × Bytes). starts_with e.0 (1 ∷ 255 ∷ []) ≡ true)
      (scan_prefix (apply [] batch) (1 ∷ 255 ∷ []))
    ↔ ((k v : Bytes)
        → get (apply [] batch) k ≡ some v
        → starts_with k (1 ∷ 255 ∷ []) ≡ true
        → starts_with k (1 ∷ 255 ∷ []) ≡ true)
scan_prefix_iff_example =
    scan_prefix_iff (apply [] batch) (1 ∷ 255 ∷ [])
      (λ (e : Bytes × Bytes). starts_with e.0 (1 ∷ 255 ∷ []) ≡ true) batch-IsStore
      (omega arith, (omega arith, tt))

in_range-prefix_successor_example :
    in_range (1 ∷ 255 ∷ []) (prefix_successor (1 ∷ 255 ∷ [])) (1 ∷ 255 ∷ 3 ∷ [])
    ≡ starts_with {K = ℕ} (1 ∷ 255 ∷ 3 ∷ []) (1 ∷ 255 ∷ [])
in_range-prefix_successor_example =
    in_range-prefix_successor (1 ∷ 255 ∷ []) (1 ∷ 255 ∷ 3 ∷ []) (omega arith, (omega arith, tt))
      (omega arith, (omega arith, (omega arith, tt)))
