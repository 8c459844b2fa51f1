-- ===== src/Schema/Keys.antt =====
-- The key space of the lease table: keys of different records are different, and the scans of
-- the by-prefix index match the records that they are meant to match.
use homebase.Prelude.{
  ℕ, ◌≤◌, ◌<◌, ◌^◌, ◌≡◌, refl, sym, ap, ◌∙◌, true, false, ◌&&◌, List, [], ◌∷◌, ◌++◌, length, ◌==◌,
  nat_ord, list_ord, starts_with, All, All-append, starts_with-snoc, arith, ==_iff, ==_self, inl,
  inr, Bool-cases, eq_of_==,
}
use homebase.Prelude.Bytes.{Bytes, IsByte, to_be_bytes-injective, to_be_bytes-IsByte}
use homebase.Key.{Key, KeyComponent, encode_components}
use homebase.Key.Prefix.{starts_with-encode_components}
use homebase.Key.Order.{encode_components-injective}
use homebase.Key.ByteKeys.{encode_components-IsByte}
use homebase.Lease.{LeaseId}
use homebase.Schema.{
  SpaceId, lease_by_id_key, lease_by_id_scan, lease_by_prefix_key, lease_by_prefix_scan,
  counters_key, u64_component, depth_component, counters_name,
}

-- The bytes that the whole by-prefix index starts with.
unfoldable pub lease_by_prefix_scan_all : SpaceId → Bytes
lease_by_prefix_scan_all space = encode_components (space ∷ (2 ∷ []) ∷ [])

module _ (space : SpaceId) where
  same_space :
      (a b : List KeyComponent)
      → starts_with (encode_components (space ∷ a)) (encode_components (space ∷ b))
        ≡ starts_with a b
  same_space a b =
      starts_with-encode_components (space ∷ a) (space ∷ b) ∙ ground (arith, ==_self space)

  pub id_key-id_scan :
      (id : LeaseId) → starts_with (lease_by_id_key space id) (lease_by_id_scan space) ≡ true
  unfolding lease_by_id_key lease_by_id_scan
  id_key-id_scan id = same_space ((3 ∷ []) ∷ u64_component id ∷ []) ((3 ∷ []) ∷ [])

  pub prefix_key-id_scan :
      (p : Key) (id : LeaseId)
      → starts_with (lease_by_prefix_key space p id) (lease_by_id_scan space) ≡ false
  unfolding lease_by_prefix_key lease_by_id_scan
  prefix_key-id_scan p id =
      same_space ((2 ∷ []) ∷ depth_component (length p) ∷ (p ++ u64_component id ∷ []))
        ((3 ∷ []) ∷ [])

  pub id_key-prefix_scan :
      (id : LeaseId)
      → starts_with (lease_by_id_key space id) (lease_by_prefix_scan_all space) ≡ false
  unfolding lease_by_id_key lease_by_prefix_scan_all
  id_key-prefix_scan id = same_space ((3 ∷ []) ∷ u64_component id ∷ []) ((2 ∷ []) ∷ [])

  pub prefix_key-prefix_scan :
      (p : Key) (id : LeaseId)
      → starts_with (lease_by_prefix_key space p id) (lease_by_prefix_scan_all space) ≡ true
  unfolding lease_by_prefix_key lease_by_prefix_scan_all
  prefix_key-prefix_scan p id =
      same_space ((2 ∷ []) ∷ depth_component (length p) ∷ (p ++ u64_component id ∷ []))
        ((2 ∷ []) ∷ [])

  pub counters_key-id_scan : starts_with (counters_key space) (lease_by_id_scan space) ≡ false
  unfolding counters_key lease_by_id_scan
  counters_key-id_scan = same_space _ ((3 ∷ []) ∷ [])

  pub counters_key-prefix_scan :
      starts_with (counters_key space) (lease_by_prefix_scan_all space) ≡ false
  unfolding counters_key lease_by_prefix_scan_all
  counters_key-prefix_scan = same_space _ ((2 ∷ []) ∷ [])

  pub prefix_scan-prefix_scan :
      (depth : ℕ) (head : List KeyComponent)
      → starts_with (lease_by_prefix_scan space depth head) (lease_by_prefix_scan_all space) ≡ true
  unfolding lease_by_prefix_scan lease_by_prefix_scan_all
  prefix_scan-prefix_scan depth head =
      same_space ((2 ∷ []) ∷ depth_component depth ∷ head) ((2 ∷ []) ∷ [])

  -- A scan at a depth matches the records of that depth whose prefix starts with its head.
  pub prefix_key-depth_scan :
      (p : Key) (id : LeaseId) (depth : ℕ) (head : List KeyComponent)
      → length p ≤ 256
      → depth ≤ 256
      → length head ≤ depth
      → starts_with (lease_by_prefix_key space p id) (lease_by_prefix_scan space depth head)
        ≡ ((length p == depth) && starts_with p head)
  unfolding lease_by_prefix_key lease_by_prefix_scan
  prefix_key-depth_scan p id depth head hp hd hh =
      same_space ((2 ∷ []) ∷ depth_component (length p) ∷ (p ++ u64_component id ∷ []))
        ((2 ∷ []) ∷ depth_component depth ∷ head)
      ∙ elim (Bool-cases (depth_component (length p) == depth_component depth)) [
        | inl e ↦
            let q : length p ≡ depth =
              to_be_bytes-injective 2 (length p) depth (omega arith) (omega arith)
                (eq_of_== (depth_component (length p)) (depth_component depth) e) in
            rw e (ground (arith, q, starts_with-snoc p head (u64_component id)))
        | inr e ↦ elim (Bool-cases (length p == depth)) [
          | inl q ↦
              let same =
                (==_iff (depth_component (length p)) (depth_component depth)).1
                  (ap depth_component (eq_of_== (length p) depth q)) in
              cc (sym e ∙ same)
          | inr q ↦ rw (e, q) refl
        ]
      ]

  pub id_key-injective :
      (i j : LeaseId)
      → i < 256 ^ 8
      → j < 256 ^ 8
      → lease_by_id_key space i ≡ lease_by_id_key space j
      → i ≡ j
  unfolding lease_by_id_key
  id_key-injective i j hi hj h =
      to_be_bytes-injective 8 i j hi hj (ground (arith, encode_components-injective _ _ h))

snoc-injective {ℓ} :
    {A : Type ℓ} (xs ys : List A) {x y : A} → xs ++ x ∷ [] ≡ ys ++ y ∷ [] → (xs ≡ ys) × (x ≡ y)
snoc-injective [] [] h = (refl, cc)
snoc-injective [] (b ∷ []) h = cc
snoc-injective [] (b ∷ c ∷ ys) h = cc
snoc-injective (a ∷ []) [] h = cc
snoc-injective (a ∷ b ∷ xs) [] h = cc
snoc-injective (a ∷ xs) (b ∷ ys) {x} {y} h =
    let t : xs ++ x ∷ [] ≡ ys ++ y ∷ [] = cc in
    let a' : a ≡ b = cc in let (p, q) = snoc-injective xs ys t in (cc, q)

pub prefix_key-injective :
    (space : SpaceId) (p q : Key) (i j : LeaseId)
    → i < 256 ^ 8
    → j < 256 ^ 8
    → lease_by_prefix_key space p i ≡ lease_by_prefix_key space q j
    → (p ≡ q) × (i ≡ j)
unfolding lease_by_prefix_key
prefix_key-injective space p q i j hi hj h =
    let (e, f) = snoc-injective p q {x = u64_component i} {y = u64_component j} (
      cc (
        encode_components-injective
          (space ∷ (2 ∷ []) ∷ depth_component (length p) ∷ (p ++ u64_component i ∷ []))
          (space ∷ (2 ∷ []) ∷ depth_component (length q) ∷ (q ++ u64_component j ∷ [])) h)) in
    (e, to_be_bytes-injective 8 i j hi hj f)

module _ (space : SpaceId) (bytes : All IsByte space) where
  pub id_key-IsByte : (id : LeaseId) → All IsByte (lease_by_id_key space id)
  unfolding lease_by_id_key
  id_key-IsByte id =
      encode_components-IsByte (space ∷ (3 ∷ []) ∷ u64_component id ∷ [])
        (bytes, ((omega arith, tt), (to_be_bytes-IsByte 8 id, tt)))

  pub id_scan-IsByte : All IsByte (lease_by_id_scan space)
  unfolding lease_by_id_scan
  id_scan-IsByte = encode_components-IsByte (space ∷ (3 ∷ []) ∷ []) (bytes, ((omega arith, tt), tt))

  pub prefix_key-IsByte :
      (p : Key) (id : LeaseId) → All (All IsByte) p → All IsByte (lease_by_prefix_key space p id)
  unfolding lease_by_prefix_key
  prefix_key-IsByte p id h =
      encode_components-IsByte
        (space ∷ (2 ∷ []) ∷ depth_component (length p) ∷ (p ++ u64_component id ∷ []))
        (
          bytes,
          (
            (omega arith, tt),
            (
              to_be_bytes-IsByte 2 (length p),
              All-append (All IsByte) p (u64_component id ∷ []) h (to_be_bytes-IsByte 8 id, tt),
            ),
          ),
        )

  pub depth_scan-IsByte :
      (depth : ℕ) (head : List KeyComponent)
      → All (All IsByte) head
      → All IsByte (lease_by_prefix_scan space depth head)
  unfolding lease_by_prefix_scan
  depth_scan-IsByte depth head h =
      encode_components-IsByte (space ∷ (2 ∷ []) ∷ depth_component depth ∷ head)
        (bytes, ((omega arith, tt), (to_be_bytes-IsByte 2 depth, h)))

  pub counters_key-IsByte : All IsByte (counters_key space)
  unfolding counters_key
  counters_key-IsByte =
      encode_components-IsByte (space ∷ (4 ∷ []) ∷ counters_name ∷ [])
        (bytes, ((omega arith, tt), (omega arith, tt)))
