-- ===== src/Leases/Scan/Covering.antt =====
-- `covering` and `all_live` (server/src/space/lease.rs): the live leases over a key, and of the
-- whole space.
use homebase.Prelude.{
  ℕ, zero, suc, ◌+◌, ◌≤◌, ◌≡◌, refl, sym, ap, ◌∙◌, subst, Bool, true, List, [], ◌∷◌, ◌++◌, length,
  nat_ord, list_ord, some, starts_with, All, arith, Bool-cases, inl, inr, ◌↔◌, All-take,
  starts_with-split, starts_with_self, append-nil, length-append,
}
use homebase.Prelude.Bytes.{Bytes, IsByte}
use homebase.Key.{Key}
use homebase.Clock.{Timestamp}
use homebase.Schema.{SpaceId, lease_by_id_key, lease_by_id_scan}
use homebase.Schema.Keys.{id_scan-IsByte, id_key-id_scan}
use homebase.Schema.LeaseRecord.{LeaseRecord, is_live, lease_encode}
use homebase.Storage.{MemoryStore, get, scan_prefix}
use homebase.Storage.Store.{scan_prefix-All, scan_prefix-elim}
use homebase.Leases.{decode_all, select, covering_loop, covering, all_live}
use homebase.Leases.Table.{IsRecord, IsTable, Held, lease_encode-injective}
use homebase.Leases.Scan.{Within, Within-start, Within-grow, at_depth_lem}
use homebase.Leases.Scan.Selection.{Exactly, Exactly-iff, Exactly-select, decode_all_lem, Encodes}

longer : (a b : Key) → starts_with a b ≡ true → length b ≤ length a
longer a b h =
    let (zs, e) = starts_with-split a b h in
    omega (arith, ap (λ (k : Key). length k) e ∙ length-append b zs)

same_length : (a b : Key) → starts_with a b ≡ true → length a ≤ length b → starts_with b a ≡ true
same_length a b h l = let (zs, e) = starts_with-split a b h in whole zs e
  where
    whole : (zs : Key) → a ≡ b ++ zs → starts_with b a ≡ true
    whole [] e =
        subst (λ (x : Key). starts_with b x ≡ true) (sym (e ∙ append-nil b)) (starts_with_self b)
    whole (z ∷ zs) e =
        absurd (omega (arith, ap (λ (k : Key). length k) e ∙ length-append b (z ∷ zs)))

-- The lease is live and covers the key.
abbrev pub Covering : SpaceId → MemoryStore → Timestamp → Key → LeaseRecord → Type 0
Covering space store now key r =
    Held space store r × (is_live r now ≡ true) × (starts_with key r.prefix ≡ true)

module _ (space : SpaceId) (bytes : All IsByte space) (store : MemoryStore)
    (t : IsTable space store) (now : Timestamp) where
  live_now : LeaseRecord → Bool
  live_now r = is_live r now

  covering_loop_lem :
      (p : Key) (n depth : ℕ) (live : List LeaseRecord)
      → All (All IsByte) p
      → depth + n ≤ 257
      → Exactly (Within space store live_now p depth) live
      → (ls : List LeaseRecord) × (covering_loop space store now p n depth live ≡ some ls)
        × Exactly (Within space store live_now p (depth + n)) ls
  unfolding covering_loop live_now
  covering_loop_lem p zero depth live hp e x =
      let s : depth ≡ depth + 0 = omega arith in
      (live, refl, subst (λ (d : ℕ). Exactly (Within space store live_now p d) live) s x)
  covering_loop_lem p (suc n) depth live hp e x =
      let (recs, f, z) =
        at_depth_lem space bytes store t p depth (All-take (All IsByte) depth p hp) (omega arith) in
      let (ls, g, u) =
        covering_loop_lem p n (depth + 1) (live ++ select live_now recs) hp (omega arith)
          (Within-grow space bytes store t live_now p depth live recs x z) in
      let s : (depth + 1) + n ≡ depth + suc n = omega arith in
      (ls, rw f g, subst (λ (d : ℕ). Exactly (Within space store live_now p d) ls) s u)

  -- Over a well-formed table of a byte space id, `covering` never panics for a key of bytes within
  -- the depth limit, and returns exactly the live records of the table whose prefix is an ancestor
  -- of the key or the key.
  pub covering_lem :
      (key : Key)
      → All (All IsByte) key
      → length key ≤ 256
      → (live : List LeaseRecord) × (covering space store now key ≡ some live)
        × Exactly (Covering space store now key) live
  unfolding covering live_now
  covering_lem key hk l =
      let (ls, e, x) =
        covering_loop_lem key (length key) 1 [] hk (omega arith)
          (Within-start space bytes store t live_now key) in
      (ls, e, Exactly-iff _ _ ls whole x)
    where
      whole :
          (r : LeaseRecord)
          → Within space store (λ r. is_live r now) key (1 + length key) r
            ↔ (Held space store r × (is_live r now ≡ true) × (starts_with key r.prefix ≡ true))
      whole r = (
        λ (h, s, l, o). (
          h,
          s,
          elim (Bool-cases (starts_with key r.prefix)) [
            | inl q ↦ q
            | inr q ↦ same_length r.prefix key (ground (arith, o, q)) (omega arith)
          ],
        ),
        λ (h, s, o). (h, s, omega (arith, longer key r.prefix o), ground (arith, o)),
      )

  pub decode_all-id_scan :
      (recs : List LeaseRecord) × (decode_all (scan_prefix store (lease_by_id_scan space))
        ≡ some recs)
      × Exactly (Held space store) recs
  decode_all-id_scan =
      let (recs, e, iff) = decode_all_lem sc decodable in
      (recs, e, λ P. (λ h r q. forward P ((iff P).0 h) r q, λ h. (iff P).1 (backward P h)))
    where
      sb : All IsByte (lease_by_id_scan space)
      sb = id_scan-IsByte space bytes

      sc : List (Bytes × Bytes)
      sc = scan_prefix store (lease_by_id_scan space)

      decodable : All Encodes sc
      decodable =
          scan_prefix-All store (lease_by_id_scan space) t.is_store sb Encodes
            (λ k v e st. let (r, vr, ke, ve, other) = t.by_id k v e st in (r, vr, ve))

      forward :
          (P : LeaseRecord → Type 0)
          → All (λ e. (r : LeaseRecord) → IsRecord r → e.1 ≡ lease_encode r → P r) sc
          → (r : LeaseRecord) → Held space store r
          → P r
      forward P h r held =
          scan_prefix-elim store (lease_by_id_scan space) t.is_store sb
            (λ e. (r : LeaseRecord) → IsRecord r → e.1 ≡ lease_encode r → P r) h
            (lease_by_id_key space r.id) (lease_encode r) held.stored (id_key-id_scan space r.id) r
            held.valid refl

      backward :
          (P : LeaseRecord → Type 0)
          → ((r : LeaseRecord) → Held space store r → P r)
          → All (λ e. (r : LeaseRecord) → IsRecord r → e.1 ≡ lease_encode r → P r) sc
      backward P h =
          scan_prefix-All store (lease_by_id_scan space) t.is_store sb
            (λ e. (r : LeaseRecord) → IsRecord r → e.1 ≡ lease_encode r → P r)
            (λ k v e st r vr ev.
              let (r', vr', ke, ve, other) = t.by_id k v e st in
              let same = lease_encode-injective r' r vr' vr (sym ve ∙ ev) in
              subst P same
                (h r' (record { valid = vr'; stored = ap (get store) (sym ke) ∙ e ∙ ap some ve })))

  pub all_live_lem :
      (live : List LeaseRecord) × (all_live space store now ≡ some live)
      × Exactly (λ r. Held space store r × (is_live r now ≡ true)) live
  unfolding all_live live_now
  all_live_lem =
      let (recs, e, x) = decode_all-id_scan in
      (select live_now recs, rw e refl, Exactly-select (Held space store) live_now recs x)
