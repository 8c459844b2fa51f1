-- ===== src/Leases/Scan.antt =====
-- The index scans of the lease table (server/src/space/lease.rs), and the records that they are
-- meant to find.
pub mod Selection
pub mod Covering
use homebase.Prelude.{
  ℕ, zero, suc, ◌+◌, ◌≤◌, ◌<◌, ◌≡◌, refl, sym, ap, ◌∙◌, subst, min, Bool, true, false, not, ◌&&◌,
  ◌||◌, List, [], ◌∷◌, ◌++◌, length, take, ◌==◌, nat_ord, list_ord, if◌then◌else◌, Option, none,
  some, starts_with, starts_with_trans, starts_with-take, All, arith, eq_of_==, ==_iff, ==_self,
  Bool-cases, inl, inr, ◌⊎◌, ◌↔◌, length-take, All-take,
}
use homebase.Prelude.Bytes.{Bytes, IsByte}
use homebase.Key.{Key, max_components}
use homebase.Clock.{Timestamp}
use homebase.Reader.{◌>>=◌}
use homebase.Schema.{
  SpaceId, lease_by_id_key, lease_by_id_scan, lease_by_prefix_key, lease_by_prefix_scan,
}
use homebase.Schema.Keys.{
  lease_by_prefix_scan_all, prefix_key-depth_scan, prefix_scan-prefix_scan, depth_scan-IsByte,
  id_scan-IsByte, id_key-id_scan,
}
use homebase.Schema.LeaseRecord.{LeaseRecord, IsLeaseRecord, is_live, lease_encode, lease_decode}
use homebase.Schema.LeaseRecord.Codec.{lease_decode-encode}
use homebase.Storage.{MemoryStore, get, scan_prefix}
use homebase.Storage.Store.{scan_prefix-All, scan_prefix-elim}
use homebase.Leases.{
  select, decode_all, at_depth, overlapping_loop, overlapping, covering_loop, covering, all_live,
}
use homebase.Leases.Table.{IsRecord, IsTable, Held, lease_encode-injective}
use Selection.{Exactly, Exactly-iff, Exactly-grow, Exactly-select, decode_all_lem, Encodes}

module _ (space : SpaceId) (store : MemoryStore) where
  pub AtDepth : Key → ℕ → LeaseRecord → Type 0
  AtDepth p depth r =
      Held space store r × (length r.prefix ≡ depth) × (starts_with r.prefix (take depth p) ≡ true)

  -- The records of the table that `sel` selects, less than `d` deep, whose prefix lies above,
  -- at or below `p`.
  abbrev pub Within : (LeaseRecord → Bool) → Key → ℕ → LeaseRecord → Type 0
  Within sel p d r =
      Held space store r
      × (sel r ≡ true)
      × (length r.prefix < d)
      × ((starts_with r.prefix p || starts_with p r.prefix) ≡ true)

  -- The record is in the table, selected by `sel`, and its prefix overlaps `p`.
  unfoldable pub Overlapping : (LeaseRecord → Bool) → Key → LeaseRecord → Type 0
  Overlapping sel p r =
      Held space store r
      × (sel r ≡ true)
      × ((starts_with r.prefix p || starts_with p r.prefix) ≡ true)

module _ (space : SpaceId) (bytes : All IsByte space) (store : MemoryStore)
    (t : IsTable space store) where
  Held-indexed :
      (r : LeaseRecord)
      → Held space store r
      → get store (lease_by_prefix_key space r.prefix r.id) ≡ some (lease_encode r)
  Held-indexed r h =
      let (r', v, ke, ve, other) =
        t.by_id (lease_by_id_key space r.id) (lease_encode r) h.stored
          (id_key-id_scan space r.id) in
      let e = lease_encode-injective r r' h.valid v ve in
      subst
        (λ (x : LeaseRecord).
          get store (lease_by_prefix_key space x.prefix x.id) ≡ some (lease_encode x))
        (sym e) other

  pub at_depth_lem :
      (p : Key) (depth : ℕ)
      → All (All IsByte) (take depth p)
      → depth ≤ 256
      → (recs : List LeaseRecord) × (at_depth space store p depth ≡ some recs)
        × Exactly (AtDepth space store p depth) recs
  unfolding at_depth AtDepth
  at_depth_lem p depth hp hd =
      let (recs, e, iff) = decode_all_lem sc decodable in
      (recs, e, λ P. (λ h r q. forward P ((iff P).0 h) r q, λ h. (iff P).1 (backward P h)))
    where
      sp : Bytes
      sp = lease_by_prefix_scan space depth (take depth p)

      sb : All IsByte sp
      sb = depth_scan-IsByte space bytes depth (take depth p) hp

      sc : List (Bytes × Bytes)
      sc = scan_prefix store sp

      matches :
          (r : LeaseRecord)
          → IsRecord r
          → starts_with (lease_by_prefix_key space r.prefix r.id) sp
            ≡ ((length r.prefix == depth) && starts_with r.prefix (take depth p))
      matches r v =
          prefix_key-depth_scan space r.prefix r.id depth (take depth p) v.fields.prefix_valid.depth
            hd (omega (arith, length-take depth p))

      whole :
          (k : Bytes)
          → starts_with k sp ≡ true
          → starts_with k (lease_by_prefix_scan_all space) ≡ true
      whole k h =
          starts_with_trans k sp (lease_by_prefix_scan_all space) h
            (prefix_scan-prefix_scan space depth (take depth p))

      decodable : All Encodes sc
      decodable =
          scan_prefix-All store sp t.is_store sb Encodes
            (λ k v e st. let (r, vr, ke, ve, other) = t.by_prefix k v e (whole k st) in (r, vr, ve))

      forward :
          (P : LeaseRecord → Type 0)
          → All (λ e. (r : LeaseRecord) → IsRecord r → e.1 ≡ lease_encode r → P r) sc
          → (r : LeaseRecord)
          → Held space store r
            × (length r.prefix ≡ depth)
            × (starts_with r.prefix (take depth p) ≡ true)
          → P r
      forward P h r (held, len, st) =
          scan_prefix-elim store sp t.is_store sb
            (λ e. (r : LeaseRecord) → IsRecord r → e.1 ≡ lease_encode r → P r) h
            (lease_by_prefix_key space r.prefix r.id) (lease_encode r) (Held-indexed r held)
            (matches r held.valid ∙ ground (arith, len, st)) r held.valid refl

      backward :
          (P : LeaseRecord → Type 0)
          → ((r : LeaseRecord)
              → Held space store r
                × (length r.prefix ≡ depth)
                × (starts_with r.prefix (take depth p) ≡ true)
              → P r)
          → All (λ e. (r : LeaseRecord) → IsRecord r → e.1 ≡ lease_encode r → P r) sc
      backward P h =
          scan_prefix-All store sp t.is_store sb
            (λ e. (r : LeaseRecord) → IsRecord r → e.1 ≡ lease_encode r → P r)
            (λ k v e st r vr ev.
              let (r', vr', ke, ve, held) = t.by_prefix k v e (whole k st) in
              let same = lease_encode-injective r' r vr' vr (sym ve ∙ ev) in
              let m : ((length r'.prefix == depth) && starts_with r'.prefix (take depth p)) ≡ true =
                sym (matches r' vr') ∙ ap (λ (x : Bytes). starts_with x sp) (sym ke) ∙ st in
              subst P same (
                h r' (record { valid = vr'; stored = held }, ground (arith, m), ground (arith, m))))

  pub Within-start : (sel : LeaseRecord → Bool) (p : Key) → Exactly (Within space store sel p 1) []
  Within-start sel p P =
      (λ h r q. absurd (omega (arith, q.0.valid.fields.prefix_valid.nonempty, q.2)), λ h. tt)

  pub Within-grow :
      (sel : LeaseRecord → Bool) (p : Key) (d : ℕ) (xs recs : List LeaseRecord)
      → Exactly (Within space store sel p d) xs
      → Exactly (AtDepth space store p d) recs
      → Exactly (Within space store sel p (d + 1)) (xs ++ select sel recs)
  unfolding AtDepth
  Within-grow sel p d xs recs x y =
      Exactly-iff (λ r. Within space store sel p d r ⊎ (AtDepth space store p d r × (sel r ≡ true)))
        (Within space store sel p (d + 1)) (xs ++ select sel recs) step
        (Exactly-grow (Within space store sel p d) (λ r. AtDepth space store p d r × (sel r ≡ true))
          xs (select sel recs) x (Exactly-select (AtDepth space store p d) sel recs y))
    where
      at :
          (r : LeaseRecord)
          → length r.prefix ≡ d
          → starts_with r.prefix (take d p) ≡ (starts_with r.prefix p || starts_with p r.prefix)
      at r e = ap (λ (n : ℕ). starts_with r.prefix (take n p)) (sym e) ∙ starts_with-take r.prefix p

      step :
          (r : LeaseRecord)
          → (Within space store sel p d r ⊎ (AtDepth space store p d r × (sel r ≡ true)))
            ↔ Within space store sel p (d + 1) r
      step r = (
        λ h. elim h [
          | inl (held, s, l, o) ↦ (held, s, omega arith, o)
          | inr ((held, l, st), s) ↦ (held, s, omega arith, sym (at r l) ∙ st)
        ],
        λ (held, s, l, o). elim (Bool-cases (length r.prefix == d)) [
          | inl q ↦ let e = eq_of_== (length r.prefix) d q in inr ((held, e, at r e ∙ o), s)
          | inr q ↦ inl (held, s, ground arith, o)
        ],
      )

  abbrev live_at : Timestamp → LeaseRecord → Bool
  live_at now r = is_live r now

  abbrev dead_at : Timestamp → LeaseRecord → Bool
  dead_at now r = not (is_live r now)

  overlapping_loop_lem :
      (now : Timestamp) (p : Key) (n depth : ℕ) (live dead : List LeaseRecord)
      → All (All IsByte) p
      → depth + n ≡ 257
      → Exactly (Within space store (live_at now) p depth) live
      → Exactly (Within space store (dead_at now) p depth) dead
      → (ls ds : List LeaseRecord) × (overlapping_loop space store now p n depth live dead
          ≡ some (ls, ds))
        × Exactly (Within space store (live_at now) p 257) ls
        × Exactly (Within space store (dead_at now) p 257) ds
  unfolding overlapping_loop
  overlapping_loop_lem now p zero depth live dead hp e x y =
      let e' : depth ≡ 257 = omega arith in
      (
        live,
        dead,
        refl,
        subst (λ (k : ℕ). Exactly (Within space store (live_at now) p k) live) e' x,
        subst (λ (k : ℕ). Exactly (Within space store (dead_at now) p k) dead) e' y,
      )
  overlapping_loop_lem now p (suc n) depth live dead hp e x y =
      let (recs, f, z) = at_depth_lem p depth (All-take (All IsByte) depth p hp) (omega arith) in
      let (ls, ds, g, u, w) =
        overlapping_loop_lem now p n (depth + 1) (live ++ select (live_at now) recs)
          (dead ++ select (dead_at now) recs) hp (omega arith)
          (Within-grow (live_at now) p depth live recs x z)
          (Within-grow (dead_at now) p depth dead recs y z) in
      (ls, ds, rw f g, u, w)

  -- Over a well-formed table of a byte space id, `overlapping` never panics for a prefix of bytes,
  -- and returns exactly the live and exactly the dead records of the table whose prefix is an
  -- ancestor of the given one, the same, or a descendant.
  pub overlapping_lem :
      (now : Timestamp) (p : Key)
      → All (All IsByte) p
      → (live dead : List LeaseRecord) × (overlapping space store now p ≡ some (live, dead))
        × Exactly (Overlapping space store (live_at now) p) live
        × Exactly (Overlapping space store (dead_at now) p) dead
  unfolding overlapping Overlapping
  overlapping_lem now p hp =
      let (ls, ds, e, x, y) =
        overlapping_loop_lem now p 256 1 [] [] hp (omega arith) (Within-start (live_at now) p)
          (Within-start (dead_at now) p) in
      (
        ls,
        ds,
        e,
        Exactly-iff _ _ ls (whole (live_at now)) x,
        Exactly-iff _ _ ds (whole (dead_at now)) y,
      )
    where
      whole :
          (sel : LeaseRecord → Bool) (r : LeaseRecord)
          → Within space store sel p 257 r ↔ (
              Held space store r
              × (sel r ≡ true)
              × ((starts_with r.prefix p || starts_with p r.prefix) ≡ true))
      whole sel r = (
        λ (h, s, l, o). (h, s, o),
        λ (h, s, o). (h, s, omega (arith, h.valid.fields.prefix_valid.depth), o),
      )
