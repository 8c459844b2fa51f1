-- ===== src/Data/Written/Targets.antt =====
-- The targets of the mutations of a request: which are well-formed, and which leases allow.
use homebase.Prelude.{
  ◌≡◌, refl, sym, subst, List, [], ◌∷◌, ◌++◌, nat_ord, list_ord, All, All-append,
}
use homebase.Clock.{Timestamp}
use homebase.Range.{full, prefix}
use homebase.Messages.{AdmissionBatch}
use homebase.Schema.{SpaceId}
use homebase.Storage.{MemoryStore}
use homebase.Tag.{DeviceEntry, DeviceId, Mutation, set, delete, delete_range, OpaqueValue}
use homebase.Leases.Admission.{IsByteKey, IsByteRange, KeyAllowed, RangeAllowed}
use homebase.Data.Admit.{entries_of, point_keys, range_targets}
use homebase.Data.Footprint.Batch.{ByteBatch}
use homebase.Data.Footprint.Operations.{ByteTarget}

module _ (space : SpaceId) (store : MemoryStore) (now : Timestamp) (device : DeviceId) where
  -- Every live lease in the way of the mutation is the device's own.
  abbrev pub Allowed : Mutation OpaqueValue → Type 0
  Allowed (set key value) = KeyAllowed space store now device key
  Allowed (delete key) = KeyAllowed space store now device key
  Allowed (delete_range range) = RangeAllowed space store now device range

  abbrev pub AllowedEntry : DeviceEntry → Type 0
  AllowedEntry e = Allowed e.mutation

  pub all_allowed :
      (es : List DeviceEntry)
      → All (KeyAllowed space store now device) (point_keys es)
      → All (RangeAllowed space store now device) (range_targets es)
      → All AllowedEntry es
  unfolding point_keys range_targets
  all_allowed [] ks rs = tt
  all_allowed (e ∷ es) ks rs = on_mutation (all_allowed es) e.mutation refl ks rs
    where
      on_mutation :
          (All (KeyAllowed space store now device) (point_keys es)
            → All (RangeAllowed space store now device) (range_targets es)
            → All AllowedEntry es)
          → (m : Mutation OpaqueValue) → e.mutation ≡ m
          → All (KeyAllowed space store now device) (point_keys (e ∷ es))
          → All (RangeAllowed space store now device) (range_targets (e ∷ es))
          → All AllowedEntry (e ∷ es)
      on_mutation rest (set key value) q ks rs =
          let ks' = rw q at ks in
          let rs' = rw q at rs in (subst Allowed (sym q) ks'.0, rest ks'.1 rs')
      on_mutation rest (delete key) q ks rs =
          let ks' = rw q at ks in
          let rs' = rw q at rs in (subst Allowed (sym q) ks'.0, rest ks'.1 rs')
      on_mutation rest (delete_range range) q ks rs =
          let ks' = rw q at ks in
          let rs' = rw q at rs in (subst Allowed (sym q) rs'.0, rest ks' rs'.1)

  split_allowed :
      (es more : List DeviceEntry)
      → All AllowedEntry (es ++ more)
      → All AllowedEntry es × All AllowedEntry more
  split_allowed [] more h = (tt, h)
  split_allowed (e ∷ es) more (h, hs) = let (a, b) = split_allowed es more hs in ((h, a), b)

  pub by_batch :
      (bs : List AdmissionBatch)
      → All AllowedEntry (entries_of bs)
      → All (λ (b : AdmissionBatch). All AllowedEntry b.entries) bs
  unfolding entries_of
  by_batch [] h = tt
  by_batch (b ∷ bs) h =
      let (a, as') = split_allowed b.entries (entries_of bs) h in (a, by_batch bs as')

-- The target of the mutation is well-formed and made of bytes.
abbrev pub ValidTarget : Mutation OpaqueValue → Type 0
ValidTarget (set key value) = IsByteKey key
ValidTarget (delete key) = IsByteKey key
ValidTarget (delete_range range) = IsByteRange range

abbrev pub ValidBatch : AdmissionBatch → Type 0
ValidBatch b = All (λ (e : DeviceEntry). ValidTarget e.mutation) b.entries

abbrev pub ValidEntries : List DeviceEntry → Type 0
ValidEntries es = All (λ (e : DeviceEntry). ValidTarget e.mutation) es

pub valid_entries : (bs : List AdmissionBatch) → All ValidBatch bs → ValidEntries (entries_of bs)
unfolding entries_of
valid_entries [] v = tt
valid_entries (b ∷ bs) (v, vs) =
    All-append (λ (e : DeviceEntry). ValidTarget e.mutation) b.entries (entries_of bs) v
      (valid_entries bs vs)

pub valid_keys : (es : List DeviceEntry) → ValidEntries es → All IsByteKey (point_keys es)
unfolding point_keys
valid_keys [] v = tt
valid_keys (e ∷ es) (v, vs) = on_mutation (valid_keys es vs) e.mutation refl
  where
    on_mutation :
        All IsByteKey (point_keys es)
        → (m : Mutation OpaqueValue) → e.mutation ≡ m
        → All IsByteKey (point_keys (e ∷ es))
    on_mutation rest (set key value) q = rw q (rw q at v, rest)
    on_mutation rest (delete key) q = rw q (rw q at v, rest)
    on_mutation rest (delete_range range) q = rw q rest

pub valid_ranges : (es : List DeviceEntry) → ValidEntries es → All IsByteRange (range_targets es)
unfolding range_targets
valid_ranges [] v = tt
valid_ranges (e ∷ es) (v, vs) = on_mutation (valid_ranges es vs) e.mutation refl
  where
    on_mutation :
        All IsByteRange (range_targets es)
        → (m : Mutation OpaqueValue) → e.mutation ≡ m
        → All IsByteRange (range_targets (e ∷ es))
    on_mutation rest (set key value) q = rw q rest
    on_mutation rest (delete key) q = rw q rest
    on_mutation rest (delete_range range) q = rw q (rw q at v, rest)

byte_target : (m : Mutation OpaqueValue) → ValidTarget m → ByteTarget m
byte_target (set key value) v = v.1
byte_target (delete key) v = v.1
byte_target (delete_range full) v = tt
byte_target (delete_range (prefix p)) v = v.1

byte_entries :
    (es : List DeviceEntry) → ValidEntries es → All (λ (e : DeviceEntry). ByteTarget e.mutation) es
byte_entries [] v = tt
byte_entries (e ∷ es) (v, vs) = (byte_target e.mutation v, byte_entries es vs)

pub byte_batches : (bs : List AdmissionBatch) → All ValidBatch bs → All ByteBatch bs
byte_batches [] v = tt
byte_batches (b ∷ bs) (v, vs) = (byte_entries b.entries v, byte_batches bs vs)
