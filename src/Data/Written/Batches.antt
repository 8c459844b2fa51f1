-- ===== src/Data/Written/Batches.antt =====
-- What the batches of a request add to what is staged, and the assertions that they passed.
use homebase.Prelude.{
  ℕ, ◌+◌, ◌-◌, ◌^◌, ◌<◌, ◌≤◌, ◌≡◌, refl, sym, subst, ap, ◌∙◌, Bool, true, false, List, [], ◌∷◌,
  ◌++◌, append_assoc, append-nil, length, some, leb, ltb, nat_ord, list_ord, if◌then◌else◌, All,
  inl, ◌↔◌, arith,
}
use homebase.Prelude.Bytes.{Bytes, IsByte}
use homebase.Prelude.Attempt.{Ends, Ends->>=, Ends-map, Ends-any, IfSome}
use homebase.Range.{prefix}
use homebase.Reader.Chain.{IfSome-eq, IfSome-elim}
use homebase.Messages.{invalid_seal, AdmissionBatch, RangeAssert, RangeAssertFailure}
use homebase.Messages.Checksum.{batch_checksum}
use homebase.Schema.{SpaceId}
use homebase.Schema.Heads.{max_excluding}
use homebase.Schema.Records.{AdmissionHeaderRecord, header_encode}
use homebase.Schema.AdmissionLog.{admission_header_key}
use homebase.Storage.{MemoryStore, WriteBatch, put}
use homebase.Tag.{AdmissionSeq, AdmittedEntry, DeviceChecksum, DeviceId}
use homebase.Data.{EffectiveHistory, effective_history}
use homebase.Data.Staged.{range_assert_failures}
use homebase.Data.Staging.{Exit, rejected, answered, guard, admit_entries}
use homebase.Data.Admit.{Turn, assert_answer, admit_batch, admit_batches}
use homebase.Data.Footprint.Operations.{guard-Ends}
use homebase.Data.Written.{Puts, Puts-left, Puts-right, Extends, Logged-later, IsStaged}
use homebase.Data.Written.Entries.{numbered, IsRun, admit_entries-IsRun}

-- The entries of a request, as they are admitted from one number on.
pub admitted_from : AdmissionSeq → List AdmissionBatch → List AdmittedEntry
admitted_from seq [] = []
admitted_from seq (b ∷ bs) = numbered seq 0 b.entries ++ admitted_from (seq + 1) bs

module _ (space : SpaceId) (store : MemoryStore) (device : DeviceId) where
  -- Nothing that others admitted under the prefix is newer than the assertion says.
  abbrev pub AssertHolds : RangeAssert → Type 0
  AssertHolds a =
      (effective : EffectiveHistory) × (effective_history space store (prefix a.prefix)
        ≡ some effective)
      × (max_excluding effective.history device ≤ a.upto)

  abbrev pub Asserted : AdmissionBatch → Type 0
  Asserted b = All AssertHolds b.range_asserts

  no_failures :
      (asserts : List RangeAssert)
      → IfSome
          (λ (fs : List RangeAssertFailure). (fs ≡ []) ↔ All AssertHolds asserts)
          (range_assert_failures space store device asserts)
  unfolding range_assert_failures
  no_failures [] = ((λ e. tt), (λ u. refl))
  no_failures (a ∷ asserts) =
      let P : List RangeAssertFailure → Type 0 = λ fs. (fs ≡ []) ↔ All AssertHolds (a ∷ asserts) in
      let R : List RangeAssertFailure → Type 0 = λ fs. (fs ≡ []) ↔ All AssertHolds asserts in
      IfSome-eq P (effective_history space store (prefix a.prefix)) _ (λ effective f.
        IfSome-eq P (range_assert_failures space store device asserts) _ (λ failures g.
          let rest =
            IfSome-elim R (range_assert_failures space store device asserts) failures
              (no_failures asserts) g in
          let actual = max_excluding effective.history device in
          let failure : RangeAssertFailure = record {
            prefix = a.prefix;
            upto = a.upto;
            actual = actual;
          } in
          step effective f failure failures rest (ltb a.upto actual) refl))
    where
      step :
          (effective : EffectiveHistory)
          → effective_history space store (prefix a.prefix) ≡ some effective
          → (failure : RangeAssertFailure) (failures : List RangeAssertFailure)
          → ((failures ≡ []) ↔ All AssertHolds asserts)
          → (late : Bool) → ltb a.upto (max_excluding effective.history device) ≡ late
          → ((if late then failure ∷ failures else failures) ≡ []) ↔ All AssertHolds (a ∷ asserts)
      step effective f failure failures rest true q = (
        λ e. cc,
        λ ((other, f', le), hs).
            let same' : some other ≡ some effective = sym f' ∙ f in
            let same : other ≡ effective = cc in
            let le' =
              subst (λ (x : EffectiveHistory). max_excluding x.history device ≤ a.upto) same le in
            absurd (late_not (max_excluding effective.history device) a.upto q le'),
      )
        where
          late_not : (x y : ℕ) → ltb y x ≡ true → x ≤ y → ⊥
          late_not x y q le = ground (arith, q, le)
      step effective f failure failures rest false q =
          ((λ e. ((effective, f, ground (arith, q)), rest.0 e)), (λ (h, hs). rest.1 hs))

module _ (space : SpaceId) (device : DeviceId) (sha256 : Bytes → Bytes) where
  -- The batch has the header of every batch of the request, under consecutive numbers, with the
  -- checksums one from the other up to the last.
  pub Headers :
      AdmissionSeq → DeviceChecksum → List AdmissionBatch → WriteBatch → DeviceChecksum → Type 0
  Headers seq previous [] ops last = previous ≡ last
  Headers seq previous (b ∷ bs) ops last =
      let next = batch_checksum sha256 previous space device b in
      let header : AdmissionHeaderRecord = record {
        device = device;
        device_seq = b.device_seq;
        checksum = next;
        operation_count = length b.entries;
      } in
      Puts (admission_header_key space seq) (header_encode header) ops
      × Headers (seq + 1) next bs ops last

  pub Headers-later :
      (seq : AdmissionSeq) (previous : DeviceChecksum) (bs : List AdmissionBatch)
      (ops more : WriteBatch) (last : DeviceChecksum)
      → Extends ops more
      → Headers seq previous bs ops last
      → Headers seq previous bs more last
  unfolding Headers
  Headers-later seq previous [] ops more last x h = h
  Headers-later seq previous (b ∷ bs) ops more last x (h, hs) =
      (x _ _ h, Headers-later (seq + 1) _ bs ops more last x hs)

module _ (space : SpaceId) (bytes : All IsByte space) (store : MemoryStore) (device : DeviceId)
    (sha256 : Bytes → Bytes) (count : ℕ) (current : DeviceChecksum) (X : Type 0) where
  -- An answer in place of an admission comes with `X`.
  abbrev pub OnExit : Exit → Type 0
  OnExit (rejected error) = Unit
  OnExit (answered response) = X

  -- What the batches have made of a turn.
  pub record IsCourse (es : List AdmittedEntry) (bs : List AdmissionBatch) (before after : Turn)
      : Type 0 where
    pub staged : IsStaged space (es ++ admitted_from before.next_admission_seq bs) after.staging
    pub extends : Extends before.staging.batch after.staging.batch
    pub headers :
        Headers space device sha256 before.next_admission_seq before.next_checksum bs
          after.staging.batch after.next_checksum
    pub asserted : All (Asserted space store device) bs

  record IsOne (es : List AdmittedEntry) (b : AdmissionBatch) (before after : Turn) : Type 0 where
    staged : IsStaged space (es ++ numbered before.next_admission_seq 0 b.entries) after.staging
    extends : Extends before.staging.batch after.staging.batch
    header :
        Puts
          (admission_header_key space before.next_admission_seq)
          (header_encode (record {
            device = device;
            device_seq = b.device_seq;
            checksum = batch_checksum sha256 before.next_checksum space device b;
            operation_count = length b.entries;
          }))
          after.staging.batch
    asserted : Asserted space store device b
    next : after.next_admission_seq ≡ before.next_admission_seq + 1
    checksum : after.next_checksum ≡ batch_checksum sha256 before.next_checksum space device b

  answer-Ends :
      (asserts : List RangeAssert) (failures : List RangeAssertFailure)
      → ((failures ≡ []) ↔ All (AssertHolds space store device) asserts)
      → ((¬ All (AssertHolds space store device) asserts) → X)
      → Ends OnExit
          (λ u. All (AssertHolds space store device) asserts)
          (assert_answer space store device sha256 count current failures)
  answer-Ends asserts [] iff bad = iff.0 refl
  answer-Ends asserts (failure ∷ failures) iff bad = bad (λ h. let e = iff.1 h in cc)

  admit_batch-IsOne :
      (b : AdmissionBatch) (es : List AdmittedEntry) (turn : Turn)
      → ((¬ Asserted space store device b) → X)
      → IsStaged space es turn.staging
      → turn.next_admission_seq + 1 < 2 ^ 64
      → Ends OnExit (IsOne es b turn) (admit_batch space store device sha256 count current b turn)
  unfolding admit_batch
  admit_batch-IsOne b es turn bad h fits =
      let Q = IsOne es b turn in
      let seq = turn.next_admission_seq in
      let counted = leb (length b.entries) (2 ^ 32 - 1) in
      let R : List RangeAssertFailure → Type 0 = λ fs. (fs ≡ []) ↔ Asserted space store device b in
      Ends-any OnExit Q (range_assert_failures space store device b.range_asserts) _
        (λ failures found.
          let iff =
            IfSome-elim R (range_assert_failures space store device b.range_asserts) failures
              (no_failures space store device b.range_asserts) found in
          Ends->>= OnExit (λ u. Asserted space store device b) Q
            (assert_answer space store device sha256 count current failures) _
            (answer-Ends b.range_asserts failures iff bad)
            (λ u asserted.
              Ends->>= OnExit (λ u. Unit) Q (guard counted invalid_seal) _
                (guard-Ends OnExit (λ error. tt) counted invalid_seal)
                (λ c u.
                  Ends->>= OnExit
                    (IsRun space bytes OnExit (λ error. tt) store device b.device_seq seq
                      (es ++ numbered seq 0 b.entries) turn.staging)
                    Q (admit_entries space store device b.device_seq seq 0 b.entries turn.staging) _
                    (admit_entries-IsRun space bytes OnExit (λ error. tt) store device b.device_seq
                      seq 0 b.entries es turn.staging h)
                    (λ after x.
                      let header : AdmissionHeaderRecord = record {
                        device = device;
                        device_seq = b.device_seq;
                        checksum = batch_checksum sha256 turn.next_checksum space device b;
                        operation_count = length b.entries;
                      } in
                      let last = put (admission_header_key space seq) (header_encode header) ∷ [] in
                      record {
                        staged = record {
                          rows = x.staged.rows;
                          logged =
                              Logged-later space after.batch (after.batch ++ last)
                                (es ++ numbered seq 0 b.entries)
                                (λ k v p. Puts-left k v after.batch last p) x.staged.logged;
                        };
                        extends = λ k v p. Puts-left k v after.batch last (x.extends k v p);
                        header = Puts-right _ _ after.batch last (inl refl);
                        asserted = asserted;
                        next = omega (arith, fits);
                        checksum = refl;
                      }))))

  pub admit_batches-IsCourse :
      (bs : List AdmissionBatch) (es : List AdmittedEntry) (turn : Turn)
      → ((¬ All (Asserted space store device) bs) → X)
      → IsStaged space es turn.staging
      → turn.next_admission_seq + length bs < 2 ^ 64
      → Ends OnExit
          (IsCourse es bs turn)
          (admit_batches space store device sha256 count current bs turn)
  unfolding admit_batches admitted_from Headers
  admit_batches-IsCourse [] es turn bad h fits = record {
    staged =
        subst (λ (l : List AdmittedEntry). IsStaged space l turn.staging) (sym (append-nil es)) h;
    extends = λ k v p. p;
    headers = refl;
    asserted = tt;
  }
  admit_batches-IsCourse (b ∷ bs) es turn bad h fits =
      let one = numbered turn.next_admission_seq 0 b.entries in
      Ends->>= OnExit (IsOne es b turn) (IsCourse es (b ∷ bs) turn)
        (admit_batch space store device sha256 count current b turn) _
        (admit_batch-IsOne b es turn (λ n. bad (λ (a, as'). n a)) h (omega (arith, fits)))
        (λ middle x.
          Ends-map OnExit (IsCourse (es ++ one) bs middle) (IsCourse es (b ∷ bs) turn)
            (admit_batches space store device sha256 count current bs middle)
            (admit_batches-IsCourse bs (es ++ one) middle (λ n. bad (λ (a, as'). n as')) x.staged
              (omega (arith, fits, x.next)))
            (λ last y. record {
              staged =
                  subst (λ (l : List AdmittedEntry). IsStaged space l last.staging)
                    (append_assoc es one (admitted_from middle.next_admission_seq bs)
                      ∙ ap (λ (n : ℕ). es ++ (one ++ admitted_from n bs)) x.next)
                    y.staged;
              extends = λ k v p. y.extends k v (x.extends k v p);
              headers = (
                y.extends _ _ x.header,
                subst
                    (λ (n : ℕ).
                      Headers space device sha256 n
                        (batch_checksum sha256 turn.next_checksum space device b) bs
                        last.staging.batch last.next_checksum)
                    x.next
                    (subst
                      (λ (c : DeviceChecksum).
                        Headers space device sha256 middle.next_admission_seq c bs
                          last.staging.batch last.next_checksum)
                      x.checksum y.headers),
              );
              asserted = (x.asserted, y.asserted);
            }))
