-- ===== src/Storage/Successor.antt =====
-- `prefix_successor` (core/src/storage.rs) and the byte strings that start with a prefix.
use homebase.Prelude.{
  ℕ, ◌+◌, ◌<◌, ◌≡◌, refl, ap, ◌∙◌, [], ◌∷◌, ◌++◌, ltb, if◌then◌else◌, Option, none, some, list_cmp,
  nat_ord, list_ord, eq, gt, starts_with, All, arith, inl, inr, ◌⊎◌, Bool-cases,
}
use homebase.Prelude.Bytes.{Bytes, IsByte}
use homebase.Storage.{successor_loop, prefix_successor, in_range}
use mathlib.Core.List.{reverse, reverse-cons, reverse-append}
use mathlib.Core.Option

-- The successor, read from the first byte on.
successor : Bytes → Option Bytes
successor [] = none
successor (b ∷ bs) = elim (successor bs) [
  | some r ↦ some (b ∷ r)
  | none ↦ if ltb b 0xff then some ((b + 1) ∷ []) else none
]

abbrev onto : Option Bytes → ℕ → Option Bytes
onto (some r) b = some (r ++ b ∷ [])
onto none b = if ltb b 0xff then some ((b + 1) ∷ []) else none

successor_loop-snoc :
    (xs : Bytes) (b : ℕ) → successor_loop (xs ++ b ∷ []) ≡ onto (successor_loop xs) b
unfolding successor_loop
successor_loop-snoc [] b = ground arith
successor_loop-snoc (x ∷ xs) b = ground (arith, successor_loop-snoc xs b)

prefix_successor-cons :
    (b : ℕ) (bs : Bytes)
    → prefix_successor (b ∷ bs) ≡ elim (prefix_successor bs) [
      | some r ↦ some (b ∷ r)
      | none ↦ if ltb b 0xff then some ((b + 1) ∷ []) else none
    ]
unfolding prefix_successor
prefix_successor-cons b bs =
    rw (reverse-cons b bs, successor_loop-snoc (reverse bs) b)
      (finish (successor_loop (reverse bs)))
  where
    finish :
        (o : Option Bytes)
        → Option.map reverse (onto o b) ≡ elim (Option.map reverse o) [
          | some r ↦ some (b ∷ r)
          | none ↦ if ltb b 0xff then some ((b + 1) ∷ []) else none
        ]
    finish none = elim (Bool-cases (ltb b 0xff)) [ inl e ↦ rw e | inr e ↦ rw e ]
    finish (some r) = ap some (reverse-append r (b ∷ []))

prefix_successor-eq : (p : Bytes) → prefix_successor p ≡ successor p
unfolding successor
prefix_successor-eq [] = unfold prefix_successor successor_loop in refl
prefix_successor-eq (b ∷ bs) = prefix_successor-cons b bs ∙ ground (arith, prefix_successor-eq bs)

list_cmp-nil : (ks : Bytes) → (list_cmp ks [] ≡ eq) ⊎ (list_cmp ks [] ≡ gt)
list_cmp-nil [] = inl refl
list_cmp-nil (c ∷ ks) = inr refl

-- One byte of the comparison, `s` being the successor of the rest.
in_range-cons :
    (b c : ℕ) (bs ks : Bytes) (s : Option Bytes)
    → b < 256
    → c < 256
    → in_range bs s ks ≡ starts_with ks bs
    → in_range
        (b ∷ bs)
        (elim s [ some r ↦ some (b ∷ r) | none ↦ if ltb b 0xff then some ((b + 1) ∷ []) else none ])
        (c ∷ ks)
      ≡ starts_with (c ∷ ks) (b ∷ bs)
in_range-cons b c bs ks (some r) hb hc ih = ground (arith, ih)
in_range-cons b c bs ks none hb hc ih = elim (Bool-cases (ltb b 0xff)) [
  | inl e ↦ rw e (ground (arith, ih, list_cmp-nil ks))
  | inr e ↦ rw e (ground (arith, ih))
]

in_range-successor :
    (p k : Bytes) → All IsByte p → All IsByte k → in_range p (successor p) k ≡ starts_with k p
unfolding successor
in_range-successor [] [] hp hk = refl
in_range-successor [] (c ∷ ks) hp hk = refl
in_range-successor (b ∷ bs) [] hp hk = refl
in_range-successor (b ∷ bs) (c ∷ ks) (hb, hp) (hc, hk) =
    in_range-cons b c bs ks (successor bs) hb hc (in_range-successor bs ks hp hk)

-- Among keys of bytes, those in the half-open range from a prefix of bytes to its successor (to
-- the end where there is none) are exactly those that start with the prefix.
pub in_range-prefix_successor :
    (p k : Bytes)
    → All IsByte p
    → All IsByte k
    → in_range p (prefix_successor p) k ≡ starts_with k p
in_range-prefix_successor p k hp hk = rw (prefix_successor-eq p) (in_range-successor p k hp hk)
