-- ===== src/Prelude/Bytes.antt =====
-- Byte strings, and Rust's `to_be_bytes` and `from_be_bytes` at any width.
use Prim.Native.Nat.{ℕ, zero, suc, ◌+◌, ◌*◌, ◌/◌, ◌%◌, ◌^◌, ◌<◌}
use mathlib.Core.Path.{◌≡◌, refl, sym, ap, ◌∙◌}
use mathlib.Core.List.{List, [], ◌∷◌, ◌++◌, append-nil, append_assoc}
use native.Mathlib.Omega.{arith}
use native.Mathlib.Nat.{pow-suc, add-zero}
use homebase.Prelude.Lists.{length, length-append, All, All-append}

abbrev pub Bytes : Type 0
Bytes = List ℕ

-- `v.to_be_bytes()` for an integer of `w` bytes.
unfoldable pub to_be_bytes : ℕ → ℕ → Bytes
to_be_bytes zero v = []
to_be_bytes (suc w) v = to_be_bytes w (v / 256) ++ (v % 256) ∷ []

unfoldable pub from_be_loop : ℕ → Bytes → ℕ
from_be_loop acc [] = acc
from_be_loop acc (b ∷ bs) = from_be_loop (acc * 256 + b) bs

unfoldable pub from_be_bytes : Bytes → ℕ
unfolding from_be_loop
from_be_bytes bs = from_be_loop 0 bs

pub length-to_be_bytes : (w v : ℕ) → length (to_be_bytes w v) ≡ w
unfolding to_be_bytes
length-to_be_bytes zero v = refl
length-to_be_bytes (suc w) v = omega (
  arith,
  length-append (to_be_bytes w (v / 256)) ((v % 256) ∷ []),
  length-to_be_bytes w (v / 256),
)

from_be_loop-append :
    (acc : ℕ) (xs : Bytes) (b : ℕ) → from_be_loop acc (xs ++ b ∷ []) ≡ from_be_loop acc xs * 256 + b
unfolding from_be_loop
from_be_loop-append acc [] b = refl
from_be_loop-append acc (x ∷ xs) b = from_be_loop-append (acc * 256 + x) xs b

from_be_loop-to_be : (w v : ℕ) → v < 256 ^ w → from_be_loop 0 (to_be_bytes w v) ≡ v
unfolding to_be_bytes
from_be_loop-to_be zero v h = unfold from_be_loop in omega arith
from_be_loop-to_be (suc w) v h =
    from_be_loop-append 0 (to_be_bytes w (v / 256)) (v % 256)
    ∙ omega (arith, from_be_loop-to_be w (v / 256) (omega (arith, pow-suc 256 w)))

-- An integer that fits its width is read back.
pub from_be-to_be : (w v : ℕ) → v < 256 ^ w → from_be_bytes (to_be_bytes w v) ≡ v
unfolding from_be_bytes
from_be-to_be w v h = from_be_loop-to_be w v h

pub to_be_bytes-injective :
    (w u v : ℕ) → u < 256 ^ w → v < 256 ^ w → to_be_bytes w u ≡ to_be_bytes w v → u ≡ v
to_be_bytes-injective w u v hu hv e =
    sym (from_be-to_be w u hu) ∙ ap from_be_bytes e ∙ from_be-to_be w v hv

abbrev pub IsByte : ℕ → Type 0
IsByte b = b < 256

to_be_bytes-snoc :
    (w acc b : ℕ) → b < 256 → to_be_bytes (suc w) (acc * 256 + b) ≡ to_be_bytes w acc ++ b ∷ []
unfolding to_be_bytes
to_be_bytes-snoc w acc b h =
    let d : (acc * 256 + b) / 256 ≡ acc = omega arith in
    let m : (acc * 256 + b) % 256 ≡ b = omega arith in rw (d, m)

-- The bytes of a number, read from a whole byte string.
to_be-from_be_loop :
    (acc w : ℕ) (bs : Bytes)
    → All IsByte bs
    → to_be_bytes (w + length bs) (from_be_loop acc bs) ≡ to_be_bytes w acc ++ bs
unfolding from_be_loop
to_be-from_be_loop acc w [] h = rw (add-zero, append-nil)
to_be-from_be_loop acc w (b ∷ bs) (h, hs) =
    ap (λ (n : ℕ). to_be_bytes n (from_be_loop (acc * 256 + b) bs)) (omega arith)
    ∙ to_be-from_be_loop (acc * 256 + b) (suc w) bs hs
    ∙ ap (λ (r : Bytes). r ++ bs) (to_be_bytes-snoc w acc b h)
    ∙ append_assoc (to_be_bytes w acc) (b ∷ []) bs

pub to_be-from_be : (bs : Bytes) → All IsByte bs → to_be_bytes (length bs) (from_be_bytes bs) ≡ bs
unfolding from_be_bytes to_be_bytes
to_be-from_be bs h = ground (arith, to_be-from_be_loop 0 0 bs h)

pub to_be_bytes-IsByte : (w v : ℕ) → All IsByte (to_be_bytes w v)
unfolding to_be_bytes
to_be_bytes-IsByte zero v = tt
to_be_bytes-IsByte (suc w) v =
    All-append IsByte (to_be_bytes w (v / 256)) ((v % 256) ∷ []) (to_be_bytes-IsByte w (v / 256))
      (omega arith, tt)
