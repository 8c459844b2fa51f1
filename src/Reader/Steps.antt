-- ===== src/Reader/Steps.antt =====
-- One read on a reader whose rest begins with what is asked for.
use homebase.Prelude.{
  ℕ, ◌+◌, ◌≤◌, ◌<◌, ◌^◌, ◌≡◌, refl, sym, ap, ◌∙◌, [], ◌∷◌, ◌++◌, length, subst, length-append,
  length-drop, le→leb, nat_ord, some, drop, take-append, drop-append, drop-drop, get_elem?-drop,
  arith,
}
use homebase.Prelude.Bytes.{Bytes, to_be_bytes, from_be-to_be, length-to_be_bytes}
use homebase.Key.{usize_max}
use homebase.Reader.{Reader, reader_new, read_u8, read_take, read_u32, read_u64, read_bytes16, rest}

-- The reader stands inside its bytes, which a `usize` counts, and `s` is what is left.
pub record Before (r : Reader) (s : Bytes) : Type 0 where
  pub left : drop r.position r.bytes ≡ s
  pub inside : r.position ≤ length r.bytes
  pub fits : length r.bytes ≤ usize_max

abbrev pub skip : ℕ → Reader → Reader
skip n r = record r { position = r.position + n }

pub Before-new : (s : Bytes) → length s ≤ usize_max → Before (reader_new s) s
Before-new s h = record { left = refl; inside = omega arith; fits = h }

pub rest-Before : (r : Reader) (s : Bytes) → Before r s → rest r ≡ s
unfolding rest
rest-Before r s b = b.left

pub left_length : (r : Reader) (s : Bytes) → Before r s → r.position + length s ≡ length r.bytes
left_length r s b =
    omega (arith, ap (length {A = ℕ}) b.left, length-drop r.position r.bytes, b.inside)

skip-Before : (r : Reader) (v s : Bytes) → Before r (v ++ s) → Before (skip (length v) r) s
skip-Before r v s b = record {
  left =
      sym (drop-drop r.position (length v) r.bytes)
      ∙ ap (drop (length v)) b.left
      ∙ drop-append (length v) v s refl;
  inside = omega (arith, left_length r (v ++ s) b, length-append v s);
  fits = b.fits;
}

pub read_take_lem :
    (n : ℕ) (r : Reader) (v s : Bytes)
    → length v ≡ n
    → Before r (v ++ s)
    → (read_take r n ≡ some (v, skip n r)) × Before (skip n r) s
unfolding read_take
read_take_lem n r v s e b =
    let c = skip-Before r v s b in
    let i : r.position + n ≤ length r.bytes =
      omega (arith, left_length r (v ++ s) b, length-append v s) in
    (
      rw (
        le→leb (r.position + n) usize_max (omega (arith, b.fits)),
        le→leb (r.position + n) (length r.bytes) i,
        b.left,
        take-append n v s e,
      ),
      subst (λ (k : ℕ). Before (skip k r) s) e c,
    )

pub read_u8_lem :
    (r : Reader) (v : ℕ) (s : Bytes)
    → Before r (v ∷ s)
    → (read_u8 r ≡ some (v, skip 1 r)) × Before (skip 1 r) s
unfolding read_u8
read_u8_lem r v s b = (rw (get_elem?-drop r.position r.bytes, b.left), skip-Before r (v ∷ []) s b)

module _ (r : Reader) (v : ℕ) (s : Bytes) where
  pub read_u32_lem :
      v < 256 ^ 4
      → Before r (to_be_bytes 4 v ++ s)
      → (read_u32 r ≡ some (v, skip 4 r)) × Before (skip 4 r) s
  unfolding read_u32
  read_u32_lem h b =
      let (e, c) = read_take_lem 4 r (to_be_bytes 4 v) s (length-to_be_bytes 4 v) b in
      (rw (e, from_be-to_be 4 v h), c)

  pub read_u64_lem :
      v < 256 ^ 8
      → Before r (to_be_bytes 8 v ++ s)
      → (read_u64 r ≡ some (v, skip 8 r)) × Before (skip 8 r) s
  unfolding read_u64
  read_u64_lem h b =
      let (e, c) = read_take_lem 8 r (to_be_bytes 8 v) s (length-to_be_bytes 8 v) b in
      (rw (e, from_be-to_be 8 v h), c)

pub read_bytes16_lem :
    (r : Reader) (v s : Bytes)
    → length v ≡ 16
    → Before r (v ++ s)
    → (read_bytes16 r ≡ some (v, skip 16 r)) × Before (skip 16 r) s
unfolding read_bytes16
read_bytes16_lem r v s h b = read_take_lem 16 r v s h b
