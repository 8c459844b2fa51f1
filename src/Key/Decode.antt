-- ===== src/Key/Decode.antt =====
-- `decode_components` against `encode_components` (core/src/key.rs).
use homebase.Prelude.{
  ℕ, zero, suc, ◌+◌, ◌≤◌, ◌<◌, ◌≡◌, refl, sym, ap, ◌∙◌, Bool, true, false, List, [], ◌∷◌, ◌++◌,
  length, length-append, append_assoc, append-nil, ltb, ◌==◌, ok, err, All, All-append, nat_ord,
  arith, Bool-cases, inl, inr, subst, ◌⊎◌,
}
use homebase.Prelude.Bytes.{Bytes}
use homebase.Key.{
  KeyComponent, IsComponent, invalid_key, component_new, empty_component, component_too_long,
  escape, max_component_len, DecodeError, KeyError, encode_components, push_component_byte,
  decode_loop, decode_components,
}

-- Reading the bytes of one component, behind the bytes that are already in `current`.
decode_loop-escape :
    (c : Bytes) (i : ℕ) (boundary : Bool) (components : List KeyComponent) (current rest : Bytes)
    → length current + length c ≤ max_component_len
    → 0 < length current + length c
    → (j : ℕ) × (decode_loop i boundary components current (escape c ++ 0 ∷ 0 ∷ rest)
        ≡ decode_loop j true (components ++ (current ++ c) ∷ []) [] rest)
unfolding decode_loop escape
decode_loop-escape [] i boundary components current rest fits some' =
    (i + 2, rw append-nil (ground arith))
decode_loop-escape (zero ∷ c) i boundary components current rest fits some' =
    let (j, e) =
      decode_loop-escape c (i + 2) false components (current ++ 0 ∷ []) rest
        (omega (arith, length-append current (0 ∷ [])))
        (omega (arith, length-append current (0 ∷ []))) in
    (j, ground (arith, e, append_assoc current (0 ∷ []) c))
decode_loop-escape (suc b ∷ c) i boundary components current rest fits some' =
    let (j, e) =
      decode_loop-escape c (i + 1) false components (current ++ suc b ∷ []) rest
        (omega (arith, length-append current (suc b ∷ [])))
        (omega (arith, length-append current (suc b ∷ []))) in
    (j, ground (arith, e, append_assoc current (suc b ∷ []) c))

decode_loop-encode :
    (cs : List KeyComponent) (i : ℕ) (components : List KeyComponent)
    → All IsComponent cs
    → decode_loop i true components [] (encode_components cs) ≡ ok (components ++ cs)
unfolding encode_components
decode_loop-encode [] i components h = unfold decode_loop in rw append-nil
decode_loop-encode (c ∷ cs) i components (h, hs) =
    let (j, e) =
      decode_loop-escape c i true components [] (encode_components cs) (omega arith)
        (omega arith) in
    e
    ∙ decode_loop-encode cs j (components ++ c ∷ []) hs
    ∙ ap ok (append_assoc components (c ∷ []) cs)

-- Every sequence of valid components is read back from its encoding.
pub decode_components-encode :
    (cs : List KeyComponent) → All IsComponent cs → decode_components (encode_components cs) ≡ ok cs
unfolding decode_components
decode_components-encode cs h = decode_loop-encode cs 0 [] h

escape-append : (x y : Bytes) → escape (x ++ y) ≡ escape x ++ escape y
unfolding escape
escape-append [] y = refl
escape-append (zero ∷ x) y = ap (λ (r : Bytes). 0 ∷ 1 ∷ r) (escape-append x y)
escape-append (suc b ∷ x) y = ap (λ (r : Bytes). suc b ∷ r) (escape-append x y)

encode_components-append :
    (cs ds : List KeyComponent)
    → encode_components (cs ++ ds) ≡ encode_components cs ++ encode_components ds
unfolding encode_components
encode_components-append [] ds = refl
encode_components-append (c ∷ cs) ds =
    ap (λ (r : Bytes). escape c ++ 0 ∷ 0 ∷ r) (encode_components-append cs ds)
    ∙ sym (append_assoc (escape c) (0 ∷ 0 ∷ encode_components cs) (encode_components ds))

component_new-cases :
    (c : Bytes)
    → ((component_new c ≡ ok c) × IsComponent c) ⊎ ((e : KeyError) × (component_new c ≡ err e))
unfolding component_new
component_new-cases c = elim (Bool-cases (length c == 0)) [
  | inl e ↦ inr (empty_component, rw e)
  | inr n ↦ elim (Bool-cases (ltb max_component_len (length c))) [
    | inl e ↦ inr (component_too_long (length c), rw (n, e))
    | inr m ↦ inl (rw (n, m), (ground arith, ground arith))
  ]
]

push_component_byte-cases :
    (cur : Bytes) (b : ℕ)
    → length cur ≤ max_component_len
    → ((push_component_byte cur b ≡ ok (cur ++ b ∷ []))
        × (length (cur ++ b ∷ []) ≤ max_component_len))
      ⊎ ((e : DecodeError) × (push_component_byte cur b ≡ err e))
unfolding push_component_byte
push_component_byte-cases cur b h = elim (Bool-cases (length cur == max_component_len)) [
  | inl e ↦ inr (invalid_key (component_too_long (length cur + 1)), rw e)
  | inr n ↦ inl (rw n, ground (arith, length-append cur (b ∷ [])))
]

Accepted : List KeyComponent → Bytes → Bytes → List KeyComponent → Type 0
Accepted components current bytes out =
    (encode_components components ++ (escape current ++ bytes) ≡ encode_components out)
    × All IsComponent out

-- A byte that `push_component_byte` takes, `e` being how it is written.
pushed :
    (components : List KeyComponent) (current e rest : Bytes) (b : ℕ) (out : List KeyComponent)
    → escape (b ∷ []) ≡ e
    → Accepted components (current ++ b ∷ []) rest out
    → Accepted components current (e ++ rest) out
unfolding Accepted
pushed components current e rest b out h a = (
  ap (λ (r : Bytes). encode_components components ++ r)
        (sym (append_assoc (escape current) e rest)
          ∙ ap (λ (r : Bytes). r ++ rest)
              (ap (λ (r : Bytes). escape current ++ r) (sym h)
                ∙ sym (escape-append current (b ∷ []))))
      ∙ a.0,
  a.1,
)

encode_components-snoc :
    (cs : List KeyComponent) (c rest : Bytes)
    → encode_components (cs ++ c ∷ []) ++ rest ≡ encode_components cs ++ (escape c ++ 0 ∷ 0 ∷ rest)
encode_components-snoc cs c rest =
    ap (λ (r : Bytes). r ++ rest) (encode_components-append cs (c ∷ []))
    ∙ append_assoc (encode_components cs) (encode_components (c ∷ [])) rest
    ∙ ap (λ (r : Bytes). encode_components cs ++ r) last
  where
    last : encode_components (c ∷ []) ++ rest ≡ escape c ++ 0 ∷ 0 ∷ rest
    last = unfold encode_components in append_assoc (escape c) (0 ∷ 0 ∷ []) rest

accepted-nil :
    (components : List KeyComponent)
    → encode_components components ++ (escape [] ++ []) ≡ encode_components components
unfolding escape
accepted-nil components = append-nil (encode_components components)

-- A component that `component_new` takes at its terminator.
closed :
    (components : List KeyComponent) (current rest : Bytes) (out : List KeyComponent)
    → Accepted (components ++ current ∷ []) [] rest out
    → Accepted components current (0 ∷ 0 ∷ rest) out
unfolding Accepted escape
closed components current rest out (p, q) =
    (sym (encode_components-snoc components current rest) ∙ p, q)

decode_loop_sound :
    (bs : Bytes) (i : ℕ) (boundary : Bool) (components : List KeyComponent) (current : Bytes)
    (out : List KeyComponent)
    → All IsComponent components
    → length current ≤ max_component_len
    → (boundary ≡ true → current ≡ [])
    → decode_loop i boundary components current bs ≡ ok out
    → Accepted components current bs out
unfolding decode_loop Accepted
decode_loop_sound [] i true components current out hs fits edge h =
    let e : components ≡ out = cc in
    (
      rw (edge refl) (accepted-nil components ∙ ap encode_components e),
      subst (All IsComponent) e hs,
    )
decode_loop_sound [] i false components current out hs fits edge h = cc
decode_loop_sound (zero ∷ []) i boundary components current out hs fits edge h = cc
decode_loop_sound (zero ∷ zero ∷ rest) i boundary components current out hs fits edge h =
    elim (component_new-cases current) [
      | inl (e, v) ↦ closed components current rest out (
          decode_loop_sound rest (i + 2) true (components ++ current ∷ []) [] out
            (All-append IsComponent components (current ∷ []) hs (v, tt)) (omega arith) (λ b. refl)
            (rw e at h))
      | inr (x, e) ↦ cc (rw e at h)
    ]
decode_loop_sound (zero ∷ suc zero ∷ rest) i boundary components current out hs fits edge h =
    elim (push_component_byte-cases current 0 fits) [
      | inl (e, v) ↦ pushed components current (0 ∷ 1 ∷ []) rest 0 out (unfold escape in refl) (
          decode_loop_sound rest (i + 2) false components (current ++ 0 ∷ []) out hs v (λ b. cc)
            (rw e at h))
      | inr (x, e) ↦ cc (rw e at h)
    ]
decode_loop_sound (zero ∷ suc (suc b) ∷ rest) i boundary components current out hs fits edge h = cc
decode_loop_sound (suc b ∷ rest) i boundary components current out hs fits edge h =
    elim (push_component_byte-cases current (suc b) fits) [
      | inl (e, v) ↦
          pushed components current (suc b ∷ []) rest (suc b) out (unfold escape in refl) (
            decode_loop_sound rest (i + 1) false components (current ++ suc b ∷ []) out hs v
              (λ b. cc) (rw e at h))
      | inr (x, e) ↦ cc (rw e at h)
    ]

-- What `decode_components` accepts is the encoding of the components that it returns, all valid.
pub decode_components_sound :
    (bs : Bytes) (cs : List KeyComponent)
    → decode_components bs ≡ ok cs
    → (encode_components cs ≡ bs) × All IsComponent cs
unfolding decode_components Accepted encode_components escape
decode_components_sound bs cs h =
    let (p, q) = decode_loop_sound bs 0 true [] [] cs tt (omega arith) (λ b. refl) h in (sym p, q)
