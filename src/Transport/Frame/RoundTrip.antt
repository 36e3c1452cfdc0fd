-- ===== src/Transport/Frame/RoundTrip.antt =====
-- A frame that was written is read back (bloc-node/internal/app/transport_libp2p_frame.go).
use native.Mathlib.Nat.{pow-suc, add-mul, mul_assoc}
use mathlib.Core.List.{append_assoc}
use bloc.Prelude.{
  ℕ, zero, suc, ◌+◌, ◌-◌, ◌*◌, ◌/◌, ◌%◌, ◌^◌, ◌<◌, ◌≡◌, refl, subst, ap, ap₂, ◌∙◌, true, false,
  some, [], ◌∷◌, ◌++◌, arith, ltb, leb, if◌then◌else◌, if_cases, length, length-append, Bool-cases,
  inl, inr, take-append, drop-append,
}
use bloc.Prelude.Bytes.{Bytes}
use bloc.Transport.Frame.{
  put_uvarint, value, read_uvarint, payload, refused, too_large, read_payload, write_envelope_frame,
  read_envelope_frame,
}

split_weight : (n w : ℕ) → (n % 128) * w + (n / 128) * (128 * w) ≡ n * w
split_weight n w =
    let a = add-mul (n % 128) (n / 128 * 128) w in
    let b = mul_assoc (n / 128) 128 w in
    let whole : n % 128 + n / 128 * 128 ≡ n = omega arith in
    let c : (n % 128 + n / 128 * 128) * w ≡ n * w = ap (λ m. m * w) whole in omega arith

put-low : (fuel n : ℕ) → ltb n 128 ≡ true → put_uvarint (suc fuel) n ≡ n ∷ []
unfolding put_uvarint
put-low fuel n e = rw (e, put_uvarint) refl

put-high :
    (fuel n : ℕ)
    → ltb n 128 ≡ false
    → put_uvarint (suc fuel) n ≡ (n % 128 + 128) ∷ put_uvarint fuel (n / 128)
unfolding put_uvarint
put-high fuel n e = rw (e, put_uvarint) refl

read-low :
    (left x w b : ℕ) (bs : Bytes)
    → ltb b 128 ≡ true
    → read_uvarint (suc (suc left)) x w (b ∷ bs) ≡ value (x + b * w) bs
unfolding read_uvarint
read-low left x w b bs e = ground arith

read-high :
    (left x w b : ℕ) (bs : Bytes)
    → ltb b 128 ≡ false
    → read_uvarint (suc left) x w (b ∷ bs) ≡ read_uvarint left (x + (b - 128) * w) (128 * w) bs
unfolding read_uvarint
read-high left x w b bs e = rw (e, read_uvarint) refl

read-last : (x w b : ℕ) (bs : Bytes) → b < 2 → read_uvarint 1 x w (b ∷ bs) ≡ value (x + b * w) bs
unfolding read_uvarint
read-last x w b bs h = ground arith

-- Within the bytes that may still come, a number is read back from what was put for it.
read-put :
    (left n x w : ℕ) (rest : Bytes)
    → n < 2 * 128 ^ left
    → read_uvarint (suc left) x w (put_uvarint (suc left) n ++ rest) ≡ value (x + n * w) rest
read-put zero n x w rest small = rw (put-low zero n (ground arith)) (read-last x w n rest small)
read-put (suc left) n x w rest small = elim (Bool-cases (ltb n 128)) [
  | inl e ↦ rw (put-low (suc left) n e) (read-low left x w n rest e)
  | inr e ↦
      let q : n / 128 < 2 * 128 ^ left = omega (arith, pow-suc 128 left) in
      let moved : n % 128 + 128 - 128 ≡ n % 128 = omega arith in
      let sum : x + n % 128 * w + n / 128 * (128 * w) ≡ x + n * w =
        omega (arith, split_weight n w) in
      rw (put-high (suc left) n e) (
        read-high (suc left) x w (n % 128 + 128) (put_uvarint (suc left) (n / 128) ++ rest)
          (ground arith)
        ∙ (rw moved (read-put left (n / 128) (x + n % 128 * w) (128 * w) rest q)
            ∙ ap (λ v. value v rest) sum))
]

read-payload : (p rest : Bytes) → read_payload (length p) (p ++ rest) ≡ payload p rest
read-payload p rest =
    if_cases (λ f. f ≡ payload p rest) (ltb (length (p ++ rest)) (length p)) _ _
      (λ e. absurd (short (length-append p rest) e))
      (λ e. ap₂ payload (take-append (length p) p rest refl) (drop-append (length p) p rest refl))
  where
    short :
        length (p ++ rest) ≡ length p + length rest → ltb (length (p ++ rest)) (length p) ≡ true → ⊥
    short n e = ground arith

some_same : (a b : Bytes) → some a ≡ some b → a ≡ b
some_same a b h = cc

written :
    (p bytes : Bytes)
    → 0 < length p
    → write_envelope_frame p ≡ some bytes
    → put_uvarint 10 (length p) ++ p ≡ bytes
unfolding write_envelope_frame
written [] bytes pos h = absurd (omega arith)
written (c ∷ p) bytes pos h = some_same _ bytes h

read-length :
    (n : ℕ) (p rest : Bytes)
    → n < 2 ^ 63
    → read_uvarint 10 0 1 ((put_uvarint 10 n ++ p) ++ rest) ≡ value n (p ++ rest)
read-length n p rest small =
    rw (append_assoc (put_uvarint 10 n) p rest)
      (read-put 9 n 0 1 (p ++ rest) (omega arith) ∙ ap (λ m. value m (p ++ rest)) (omega arith))

read-frame :
    (max : ℕ) (p rest : Bytes)
    → 0 < max
    → 0 < length p
    → length p < 2 ^ 63
    → read_envelope_frame max ((put_uvarint 10 (length p) ++ p) ++ rest)
      ≡ (if leb (length p) max then payload p rest else refused too_large)
unfolding read_envelope_frame
read-frame max p rest pos some_bytes small =
    let full = read-payload p rest in rw (read-length (length p) p rest small) (ground arith)

-- Let a payload that is not empty, of a length below 2 ^ 63, be written as a frame. Whatever
-- follows it in the stream, and under any maximum but 0, the frame is read back as the payload,
-- and the rest left, where the maximum allows its length, and refused as too large otherwise.
pub read-write :
    (max : ℕ) (p bytes rest : Bytes)
    → 0 < max
    → 0 < length p
    → length p < 2 ^ 63
    → write_envelope_frame p ≡ some bytes
    → read_envelope_frame max (bytes ++ rest)
      ≡ (if leb (length p) max then payload p rest else refused too_large)
read-write max p bytes rest pos some_bytes small h =
    subst
      (λ b.
        read_envelope_frame max (b ++ rest)
        ≡ (if leb (length p) max then payload p rest else refused too_large))
      (written p bytes some_bytes h) (read-frame max p rest pos some_bytes small)
