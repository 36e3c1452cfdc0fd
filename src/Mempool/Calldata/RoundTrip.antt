-- ===== src/Mempool/Calldata/RoundTrip.antt =====
-- Calldata that `buildPlaceholderCalldata` builds is parsed back (mempool-il/internal/mempool).
use mathlib.Core.List.{reverse, reverse-reverse, reverse-cons, append_assoc}
use native.Mathlib.Nat.{pow-suc}
use bloc.Prelude.{
  ℕ, zero, suc, ◌+◌, ◌*◌, ◌/◌, ◌%◌, ◌^◌, ◌<◌, ◌≡◌, refl, ap, ap₂, true, false, some, [], ◌∷◌, ◌++◌,
  arith, leb, if_cases, length, length-append, is_nil, take, drop, take-append, drop-append, All,
  All-append,
}
use bloc.Prelude.Bytes.{Bytes}
use bloc.Prelude.Text.{lower, to_lower, is_space, trim_left, trim_space}
use bloc.Mempool.{PlaceholderData}
use bloc.Mempool.Calldata.{
  Parsed, parsed, hex_digit, hex_encode, hex_value, hex_decode, prefixed, of_bytes, fill_bytes,
  placeholder_selector, parse_words, parse_placeholder_calldata, build_placeholder_calldata,
}

abbrev IsByte : ℕ → Type 0
IsByte b = b < 256

-- A character that neither `ToLower` nor `TrimSpace` touches.
abbrev IsPlain : ℕ → Type 0
IsPlain c = (lower c ≡ c) × (is_space c ≡ false)

hex_value-digit : (d : ℕ) → d < 16 → hex_value (hex_digit d) ≡ some d
hex_value-digit d h = ground arith

hex_decode-encode : (bs : Bytes) → All IsByte bs → hex_decode (hex_encode bs) ≡ some bs
hex_decode-encode [] h = refl
hex_decode-encode (b ∷ bs) h =
    rw
      (
        hex_value-digit (b / 16) (omega (arith, h.0)),
        hex_value-digit (b % 16) (omega arith),
        hex_decode-encode bs h.1,
      )
      (ap (λ x. some (x ∷ bs)) (omega arith))

hex_digit-IsPlain : (d : ℕ) → d < 16 → IsPlain (hex_digit d)
hex_digit-IsPlain d h = ground arith

hex_encode-IsPlain : (bs : Bytes) → All IsByte bs → All IsPlain (hex_encode bs)
hex_encode-IsPlain [] h = tt
hex_encode-IsPlain (b ∷ bs) h = (
  hex_digit-IsPlain (b / 16) (omega (arith, h.0)),
  (hex_digit-IsPlain (b % 16) (omega arith), hex_encode-IsPlain bs h.1),
)

to_lower_plain : (s : Bytes) → All IsPlain s → to_lower s ≡ s
to_lower_plain [] h = refl
to_lower_plain (c ∷ s) h = ap₂ ◌∷◌ h.0.0 (to_lower_plain s h.1)

trim_left_plain : (s : Bytes) → All IsPlain s → trim_left s ≡ s
trim_left_plain [] h = refl
trim_left_plain (c ∷ s) h = ground arith

reverse-IsPlain : (s : Bytes) → All IsPlain s → All IsPlain (reverse s)
reverse-IsPlain [] h = tt
reverse-IsPlain (c ∷ s) h =
    rw (reverse-cons c s)
      (All-append IsPlain (reverse s) (c ∷ []) (reverse-IsPlain s h.1) (h.0, tt))

trim_space_plain : (s : Bytes) → All IsPlain s → trim_space s ≡ s
trim_space_plain s h =
    rw (trim_left_plain s h, trim_left_plain (reverse s) (reverse-IsPlain s h)) (reverse-reverse s)

of_bytes-append_one :
    (acc : ℕ) (bs : Bytes) (b : ℕ) → of_bytes acc (bs ++ b ∷ []) ≡ of_bytes acc bs * 256 + b
of_bytes-append_one acc [] b = refl
of_bytes-append_one acc (c ∷ bs) b = of_bytes-append_one (acc * 256 + c) bs b

pub of_bytes-fill : (k v : ℕ) → v < 256 ^ k → of_bytes 0 (fill_bytes k v) ≡ v
unfolding fill_bytes
of_bytes-fill zero v h = omega arith
of_bytes-fill (suc k) v h =
    let e = of_bytes-append_one 0 (fill_bytes k (v / 256)) (v % 256) in
    let p = pow-suc 256 k in let ih = of_bytes-fill k (v / 256) (omega arith) in omega arith

pub length-fill : (k v : ℕ) → length (fill_bytes k v) ≡ k
unfolding fill_bytes
length-fill zero v = refl
length-fill (suc k) v =
    omega (arith, length-append (fill_bytes k (v / 256)) (v % 256 ∷ []), length-fill k (v / 256))

fill-IsByte : (k v : ℕ) → All IsByte (fill_bytes k v)
unfolding fill_bytes
fill-IsByte zero v = tt
fill-IsByte (suc k) v =
    All-append IsByte (fill_bytes k (v / 256)) _ (fill-IsByte k (v / 256)) (omega arith, tt)

abbrev layout : (Bytes → Bytes) → Bytes → Bytes → ℕ → ℕ → PlaceholderData
layout hash_hex target payload gas n = record {
  commitment_hex = prefixed (hex_encode target);
  requested_gas = gas;
  encrypted_payload_hex = prefixed (hex_encode payload);
  encrypted_payload_hash = prefixed (hash_hex payload);
  calldata_bytes = n;
}

-- The fields of calldata laid out as they should be.
parse_words-layout :
    (hash_hex : Bytes → Bytes) (target word payload : Bytes) (gas : ℕ)
    → length target ≡ 32
    → length word ≡ 32
    → of_bytes 0 word ≡ gas
    → gas < 2 ^ 64
    → 0 < length payload
    → parse_words hash_hex (placeholder_selector ++ (target ++ (word ++ payload)))
      ≡ parsed (record {
        commitment_hex = prefixed (hex_encode target);
        requested_gas = gas;
        encrypted_payload_hex = prefixed (hex_encode payload);
        encrypted_payload_hash = prefixed (hash_hex payload);
        calldata_bytes = 68 + length payload;
      })
parse_words-layout hash_hex target word payload gas t w v g p =
    let rest = target ++ (word ++ payload) in
    let e1 : take 32 rest ≡ target = take-append 32 target (word ++ payload) t in
    let e2 : drop 32 rest ≡ word ++ payload = drop-append 32 target (word ++ payload) t in
    let e3 : take 32 (word ++ payload) ≡ word = take-append 32 word payload w in
    let both : length (target ++ word) ≡ 64 = omega (arith, length-append target word) in
    let e4 : drop 64 rest ≡ payload =
      rw (← append_assoc target word payload) (drop-append 64 (target ++ word) payload both) in
    let n : length rest ≡ 64 + length payload =
      omega (arith, length-append target (word ++ payload), length-append word payload) in
    let Done : Parsed → Type 0 =
      λ r. r ≡ parsed (layout hash_hex target payload gas (68 + length payload)) in
    if_cases Done (leb (length (placeholder_selector ++ rest)) 68) _ _ (λ e. absurd (long n e))
      (λ e.
        rw (e4, e2, e1, e3, v)
          (if_cases Done (leb (2 ^ 64) gas) _ _ (λ big. absurd (small g big))
            (λ fit. ap (λ n. parsed (layout hash_hex target payload gas n)) (omega arith))))
  where
    long :
        length (target ++ (word ++ payload)) ≡ 64 + length payload
        → leb (length (placeholder_selector ++ (target ++ (word ++ payload)))) 68 ≡ true
        → ⊥
    long n e = ground arith

    small : gas < 2 ^ 64 → leb (2 ^ 64) gas ≡ true → ⊥
    small g big = ground arith

selector-IsByte : All IsByte placeholder_selector
selector-IsByte = omega arith

build-IsByte :
    (target payload : Bytes) (gas : ℕ)
    → All IsByte target
    → All IsByte payload
    → All IsByte (build_placeholder_calldata target gas payload)
unfolding build_placeholder_calldata
build-IsByte target payload gas t p = All-append IsByte placeholder_selector _ selector-IsByte (
    All-append IsByte target _ t
      (All-append IsByte (fill_bytes 32 gas) payload (fill-IsByte 32 gas) p))

prefixed-IsPlain : (s : Bytes) → All IsPlain s → All IsPlain (prefixed s)
prefixed-IsPlain s h = ((refl, refl), ((refl, refl), h))

not_nil-build :
    (target payload : Bytes) (gas : ℕ)
    → is_nil (hex_encode (build_placeholder_calldata target gas payload)) ≡ false
unfolding build_placeholder_calldata
not_nil-build target payload gas = refl

parse_words-build :
    (hash_hex : Bytes → Bytes) (target payload : Bytes) (gas : ℕ)
    → length target ≡ 32
    → gas < 2 ^ 64
    → 0 < length payload
    → parse_words hash_hex (build_placeholder_calldata target gas payload)
      ≡ parsed (layout hash_hex target payload gas (68 + length payload))
unfolding build_placeholder_calldata
parse_words-build hash_hex target payload gas t g p =
    parse_words-layout hash_hex target (fill_bytes 32 gas) payload gas t (length-fill 32 gas)
      (of_bytes-fill 32 gas (omega arith)) g p

-- The hexadecimal text of calldata that was built from a 32-byte hash, gas that fits a uint64 and
-- a payload that is not empty, both hash and payload being bytes, is parsed to exactly these
-- three, the payload's hash and the length.
pub parse-build :
    (hash_hex : Bytes → Bytes) (target payload : Bytes) (gas : ℕ)
    → length target ≡ 32
    → All IsByte target
    → gas < 2 ^ 64
    → 0 < length payload
    → All IsByte payload
    → parse_placeholder_calldata hash_hex
        (prefixed (hex_encode (build_placeholder_calldata target gas payload)))
      ≡ parsed (record {
        commitment_hex = prefixed (hex_encode target);
        requested_gas = gas;
        encrypted_payload_hex = prefixed (hex_encode payload);
        encrypted_payload_hash = prefixed (hash_hex payload);
        calldata_bytes = 68 + length payload;
      })
unfolding parse_placeholder_calldata
parse-build hash_hex target payload gas t bt g p bp =
    let built = build_placeholder_calldata target gas payload in
    let bytes = build-IsByte target payload gas bt bp in
    let plain = prefixed-IsPlain (hex_encode built) (hex_encode-IsPlain built bytes) in
    let low = to_lower_plain (hex_encode built) (hex_encode-IsPlain built bytes) in
    rw (trim_space_plain (prefixed (hex_encode built)) plain, low)
      (rw (not_nil-build target payload gas, hex_decode-encode built bytes)
        (parse_words-build hash_hex target payload gas t g p))
