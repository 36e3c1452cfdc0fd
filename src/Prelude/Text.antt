-- ===== src/Prelude/Text.antt =====
-- What the source uses of Go's `strings` and of decimal numbers, over byte strings. Letters and
-- spaces are those of ASCII.
use Prim.Native.Nat.{ℕ, zero, suc, ◌/◌, ◌%◌, ◌+◌, ◌-◌, ◌*◌}
use mathlib.Core.Bool.{Bool, true, false, ◌&&◌, ◌||◌}
use mathlib.Core.List.{List, [], ◌∷◌, ◌++◌, map, reverse}
use mathlib.Core.Option.{Option, none, some}
use bloc.Prelude.Tests.{ltb, ◌==◌, leb, if◌then◌else◌}
use bloc.Prelude.Bytes.{Bytes}

abbrev pub lower : ℕ → ℕ
lower c = if leb b'A' c && leb c b'Z' then c + 32 else c

-- strings.ToLower.
abbrev pub to_lower : Bytes → Bytes
to_lower s = map lower s

-- strings.TrimPrefix(s, "0x").
abbrev pub trim_0x : Bytes → Bytes
trim_0x [] = []
trim_0x (a ∷ []) = a ∷ []
trim_0x (a ∷ b ∷ s) = if a == b'0' && b == b'x' then s else a ∷ b ∷ s

abbrev pub is_space : ℕ → Bool
is_space c = c == 32 || leb 9 c && leb c 13

abbrev pub trim_left : Bytes → Bytes
trim_left [] = []
trim_left (c ∷ s) = let rest = trim_left s in if is_space c then rest else c ∷ s

-- strings.TrimSpace.
abbrev pub trim_space : Bytes → Bytes
trim_space s = reverse (trim_left (reverse (trim_left s)))

abbrev pub is_digit : ℕ → Bool
is_digit c = leb b'0' c && leb c b'9'

abbrev pub digits_from : ℕ → Bytes → Option ℕ
digits_from acc [] = some acc
digits_from acc (c ∷ s) =
    let rest = digits_from (acc * 10 + (c - b'0')) s in if is_digit c then rest else none

abbrev pub decimal : Bytes → Option ℕ
decimal [] = none
decimal (c ∷ s) = digits_from 0 (c ∷ s)

-- big.Int.SetString(s, 10) together with the refusal of a negative value: `-0` is not negative.
abbrev pub signed_decimal : Bytes → Option ℕ
signed_decimal [] = none
signed_decimal (c ∷ s) =
    if c == b'+'
    then decimal s
    else if c == b'-'
    then elim (decimal s) [ none ↦ none | some n ↦ if n == 0 then some 0 else none ]
    else decimal (c ∷ s)

-- strings.Join.
abbrev pub join : Bytes → List Bytes → Bytes
join sep [] = []
join sep (s ∷ []) = s
join sep (s ∷ t ∷ ss) = s ++ (sep ++ join sep (t ∷ ss))

-- The decimal digits of a number below 10 to the power of the fuel.
abbrev digits : ℕ → ℕ → Bytes
digits zero n = []
digits (suc fuel) n = elim (ltb n 10) [
  | true ↦ (b'0' + n) ∷ []
  | false ↦ digits fuel (n / 10) ++ (b'0' + n % 10) ∷ []
]

-- %d, and big.Int.String.
unfoldable pub decimal_text : ℕ → Bytes
decimal_text n = digits (n + 1) n
