-- ===== src/Tlv/Encode/Key.antt =====
-- winrt/Projection.cpp, EncodePropertySet: the field number of a key, std::strtoul in base 10 on the
-- bytes of the key up to its first NUL. An unsigned long has 32 bits on Windows.
use matter_winrt.Base.{
  ℕ, ◌+◌, ◌-◌, ◌*◌, ◌%◌, min, Bool, true, false, ◌&&◌, ◌||◌, leb, ltb, ◌==◌, Option, none, some,
  List, [], ◌∷◌, if◌then◌else◌,
}

abbrev pub ulong_max : ℕ
ulong_max = 4294967295

unfoldable pub is_space : ℕ → Bool
is_space c = (c == 32) || (leb 9 c && leb c 13)

unfoldable pub is_digit : ℕ → Bool
is_digit c = leb 48 c && leb c 57

-- c_str(): the bytes before the first NUL.
unfoldable pub c_string : List ℕ → List ℕ
c_string [] = []
c_string (c ∷ cs) = let rest = c_string cs in if c == 0 then [] else c ∷ rest

unfoldable pub skip_spaces : List ℕ → List ℕ
unfolding is_space
skip_spaces [] = []
skip_spaces (c ∷ cs) = let rest = skip_spaces cs in if is_space c then rest else c ∷ cs

-- The digits, whether there was one, and where they end; the value stops above ULONG_MAX.
unfoldable pub digits : ℕ → Bool → List ℕ → Option (ℕ × List ℕ)
unfolding is_digit
digits n seen [] = if seen then some (n, []) else none
digits n seen (c ∷ cs) =
    let rest = digits (min (n * 10 + (c - 48)) (ulong_max + 1)) true cs in
    if is_digit c then rest else if seen then some (n, c ∷ cs) else none

-- What is above ULONG_MAX is ULONG_MAX, with a sign and without; a minus sign negates the rest.
unfoldable pub bounded : ℕ → ℕ
bounded n = min n ulong_max

unfoldable pub negated : ℕ → ℕ
negated n = if ltb ulong_max n then ulong_max else (ulong_max + 1 - n) % (ulong_max + 1)

unfoldable pub with_value : (ℕ → ℕ) → Option (ℕ × List ℕ) → Option (ℕ × List ℕ)
with_value f none = none
with_value f (some (n, end)) = some (f n, end)

unfoldable pub signed_number : List ℕ → Option (ℕ × List ℕ)
unfolding digits negated bounded with_value
signed_number [] = none
signed_number (c ∷ cs) =
    if c == 45
    then with_value negated (digits 0 false cs)
    else if c == 43
    then with_value bounded (digits 0 false cs)
    else with_value bounded (digits 0 false (c ∷ cs))

-- The number, where strtoul has read the whole key and it fits in a uint8_t.
unfoldable pub at_end : Option (ℕ × List ℕ) → Option ℕ
at_end none = none
at_end (some (n, [])) = if leb n 255 then some n else none
at_end (some (n, c ∷ cs)) = none

unfoldable pub field_number : List ℕ → Option ℕ
unfolding c_string skip_spaces signed_number at_end
field_number key = at_end (signed_number (skip_spaces (c_string key)))
