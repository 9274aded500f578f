-- ===== src/Base/Text/Decimal.antt =====
-- Decimal numerals: `to_string` of an unsigned integer.
use Prim.Native.Nat.{ℕ, zero, suc, ◌/◌, ◌%◌}
use Prim.Native.Char.{Char, char}
use Prim.Native.String.{String}
use trilithon.Base.Tests.{ltb, if◌then◌else◌}

-- The digit 0 to 9 as a character; the program asks for no other.
digit : ℕ → Char
digit zero = char b'0' tt
digit (suc zero) = char b'1' tt
digit (suc (suc zero)) = char b'2' tt
digit (suc (suc (suc zero))) = char b'3' tt
digit (suc (suc (suc (suc zero)))) = char b'4' tt
digit (suc (suc (suc (suc (suc zero))))) = char b'5' tt
digit (suc (suc (suc (suc (suc (suc zero)))))) = char b'6' tt
digit (suc (suc (suc (suc (suc (suc (suc zero))))))) = char b'7' tt
digit (suc (suc (suc (suc (suc (suc (suc (suc zero)))))))) = char b'8' tt
digit _ = char b'9' tt

-- A number has at most as many decimal digits as its successor has units, so fuel `suc n` is enough.
show : ℕ → ℕ → String → String
unfolding digit
show zero n acc = acc
show (suc fuel) n acc =
    let more = show fuel (n / 10) (String.◌∷◌ (digit (n % 10)) acc) in
    if ltb n 10 then String.◌∷◌ (digit n) acc else more

-- `n.to_string()`
unfoldable pub to_string : ℕ → String
unfolding show
to_string n = show (suc n) n String.[]
