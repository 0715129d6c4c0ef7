-- ===== src/Common/Text.antt =====
-- Go's `strings` functions that the program uses, on texts of code points.
pub mod Edit
use Prim.Native.Char.{code}
use Prim.Native.Nat.{ℕ, zero, suc, ◌/◌, ◌%◌}
use Prim.Native.String.{String, ◌++◌ as ◌<>◌}
use mathlib.Core.Bool.{Bool, true, false, ◌||◌, ◌&&◌}
use radiant_prj.Common.Tests.{leb, ◌==ℕ◌, if◌then◌else◌}

-- `unicode.IsSpace`
unfoldable pub is_space : ℕ → Bool
is_space c =
    (leb 9 c && leb c 13)
    || c ==ℕ 32
    || c ==ℕ 0x85
    || c ==ℕ 0xA0
    || c ==ℕ 0x1680
    || (leb 0x2000 c && leb c 0x200A)
    || c ==ℕ 0x2028
    || c ==ℕ 0x2029
    || c ==ℕ 0x202F
    || c ==ℕ 0x205F
    || c ==ℕ 0x3000

unfoldable pub is_blank : String → Bool
is_blank String.[] = true
is_blank (String.◌∷◌ c s) = is_space (code c) && is_blank s

trim_left : String → String
trim_left String.[] = String.[]
trim_left (String.◌∷◌ c s) = if is_space (code c) then trim_left s else String.◌∷◌ c s

trim_right : String → String
trim_right String.[] = String.[]
trim_right (String.◌∷◌ c s) =
    if is_space (code c) && is_blank s then String.[] else String.◌∷◌ c (trim_right s)

-- `strings.TrimSpace`
unfoldable pub trim_space : String → String
unfolding trim_left trim_right is_space is_blank
trim_space s = trim_right (trim_left s)

-- `^[A-Za-z0-9][A-Za-z0-9_.:-]{0,127}$`
is_alnum : ℕ → Bool
is_alnum c = (leb b'A' c && leb c b'Z') || (leb b'a' c && leb c b'z') || (leb b'0' c && leb c b'9')

is_id_char : ℕ → Bool
unfolding is_alnum
is_id_char c = is_alnum c || c ==ℕ b'_' || c ==ℕ b'.' || c ==ℕ b':' || c ==ℕ b'-'

-- At most `n` further characters.
id_tail : ℕ → String → Bool
id_tail n String.[] = true
id_tail zero (String.◌∷◌ c s) = false
id_tail (suc n) (String.◌∷◌ c s) = is_id_char (code c) && id_tail n s

-- `runIDPattern.MatchString`
unfoldable pub matches_run_id : String → Bool
unfolding is_alnum is_id_char id_tail
matches_run_id String.[] = false
matches_run_id (String.◌∷◌ c s) = is_alnum (code c) && id_tail 127 s

digit : ℕ → String
digit d =
    if d ==ℕ 0
    then "0"
    else if d ==ℕ 1
    then "1"
    else if d ==ℕ 2
    then "2"
    else if d ==ℕ 3
    then "3"
    else if d ==ℕ 4
    then "4"
    else if d ==ℕ 5
    then "5"
    else if d ==ℕ 6
    then "6"
    else if d ==ℕ 7
    then "7"
    else if d ==ℕ 8
    then "8"
    else "9"

-- At most `fuel` digits, the last one first.
show_digits : ℕ → ℕ → String → String
show_digits zero n acc = acc
show_digits (suc fuel) n acc =
    let rest = show_digits fuel (n / 10) (digit (n % 10) <> acc) in
    if leb n 9 then digit n <> acc else rest

-- `%d`: `n + 1` is more than the digits of `n`.
unfoldable pub show_ℕ : ℕ → String
unfolding show_digits digit
show_ℕ n = show_digits (suc n) n ""
