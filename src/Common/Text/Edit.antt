-- ===== src/Common/Text/Edit.antt =====
-- More of Go's `strings`, and `path.Join`, on texts of code points.
use Prim.Native.Char.{Char, code}
use Prim.Native.Nat.{ℕ, zero, suc, ◌-◌}
use Prim.Native.String.{String, ◌++◌ as ◌<>◌}
use mathlib.Core.Bool.{Bool, true, false, ◌||◌, ◌&&◌, not}
use mathlib.Core.List.{List, [], ◌∷◌, reverse}
use text.Mathlib.Text.{◌==◌}
use radiant_prj.Common.Tests.{leb, ◌==ℕ◌, if◌then◌else◌}

-- Every character is `c`.
only : ℕ → String → Bool
only c String.[] = true
only c (String.◌∷◌ x s) = code x ==ℕ c && only c s

-- `strings.TrimRight(s, "c")`
unfoldable pub trim_right_char : ℕ → String → String
unfolding only
trim_right_char c String.[] = String.[]
trim_right_char c (String.◌∷◌ x s) =
    let rest = trim_right_char c s in
    if code x ==ℕ c && only c s then String.[] else String.◌∷◌ x rest

trim_left_char : ℕ → String → String
trim_left_char c String.[] = String.[]
trim_left_char c (String.◌∷◌ x s) =
    let rest = trim_left_char c s in if code x ==ℕ c then rest else String.◌∷◌ x s

-- `strings.Trim(s, "c")`
unfoldable pub trim_char : ℕ → String → String
unfolding trim_left_char
trim_char c s = trim_right_char c (trim_left_char c s)

nth : ℕ → String → Char → Char
nth n String.[] d = d
nth zero (String.◌∷◌ x s) d = x
nth (suc n) (String.◌∷◌ x s) d = nth n s d

-- `unicode.ToLower` where the result is an ASCII letter: the capital letters, the sign for kelvin,
-- and the capital I with a dot. Any other character is kept.
lower : Char → Char
unfolding nth
lower x =
    if leb b'A' (code x) && leb (code x) b'Z'
    then nth (code x - b'A') "abcdefghijklmnopqrstuvwxyz" x
    else if code x ==ℕ 0x212A
    then nth 0 "k" x
    else if code x ==ℕ 0x130
    then nth 0 "i" x
    else x

unfoldable pub to_lower : String → String
unfolding lower
to_lower String.[] = String.[]
to_lower (String.◌∷◌ x s) = String.◌∷◌ (lower x) (to_lower s)

-- `strings.ReplaceAll(s, "c", "-")`
unfoldable pub dash_for : ℕ → String → String
dash_for c String.[] = String.[]
dash_for c (String.◌∷◌ x s) = (if code x ==ℕ c then "-" else String.◌∷◌ x String.[]) <> dash_for c s

is_name_char : ℕ → Bool
is_name_char c = (leb b'a' c && leb c b'z') || (leb b'0' c && leb c b'9') || c ==ℕ b'-'

-- `[^a-z0-9-]+` replaced by "-": `inside` says that the run has already been replaced.
dash_runs_from : Bool → String → String
unfolding is_name_char
dash_runs_from inside String.[] = String.[]
dash_runs_from inside (String.◌∷◌ x s) =
    let bad = not (is_name_char (code x)) in
    (if not bad then String.◌∷◌ x String.[] else if inside then String.[] else "-")
    <> dash_runs_from bad s

unfoldable pub dash_runs : String → String
unfolding dash_runs_from
dash_runs s = dash_runs_from false s

unfoldable pub take : ℕ → String → String
take zero s = String.[]
take (suc n) String.[] = String.[]
take (suc n) (String.◌∷◌ x s) = String.◌∷◌ x (take n s)

-- The number of characters is more than `n`.
unfoldable pub longer_than : ℕ → String → Bool
longer_than n String.[] = false
longer_than zero (String.◌∷◌ x s) = true
longer_than (suc n) (String.◌∷◌ x s) = longer_than n s

-- `strings.Cut(s, "c")`: what stands before the first `c`, what stands behind it, and if there is one.
unfoldable pub cut : ℕ → String → String × String × Bool
cut c String.[] = (String.[], String.[], false)
cut c (String.◌∷◌ x s) =
    let (before, after, found) = cut c s in
    if code x ==ℕ c then (String.[], s, true) else (String.◌∷◌ x before, after, found)

-- `strings.Split(s, "c")`
add_char : Char → List String → List String
add_char x [] = String.◌∷◌ x String.[] ∷ []
add_char x (p ∷ ps) = String.◌∷◌ x p ∷ ps

unfoldable pub split : ℕ → String → List String
unfolding add_char
split c String.[] = String.[] ∷ []
split c (String.◌∷◌ x s) =
    let rest = split c s in if code x ==ℕ c then String.[] ∷ rest else add_char x rest

-- The elements of a path after `path.Clean`, the last one first.
pop : Bool → List String → List String
pop rooted [] = if rooted then [] else ".." ∷ []
pop rooted (p ∷ ps) = if p == ".." then ".." ∷ p ∷ ps else ps

clean_elements : Bool → List String → List String → List String
unfolding pop
clean_elements rooted done [] = done
clean_elements rooted done (p ∷ ps) =
    clean_elements rooted
      (if p == "" || p == "." then done else if p == ".." then pop rooted done else p ∷ done) ps

slashed : List String → String
slashed [] = ""
slashed (p ∷ []) = p
slashed (p ∷ q ∷ ps) = p <> "/" <> slashed (q ∷ ps)

is_rooted : String → Bool
is_rooted String.[] = false
is_rooted (String.◌∷◌ x s) = code x ==ℕ b'/'

-- `path.Clean`
unfoldable pub clean : String → String
unfolding clean_elements slashed is_rooted
clean s =
    let body = slashed (reverse (clean_elements (is_rooted s) [] (split b'/' s))) in
    if is_rooted s then "/" <> body else if body == "" then "." else body

-- `path.Join` of two elements, the second of which is not empty.
unfoldable pub path_join : String → String → String
path_join a b = if a == "" then clean b else clean (a <> "/" <> b)
