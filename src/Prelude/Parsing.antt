-- ===== src/Prelude/Parsing.antt =====
-- What the program uses of `str` to take texts apart: lines, words, trimming, and unsigned numbers.
use Prim.Native.Nat.{ℕ, ◌+◌, ◌-◌, ◌*◌}
use mathlib.Core.Path.{◌≡◌, refl}
use mathlib.Core.Bool.{Bool, ◌&&◌, ◌||◌}
use mathlib.Core.Option.{Option, none, some}
use mathlib.Core.List.{List, [], ◌∷◌}
use multi_proxy.Prelude.Tests.{leb, nat_beq, if◌then◌else◌}
use multi_proxy.Prelude.Strings.{Text, codes}

-- `char::is_whitespace`.
unfoldable pub is_whitespace : ℕ → Bool
is_whitespace c =
    (leb 9 c && leb c 13)
    || nat_beq c 32
    || nat_beq c 133
    || nat_beq c 160
    || nat_beq c 5760
    || (leb 8192 c && leb c 8202)
    || nat_beq c 8232
    || nat_beq c 8233
    || nat_beq c 8239
    || nat_beq c 8287
    || nat_beq c 12288

unfoldable pub trim_start : Text → Text
unfolding is_whitespace
trim_start [] = []
trim_start (c ∷ s) = if is_whitespace c then trim_start s else c ∷ s

-- A kept character in front of the trimmed rest.
abbrev put : ℕ → Text → Text
put c [] = if is_whitespace c then [] else c ∷ []
put c (x ∷ s) = c ∷ x ∷ s

unfoldable pub trim_end : Text → Text
unfolding is_whitespace
trim_end [] = []
trim_end (c ∷ s) = put c (trim_end s)

unfoldable pub trim : Text → Text
unfolding trim_start trim_end
trim s = trim_end (trim_start s)

-- `trim_end_matches` of one character.
abbrev put_unless : ℕ → ℕ → Text → Text
put_unless d c [] = if nat_beq c d then [] else c ∷ []
put_unless d c (x ∷ s) = c ∷ x ∷ s

unfoldable pub trim_end_matches : ℕ → Text → Text
trim_end_matches d [] = []
trim_end_matches d (c ∷ s) = put_unless d c (trim_end_matches d s)

-- `split` at one character: always one piece at least.
abbrev join_first : ℕ → List Text → List Text
join_first c [] = (c ∷ []) ∷ []
join_first c (w ∷ ws) = (c ∷ w) ∷ ws

unfoldable pub split : ℕ → Text → List Text
split d [] = [] ∷ []
split d (c ∷ s) = if nat_beq c d then [] ∷ split d s else join_first c (split d s)

abbrev nonempty : List Text → List Text
nonempty [] = []
nonempty ([] ∷ ws) = nonempty ws
nonempty ((c ∷ w) ∷ ws) = (c ∷ w) ∷ nonempty ws

abbrev split_blanks : Text → List Text
split_blanks [] = [] ∷ []
split_blanks (c ∷ s) =
    if is_whitespace c then [] ∷ split_blanks s else join_first c (split_blanks s)

-- `split_whitespace`.
unfoldable pub split_whitespace : Text → List Text
unfolding is_whitespace
split_whitespace s = nonempty (split_blanks s)

-- `split_once` at one character.
abbrev cons_first : ℕ → Option (Text × Text) → Option (Text × Text)
cons_first c none = none
cons_first c (some (w, rest)) = some (c ∷ w, rest)

unfoldable pub split_once : ℕ → Text → Option (Text × Text)
split_once d [] = none
split_once d (c ∷ s) = if nat_beq c d then some ([], s) else cons_first c (split_once d s)

-- `lines`: a final empty piece is none, and one carriage return at a line's end is dropped.
abbrev drop_return : Text → Text
drop_return [] = []
drop_return (c ∷ []) = if nat_beq c 13 then [] else c ∷ []
drop_return (c ∷ d ∷ s) = c ∷ drop_return (d ∷ s)

abbrev line_pieces : List Text → List Text
line_pieces [] = []
line_pieces ([] ∷ []) = []
line_pieces ((c ∷ w) ∷ []) = (c ∷ w) ∷ []
line_pieces (w ∷ v ∷ ws) = drop_return w ∷ line_pieces (v ∷ ws)

unfoldable pub lines : Text → List Text
unfolding split
lines s = line_pieces (split 10 s)

-- `parse` to an unsigned integer of greatest value `m`: a plus sign is allowed, nothing else but digits is.
abbrev next_digit : ℕ → ℕ → ℕ → Option ℕ
next_digit m n c =
    if leb 48 c && leb c 57 && leb (n * 10 + (c - 48)) m then some (n * 10 + (c - 48)) else none

unfoldable pub parse_digits : ℕ → Option ℕ → Text → Option ℕ
parse_digits m none s = none
parse_digits m (some n) [] = some n
parse_digits m (some n) (c ∷ s) = parse_digits m (next_digit m n c) s

unfoldable pub parse_unsigned : ℕ → Text → Option ℕ
unfolding parse_digits
parse_unsigned m [] = none
parse_unsigned m (c ∷ []) = parse_digits m (some 0) (c ∷ [])
parse_unsigned m (c ∷ d ∷ s) =
    if nat_beq c 43 then parse_digits m (some 0) (d ∷ s) else parse_digits m (some 0) (c ∷ d ∷ s)

lines_test : lines (codes "a\r\n\nb\n") ≡ codes "a" ∷ [] ∷ codes "b" ∷ []
unfolding lines
lines_test = refl

split_whitespace_test :
    split_whitespace (codes "  a b\t\tcd ") ≡ codes "a" ∷ codes "b" ∷ codes "cd" ∷ []
unfolding split_whitespace
split_whitespace_test = refl

trim_test : trim (codes " \ta b ") ≡ codes "a b"
unfolding trim
trim_test = refl

parse_unsigned_test : parse_unsigned 255 (codes "+255") ≡ some 255
unfolding parse_unsigned
parse_unsigned_test = refl

parse_unsigned_overflow : parse_unsigned 255 (codes "256") ≡ none
unfolding parse_unsigned
parse_unsigned_overflow = refl
