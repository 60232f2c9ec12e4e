-- ===== src/Text.antt =====
-- The text functions of Rust's standard library that the crate calls, over UTF-8 bytes.
-- `String`, `&str`, `Str` and `ArcStr` are byte lists; so are `Bytes`, which need not be UTF-8.
pub mod Decimal
pub mod Split
pub mod Trim
pub mod Keyspace
use Prim.Native.String
use fred_rs.Prelude.{
  ℕ, zero, suc, ◌+◌, ◌-◌, ◌*◌, ◌/◌, ◌%◌, ◌≤◌, ◌≡◌, ◌↔◌, refl, code, String, Bool, true, false, not,
  ◌&&◌, ◌||◌, Option, none, some, List, [], ◌∷◌, ◌++◌, reverse, arith, leb, ltb, ◌==◌, ◌⊎◌, inl,
  inr, if◌then◌else◌, length,
}

abbrev pub Bytes : Type 0
Bytes = List ℕ

abbrev pub Str : Type 0
Str = List ℕ

-- The bytes of an ASCII literal.
unfoldable pub text : String → Str
text String.[] = []
text (String.◌∷◌ c s) = code c ∷ text s

-- `==` on strings and byte slices.
unfoldable pub bytes_eq : Bytes → Bytes → Bool
bytes_eq [] [] = true
bytes_eq [] (y ∷ ys) = false
bytes_eq (x ∷ xs) [] = false
bytes_eq (x ∷ xs) (y ∷ ys) = (x == y) && bytes_eq xs ys

pub bytes_eq_iff : (xs ys : Bytes) → (bytes_eq xs ys ≡ true) ↔ (xs ≡ ys)
unfolding bytes_eq
bytes_eq_iff [] [] = ground arith
bytes_eq_iff [] (y ∷ ys) = ground arith
bytes_eq_iff (x ∷ xs) [] = ground arith
bytes_eq_iff (x ∷ xs) (y ∷ ys) = ground (arith, bytes_eq_iff xs ys)

pub bytes_eq_refl : (xs : Bytes) → bytes_eq xs xs ≡ true
bytes_eq_refl xs = (bytes_eq_iff xs xs).1 refl

-- `str::starts_with` with a string.
unfoldable pub starts_with : Str → Str → Bool
starts_with s [] = true
starts_with [] (p ∷ ps) = false
starts_with (c ∷ s) (p ∷ ps) = (c == p) && starts_with s ps

-- `str::split` at a one-byte separator: one part more than there are separators.
split_into : ℕ → Str → Str → List Str
split_into sep part [] = reverse part ∷ []
split_into sep part (c ∷ s) =
    let next = split_into sep [] s in
    let more = split_into sep (c ∷ part) s in if c == sep then reverse part ∷ next else more

unfoldable pub split : ℕ → Str → List Str
unfolding split_into
split sep s = split_into sep [] s

-- The length in bytes of the white space character (Unicode `White_Space`) that a text starts with.
unfoldable pub white_len : Str → ℕ
white_len [] = 0
white_len (a ∷ r) = if (a == 32) || (leb 9 a && leb a 13) then 1 else elim r [
  | [] ↦ 0
  | b ∷ r' ↦ if (a == 0xC2) && ((b == 0x85) || (b == 0xA0)) then 2 else elim r' [
    | [] ↦ 0
    | c ∷ _ ↦
        if ((a == 0xE1) && (b == 0x9A) && (c == 0x80))
          || ((a == 0xE2)
              && (b == 0x80)
              && ((leb 0x80 c && leb c 0x8A) || (c == 0xA8) || (c == 0xA9) || (c == 0xAF)))
          || ((a == 0xE2) && (b == 0x81) && (c == 0x9F))
          || ((a == 0xE3) && (b == 0x80) && (c == 0x80))
        then 3
        else 0
  ]
]

flush : Str → List Str → List Str
flush [] ws = ws
flush (c ∷ part) ws = reverse (c ∷ part) ∷ ws

-- `skip` bytes of a white space character are still to be passed over.
words : ℕ → Str → Str → List Str
unfolding white_len
words skip part [] = flush part []
words (suc skip) part (c ∷ s) = words skip part s
words zero part (c ∷ s) =
    let more = words zero (c ∷ part) s in
    let next = flush part (words (white_len (c ∷ s) - 1) [] s) in
    if white_len (c ∷ s) == 0 then more else next

-- `str::split_whitespace`.
unfoldable pub split_whitespace : Str → List Str
unfolding words flush
split_whitespace s = words 0 [] s

-- `str::trim_start`, by the rounds that the text can take.
drop_white : ℕ → Str → Str
unfolding white_len
drop_white skip [] = []
drop_white (suc skip) (c ∷ s) = drop_white skip s
drop_white zero (c ∷ s) =
    let next = drop_white (white_len (c ∷ s) - 1) s in
    if white_len (c ∷ s) == 0 then c ∷ s else next

-- The text without the white space that ends it: what is kept up to the last other character.
trim_end_from : ℕ → Str → Str → Str
unfolding white_len
trim_end_from skip held [] = []
trim_end_from (suc skip) held (c ∷ s) = trim_end_from skip (held ++ c ∷ []) s
trim_end_from zero held (c ∷ s) =
    let next = trim_end_from (white_len (c ∷ s) - 1) (held ++ c ∷ []) s in
    let kept = held ++ (c ∷ trim_end_from zero [] s) in
    if white_len (c ∷ s) == 0 then kept else next

-- `str::trim`.
unfoldable pub trim : Str → Str
unfolding drop_white trim_end_from
trim s = trim_end_from 0 [] (drop_white 0 s)

unfoldable pub is_digit : ℕ → Bool
is_digit c = leb b'0' c && leb c b'9'

-- The value of a run of digits that follows `acc`.
unfoldable pub digits_from : ℕ → Str → Option ℕ
digits_from acc [] = some acc
digits_from acc (c ∷ s) =
    let rest = digits_from (acc * 10 + (c - 48)) s in if is_digit c then rest else none

abbrev bounded : ℕ → Option ℕ → Option ℕ
bounded max none = none
bounded max (some n) = if leb n max then some n else none

abbrev unsigned : Str → Option ℕ
unsigned [] = none
unsigned (c ∷ s) = digits_from 0 (c ∷ s)

-- `str::parse` at an unsigned type with the greatest value `max`: a sign `+`, at least one digit.
unfoldable pub parse_unsigned : ℕ → Str → Option ℕ
parse_unsigned max [] = none
parse_unsigned max (c ∷ s) =
    if c == b'+' then bounded max (unsigned s) else bounded max (unsigned (c ∷ s))

abbrev pub parse_u16 : Str → Option ℕ
parse_u16 = parse_unsigned 65535

-- `to_string` of an unsigned number. The number bounds its digits, so it is fuel enough.
digits_of : ℕ → ℕ → Str
digits_of zero n = []
digits_of (suc fuel) n =
    let front = digits_of fuel (n / 10) in
    if ltb n 10 then (48 + n) ∷ [] else front ++ (48 + n % 10) ∷ []

unfoldable pub to_string : ℕ → Str
unfolding digits_of
to_string n = digits_of (suc n) n

-- The bytes of a well-formed UTF-8 text, by the table of RFC 3629: `more` continuation bytes are
-- still to come, the next of them between `lo` and `hi`.
utf8_from : ℕ → ℕ → ℕ → Bytes → Bool
utf8_from zero lo hi [] = true
utf8_from (suc more) lo hi [] = false
utf8_from (suc more) lo hi (c ∷ s) = leb lo c && leb c hi && utf8_from more 0x80 0xBF s
utf8_from zero lo hi (c ∷ s) =
    let one = utf8_from 0 0 0 s in
    let two = utf8_from 1 0x80 0xBF s in
    let after_e0 = utf8_from 2 0xA0 0xBF s in
    let after_ed = utf8_from 2 0x80 0x9F s in
    let three = utf8_from 2 0x80 0xBF s in
    let after_f0 = utf8_from 3 0x90 0xBF s in
    let four = utf8_from 3 0x80 0xBF s in
    let after_f4 = utf8_from 3 0x80 0x8F s in
    if ltb c 0x80
    then one
    else if leb 0xC2 c && leb c 0xDF
    then two
    else if c == 0xE0
    then after_e0
    else if c == 0xED
    then after_ed
    else if leb 0xE1 c && leb c 0xEF
    then three
    else if c == 0xF0
    then after_f0
    else if leb 0xF1 c && leb c 0xF3
    then four
    else if c == 0xF4
    then after_f4
    else false

-- `String::from_utf8` and `Str::from_inner`.
unfoldable pub from_utf8 : Bytes → Option Str
unfolding utf8_from
from_utf8 b = if utf8_from 0 0 0 b then some b else none

if_some-cases :
    (b : Bool) (s : Str)
    → ((if b then some s else none) ≡ some s) ⊎ ((if b then some s else none) ≡ none)
if_some-cases true s = inl refl
if_some-cases false s = inr refl

pub from_utf8-cases : (b : Bytes) → (from_utf8 b ≡ some b) ⊎ (from_utf8 b ≡ none)
unfolding from_utf8
from_utf8-cases b = if_some-cases (utf8_from 0 0 0 b) b
