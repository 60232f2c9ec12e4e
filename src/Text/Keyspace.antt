-- ===== src/Text/Keyspace.antt =====
-- What the parser of keyspace notifications uses of Rust's text functions: `str::splitn` into two parts, and
-- `str::replace` of "__" by nothing.
use fred_rs.Prelude.{
  ℕ, ◌≡◌, refl, ◌&&◌, ◌==◌, Option, none, some, [], ◌∷◌, ◌++◌, if◌then◌else◌, arith,
}
use fred_rs.Text.{Str, to_string, is_digit}
use fred_rs.Text.Split.{Lacks}
use fred_rs.Text.Decimal.{to_string-Lacks, to_string-Digits, Digits}

abbrev with_first : ℕ → Option (Str × Str) → Option (Str × Str)
with_first c none = none
with_first c (some (a, b)) = some (c ∷ a, b)

-- `splitn(2, sep)`, which gives fewer than two parts where the separator is missing.
unfoldable pub splitn_two : ℕ → Str → Option (Str × Str)
splitn_two sep [] = none
splitn_two sep (c ∷ s) =
    let more = with_first c (splitn_two sep s) in if c == sep then some ([], s) else more

pub splitn_two-joined :
    (sep : ℕ) (s rest : Str) → Lacks sep s → splitn_two sep (s ++ sep ∷ rest) ≡ some (s, rest)
unfolding splitn_two
splitn_two-joined sep [] rest h = ground arith
splitn_two-joined sep (c ∷ s) rest (h, hs) = rw (h, splitn_two-joined sep s rest hs) refl

-- `replace("__", "")`.
unfoldable pub without_dunder : Str → Str
without_dunder [] = []
without_dunder (a ∷ []) = a ∷ []
without_dunder (a ∷ b ∷ s) =
    let skipped = without_dunder s in
    let kept = without_dunder (b ∷ s) in if (a == b'_') && (b == b'_') then skipped else a ∷ kept

abbrev pub dunder : Str
dunder = b'_' ∷ b'_' ∷ []

without_dunder-Digits : (s : Str) → Digits s → without_dunder (s ++ dunder) ≡ s
unfolding without_dunder is_digit
without_dunder-Digits [] h = refl
without_dunder-Digits (a ∷ []) h = ground arith
without_dunder-Digits (a ∷ b ∷ s) h = ground (arith, without_dunder-Digits (b ∷ s) h.1)

pub without_dunder-to_string : (n : ℕ) → without_dunder (to_string n ++ dunder) ≡ to_string n
without_dunder-to_string n = without_dunder-Digits (to_string n) (to_string-Digits n)

Lacks-append : (sep : ℕ) (xs ys : Str) → Lacks sep xs → Lacks sep ys → Lacks sep (xs ++ ys)
Lacks-append sep [] ys h k = k
Lacks-append sep (x ∷ xs) ys h k = (h.0, Lacks-append sep xs ys h.1 k)

pub to_string-dunder-Lacks : (n : ℕ) → Lacks b':' (to_string n ++ dunder)
unfolding is_digit
to_string-dunder-Lacks n =
    Lacks-append b':' (to_string n) dunder (to_string-Lacks b':' n refl) (refl, (refl, tt))
