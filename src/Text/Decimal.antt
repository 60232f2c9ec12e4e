-- ===== src/Text/Decimal.antt =====
-- Decimal numbers: what is printed is read back.
use fred_rs.Prelude.{
  ℕ, zero, suc, ◌+◌, ◌-◌, ◌*◌, ◌/◌, ◌%◌, ◌≤◌, ◌<◌, ◌≡◌, refl, ap, ◌∙◌, true, false, Option, none,
  some, [], ◌∷◌, ◌++◌, All, arith, Bool-cases, inl, inr, ltb, ltb→lt, ltb→ge, ◌==◌, if◌then◌else◌,
}
use fred_rs.Text.{Str, digits_from, digits_of, to_string, is_digit, parse_unsigned}
use fred_rs.Text.Split.{Lacks}

abbrev bind : Option ℕ → (ℕ → Option ℕ) → Option ℕ
bind none f = none
bind (some n) f = f n

digits_from-append :
    (acc : ℕ) (xs ys : Str)
    → digits_from acc (xs ++ ys) ≡ bind (digits_from acc xs) (λ a. digits_from a ys)
unfolding digits_from
digits_from-append acc [] ys = refl
digits_from-append acc (c ∷ xs) ys = ground (arith, digits_from-append (acc * 10 + (c - 48)) xs ys)

digit_from : (acc d : ℕ) → d < 10 → digits_from acc ((48 + d) ∷ []) ≡ some (acc * 10 + d)
unfolding digits_from is_digit
digit_from acc d h = ground arith

digits_from-digits_of : (fuel n : ℕ) → n < fuel → digits_from 0 (digits_of fuel n) ≡ some n
unfolding digits_of
digits_from-digits_of zero n h = absurd (omega arith)
digits_from-digits_of (suc fuel) n h = elim (Bool-cases (ltb n 10)) [
  | inl small ↦ rw (small) (digit_from 0 n (ltb→lt n 10 small) ∙ ap some (omega arith))
  | inr large ↦
      let large' = ltb→ge n 10 large in
      rw
        (
          large,
          digits_from-append 0 (digits_of fuel (n / 10)) ((48 + n % 10) ∷ []),
          digits_from-digits_of fuel (n / 10) (omega arith),
        )
        (digit_from (n / 10) (n % 10) (omega arith) ∙ ap some (omega arith))
]

abbrev pub Digits : Str → Type 0
Digits s = All (λ (c : ℕ). is_digit c ≡ true) s

Digits-append : (xs ys : Str) → Digits xs → Digits ys → Digits (xs ++ ys)
Digits-append [] ys h k = k
Digits-append (x ∷ xs) ys h k = (h.0, Digits-append xs ys h.1 k)

digits_of-Digits : (fuel n : ℕ) → Digits (digits_of fuel n)
unfolding digits_of is_digit
digits_of-Digits zero n = tt
digits_of-Digits (suc fuel) n = elim (Bool-cases (ltb n 10)) [
  | inl small ↦ rw small (ground (arith, ltb→lt n 10 small), tt)
  | inr large ↦ rw large (
      Digits-append (digits_of fuel (n / 10)) _ (digits_of-Digits fuel (n / 10)) (ground arith, tt))
]

-- A number is not printed as the empty text.
digits_of-cons : (fuel n : ℕ) → (c : ℕ) × (s : Str) × (digits_of (suc fuel) n ≡ c ∷ s)
unfolding digits_of
digits_of-cons fuel n = elim (Bool-cases (ltb n 10)) [
  | inl small ↦ (48 + n, [], rw small)
  | inr large ↦ head (digits_of fuel (n / 10)) large
]
  where
    head :
        (front : Str)
        → ltb n 10 ≡ false
        → (c : ℕ) × (s : Str) × ((if ltb n 10 then (48 + n) ∷ [] else front ++ (48 + n % 10) ∷ [])
            ≡ c ∷ s)
    head [] large = (48 + n % 10, [], rw large)
    head (c ∷ s) large = (c, s ++ (48 + n % 10) ∷ [], rw large)

pub to_string-Digits : (n : ℕ) → Digits (to_string n)
unfolding to_string
to_string-Digits n = digits_of-Digits (suc n) n

digit-ne : (sep c : ℕ) → is_digit sep ≡ false → is_digit c ≡ true → (c == sep) ≡ false
unfolding is_digit
digit-ne sep c h k = ground arith

Digits-Lacks : (sep : ℕ) (s : Str) → is_digit sep ≡ false → Digits s → Lacks sep s
Digits-Lacks sep [] h d = tt
Digits-Lacks sep (c ∷ s) h d = (digit-ne sep c h d.0, Digits-Lacks sep s h d.1)

-- A printed number holds no separator.
pub to_string-Lacks : (sep n : ℕ) → is_digit sep ≡ false → Lacks sep (to_string n)
to_string-Lacks sep n h = Digits-Lacks sep (to_string n) h (to_string-Digits n)

-- Printing and reading back is the identity on the numbers of the type.
pub parse_unsigned-to_string : (max n : ℕ) → n ≤ max → parse_unsigned max (to_string n) ≡ some n
unfolding parse_unsigned to_string is_digit
parse_unsigned-to_string max n h =
    let (c, s, e) = digits_of-cons n n in
    let d : Digits (c ∷ s) = rw e at (digits_of-Digits (suc n) n) in
    let v : digits_from 0 (c ∷ s) ≡ some n =
      rw e at (digits_from-digits_of (suc n) n (omega arith)) in
    rw (e, digit-ne b'+' c refl d.0) (ground (arith, v))
