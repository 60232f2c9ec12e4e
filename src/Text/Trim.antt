-- ===== src/Text/Trim.antt =====
-- `trim` leaves a text of visible ASCII characters alone.
use fred_rs.Prelude.{ℕ, ◌≤◌, ◌<◌, ◌≡◌, refl, [], ◌∷◌, ◌++◌, All, arith, true}
use fred_rs.Text.{Str, white_len, drop_white, trim_end_from, trim, is_digit}

-- Visible ASCII characters only.
abbrev pub Visible : Str → Type 0
Visible s = All (λ (c : ℕ). (33 ≤ c) × (c < 128)) s

white_len-zero : (c : ℕ) (s : Str) → 33 ≤ c → c < 128 → white_len (c ∷ s) ≡ 0
unfolding white_len
white_len-zero c [] h k = ground arith
white_len-zero c (d ∷ []) h k = ground arith
white_len-zero c (d ∷ e ∷ s) h k = ground arith

drop_white-Visible : (s : Str) → Visible s → drop_white 0 s ≡ s
unfolding drop_white
drop_white-Visible [] v = refl
drop_white-Visible (c ∷ s) v = rw (white_len-zero c s v.0.0 v.0.1)

trim_end_from-Visible : (s : Str) → Visible s → trim_end_from 0 [] s ≡ s
unfolding trim_end_from
trim_end_from-Visible [] v = refl
trim_end_from-Visible (c ∷ s) v = rw (white_len-zero c s v.0.0 v.0.1, trim_end_from-Visible s v.1)

pub trim-Visible : (s : Str) → Visible s → trim s ≡ s
unfolding trim
trim-Visible s v = rw (drop_white-Visible s v) (trim_end_from-Visible s v)

pub Visible-append : (xs ys : Str) → Visible xs → Visible ys → Visible (xs ++ ys)
Visible-append [] ys v w = w
Visible-append (x ∷ xs) ys v w = (v.0, Visible-append xs ys v.1 w)

pub Digits-Visible : (s : Str) → All (λ (c : ℕ). is_digit c ≡ true) s → Visible s
unfolding is_digit
Digits-Visible [] d = tt
Digits-Visible (c ∷ s) d = ((ground arith, ground arith), Digits-Visible s d.1)
