-- ===== src/Text/Split.antt =====
-- Splitting a text that was joined.
use mathlib.Core.List.{reverse-cons, append_assoc, append-nil}
use fred_rs.Prelude.{ℕ, ◌≡◌, ap, ◌∙◌, false, [], ◌∷◌, ◌++◌, reverse, ◌==◌, All, arith}
use fred_rs.Text.{Str, split_into, split}

-- The text does not hold the separator.
abbrev pub Lacks : ℕ → Str → Type 0
Lacks sep s = All (λ (c : ℕ). (c == sep) ≡ false) s

split_into-joined :
    (sep : ℕ) (part s rest : Str)
    → Lacks sep s
    → split_into sep part (s ++ (sep ∷ rest)) ≡ (reverse part ++ s) ∷ split_into sep [] rest
unfolding split_into
split_into-joined sep part [] rest h = rw append-nil (ground arith)
split_into-joined sep part (c ∷ s) rest h =
    let ih = split_into-joined sep (c ∷ part) s rest h.1 in
    rw (h.0) (
      ih
      ∙ ap (λ (p : Str). p ∷ split_into sep [] rest)
          (rw (reverse-cons c part) (append_assoc (reverse part) (c ∷ []) s)))

split_into-last :
    (sep : ℕ) (part s : Str) → Lacks sep s → split_into sep part s ≡ (reverse part ++ s) ∷ []
unfolding split_into
split_into-last sep part [] h = rw append-nil
split_into-last sep part (c ∷ s) h =
    let ih = split_into-last sep (c ∷ part) s h.1 in
    rw (h.0) (
      ih
      ∙ ap (λ (p : Str). p ∷ [])
          (rw (reverse-cons c part) (append_assoc (reverse part) (c ∷ []) s)))

pub split-joined :
    (sep : ℕ) (s rest : Str) → Lacks sep s → split sep (s ++ (sep ∷ rest)) ≡ s ∷ split sep rest
unfolding split
split-joined sep s rest h = split_into-joined sep [] s rest h

pub split-last : (sep : ℕ) (s : Str) → Lacks sep s → split sep s ≡ s ∷ []
unfolding split
split-last sep s h = split_into-last sep [] s h
