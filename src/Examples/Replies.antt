-- ===== src/Examples/Replies.antt =====
-- Frames as numbers: 0 is null, 100 and above are errors, and no frame is an array but the one that is built.
use fred_rs.Prelude.{
  ℕ, suc, zero, ◌+◌, ◌<◌, ◌≡◌, refl, inl, inr, none, some, List, [], ◌∷◌, arith, leb,
}
use fred_rs.Error.{ok}
use fred_rs.Responses.{FrameOps, Shared, new_buffer_with_size, merge_multiple_frames, merged}
use fred_rs.Responses.Buffered.{deliver, deliver-any_order, Occurs}
use fred_rs.Responses.Repeated.{answer, answer-last}

abbrev sum : List ℕ → ℕ
sum [] = 0
sum (n ∷ ns) = n + sum ns

abbrev numbers : FrameOps ℕ
numbers = record {
  is_error = λ f. leb 100 f;
  elements = λ f. none;
  as_str = λ f. none;
  error_text = λ f. none;
  array = sum;
  null = 0;
}

abbrev replies : List ℕ
replies = 7 ∷ 8 ∷ []

covered : (j : ℕ) → j < 2 → Occurs {Frame = ℕ} j ((1, 8) ∷ (0, 7) ∷ [])
covered zero h = inr (inl refl)
covered (suc zero) h = inl refl
covered (suc (suc j)) h = absurd (omega arith)

deliver-any_order_example :
    (deliver numbers 2 (new_buffer_with_size numbers 2 9) ((1, 8) ∷ (0, 7) ∷ [])).1
    ≡ (9, merged numbers (merge_multiple_frames numbers replies)) ∷ []
deliver-any_order_example =
    deliver-any_order numbers 9 replies ((1, 8) ∷ (0, 7) ∷ []) (omega arith) (omega arith) refl
      (refl, (refl, tt)) covered

abbrev waiting : Shared ℕ
waiting = record { frames = []; received = 0; tx = some 9 }

answer-last_example : answer numbers 3 waiting (1 ∷ 2 ∷ 3 ∷ 4 ∷ []) ≡ ((9, ok 3) ∷ [], 4 ∷ [])
answer-last_example =
    answer-last numbers 3 waiting (1 ∷ 2 ∷ []) 3 (4 ∷ []) (refl, (refl, tt)) refl (omega arith)
      (omega arith)
