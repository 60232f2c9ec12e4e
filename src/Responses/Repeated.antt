-- ===== src/Responses/Repeated.antt =====
-- `respond_multiple` over a series of frames: while the command goes back to the front of its queue, and where it stops.
use fred_rs.Prelude.{
  ℕ, ◌+◌, ◌<◌, ◌≡◌, refl, ap, ◌∙◌, true, false, List, [], ◌∷◌, ◌++◌, length, arith, ◌==◌,
  if◌then◌else◌, All, ==_iff,
}
use fred_rs.Error.{Result, ok, err}
use fred_rs.Machine.{usize_bound}
use fred_rs.Command.Request.{Sender}
use fred_rs.Responses.{
  FrameOps, Shared, Handled, respond_multiple, last_or_more, respond_locked, frame_error,
}
use fred_rs.Responses.Buffered.{incr_atomic-small}

module _ {ℓ} {Frame : Type ℓ} (ops : FrameOps Frame) where
  -- The frames as they come: the messages that are sent, as long as the command is put back, and the frames that are
  -- left over for the commands behind it.
  unfoldable pub answer : ℕ → Shared Frame → List Frame → List (Sender × Result Frame) × List Frame
  answer expected s [] = ([], [])
  answer expected s (f ∷ fs) =
      let handled = respond_multiple ops expected s f in
      let rest = answer expected handled.shared fs in
      if handled.requeues then (handled.sent ++ rest.0, rest.1) else (handled.sent, fs)

  abbrev pub IsFine : Frame → Type 0
  IsFine f = ops.is_error f ≡ false

  step-last :
      (expected : ℕ) (s : Shared Frame) (f : Frame) (fs : List Frame)
      → IsFine f
      → s.received + 1 ≡ expected
      → expected < usize_bound
      → answer expected s (f ∷ fs) ≡ (respond_locked s.tx (ok f), fs)
  unfolding answer respond_multiple
  step-last expected s f fs fine n small =
      let yes = (==_iff (s.received + 1) expected).1 n in
      rw fine (
        ap
          (λ (h : Handled Frame).
            let rest = answer expected h.shared fs in
            if h.requeues then (h.sent ++ rest.0, rest.1) else (h.sent, fs))
          (ap (last_or_more ops expected s f) (incr_atomic-small s.received (omega arith)))
        ∙ rw yes refl)

  step-more :
      (expected : ℕ) (s : Shared Frame) (f : Frame) (fs : List Frame)
      → IsFine f
      → s.received + 1 < expected
      → expected < usize_bound
      → answer expected s (f ∷ fs) ≡ answer expected (record s { received = s.received + 1 }) fs
  unfolding answer respond_multiple
  step-more expected s f fs fine n small =
      let no : (s.received + 1 == expected) ≡ false = ground arith in
      rw fine (
        ap
          (λ (h : Handled Frame).
            let rest = answer expected h.shared fs in
            if h.requeues then (h.sent ++ rest.0, rest.1) else (h.sent, fs))
          (ap (last_or_more ops expected s f) (incr_atomic-small s.received (omega arith)))
        ∙ rw no refl)

  -- Of the frames that a command waits for, fewer than 2^64 and none an error, the caller gets the last, and nothing else; the frames behind
  -- them are left for the next commands.
  pub answer-last :
      (expected : ℕ) (s : Shared Frame) (fs : List Frame) (last : Frame) (rest : List Frame)
      → All IsFine fs
      → IsFine last
      → s.received + length fs + 1 ≡ expected
      → expected < usize_bound
      → answer expected s (fs ++ (last ∷ rest)) ≡ (respond_locked s.tx (ok last), rest)
  answer-last expected s [] last rest a fine n small =
      step-last expected s last rest fine (omega arith) small
  answer-last expected s (f ∷ fs) last rest a fine n small =
      step-more expected s f (fs ++ (last ∷ rest)) a.0 (omega arith) small
      ∙ answer-last expected (record s { received = s.received + 1 }) fs last rest a.1 fine
          (omega arith) small

  -- An error among the frames that a command waits for, fewer than 2^64, the first one that is an error, is answered at once, and the frames behind it are left for the next commands.
  pub answer-error :
      (expected : ℕ) (s : Shared Frame) (fs : List Frame) (e : Frame) (rest : List Frame)
      → All IsFine fs
      → ops.is_error e ≡ true
      → s.received + length fs < expected
      → expected < usize_bound
      → answer expected s (fs ++ (e ∷ rest)) ≡ (respond_locked s.tx (err (frame_error ops e)), rest)
  unfolding answer respond_multiple
  answer-error expected s [] e rest a bad n small = rw bad refl
  answer-error expected s (f ∷ fs) e rest a bad n small =
      step-more expected s f (fs ++ (e ∷ rest)) a.0 (omega arith) small
      ∙ answer-error expected (record s { received = s.received + 1 }) fs e rest a.1 bad
          (omega arith) small
