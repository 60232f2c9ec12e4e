-- ===== src/Responses/Buffered.antt =====
-- `respond_buffer` over a series of frames, each with the index of its command, that come from several connections.
use native.Mathlib.Nat.{mod-eq_of_lt}
use fred_rs.Prelude.{
  ℕ, zero, suc, ◌+◌, ◌-◌, ◌<◌, ◌%◌, min, ◌≡◌, refl, sym, ap, ◌∙◌, true, false, ◌⊎◌, inl, inr,
  Option, none, some, List, [], ◌∷◌, ◌++◌, length, get_elem?, arith, ltb, ◌==◌, gt→leb, All, ==_iff,
  subst, get_elem?-lt, get_elem?-none, ltb→lt, ltb→ge, Bool-cases, ◌≢◌,
}
use fred_rs.Error.{Result, ok}
use fred_rs.Machine.{usize_bound}
use fred_rs.Command.Request.{Sender}
use fred_rs.Responses.{
  FrameOps, Shared, Handled, set_at, add_buffered_frame, respond_buffer, merge_multiple_frames,
  merged, respond_locked, incr_atomic, counted, new_buffer_with_size, repeat,
}

not_same : {a b : ℕ} → a ≡ b → (a == b) ≡ false → ⊥
not_same e h = ground arith

module _ {ℓ} {Frame : Type ℓ} where
  -- The buffer after the frames of the deliveries are stored.
  abbrev pub stored : List Frame → List (ℕ × Frame) → List Frame
  stored buffer [] = buffer
  stored buffer (d ∷ ds) = stored (set_at buffer d.0 d.1) ds

  -- An index that one of the deliveries has.
  abbrev pub Occurs : ℕ → List (ℕ × Frame) → Type 0
  Occurs j [] = ⊥
  Occurs j (d ∷ ds) = (d.0 ≡ j) ⊎ Occurs j ds

  length-set_at :
      (buffer : List Frame) (i : ℕ) (f : Frame) → length (set_at buffer i f) ≡ length buffer
  length-set_at [] i f = refl
  length-set_at (b ∷ bs) zero f = refl
  length-set_at (b ∷ bs) (suc i) f = ap suc (length-set_at bs i f)

  get_elem?-set_at :
      (buffer : List Frame) (i : ℕ) (f : Frame)
      → i < length buffer
      → get_elem? (set_at buffer i f) i ≡ some f
  get_elem?-set_at [] i f h = absurd (omega arith)
  get_elem?-set_at (b ∷ bs) zero f h = refl
  get_elem?-set_at (b ∷ bs) (suc i) f h = get_elem?-set_at bs i f (omega arith)

  get_elem?-set_other :
      (buffer : List Frame) (i j : ℕ) (f : Frame)
      → i ≢ j
      → get_elem? (set_at buffer i f) j ≡ get_elem? buffer j
  get_elem?-set_other [] i j f h = refl
  get_elem?-set_other (b ∷ bs) zero zero f h = absurd (h refl)
  get_elem?-set_other (b ∷ bs) zero (suc j) f h = refl
  get_elem?-set_other (b ∷ bs) (suc i) zero f h = refl
  get_elem?-set_other (b ∷ bs) (suc i) (suc j) f h =
      get_elem?-set_other bs i j f (λ e. h (ap suc e))

  -- Lists that agree at every index are equal.
  get_elem?-ext : (xs ys : List Frame) → ((j : ℕ) → get_elem? xs j ≡ get_elem? ys j) → xs ≡ ys
  get_elem?-ext [] [] h = refl
  get_elem?-ext [] (y ∷ ys) h = let e = h 0 in cc
  get_elem?-ext (x ∷ xs) [] h = let e = h 0 in cc
  get_elem?-ext (x ∷ xs) (y ∷ ys) h =
      let first = h 0 in let rest = get_elem?-ext xs ys (λ j. h (suc j)) in cc

  -- The frames that the commands were answered with, and a delivery of one of them.
  abbrev pub IsDelivery : List Frame → ℕ × Frame → Type ℓ
  IsDelivery fs d = get_elem? fs d.0 ≡ some d.1

  left_over :
      (fs buffer : List Frame) (d : ℕ × Frame) (ds : List (ℕ × Frame)) (j : ℕ)
      → d.0 ≢ j
      → (get_elem? buffer j ≡ get_elem? fs j) ⊎ Occurs j (d ∷ ds)
      → (get_elem? (set_at buffer d.0 d.1) j ≡ get_elem? fs j) ⊎ Occurs j ds
  left_over fs buffer d ds j other (inl same) =
      inl (get_elem?-set_other buffer d.0 j d.1 other ∙ same)
  left_over fs buffer d ds j other (inr (inl here)) = absurd (other here)
  left_over fs buffer d ds j other (inr (inr later)) = inr later

  stored-at :
      (fs buffer : List Frame) (ds : List (ℕ × Frame)) (j : ℕ)
      → length buffer ≡ length fs
      → All (IsDelivery fs) ds
      → (get_elem? buffer j ≡ get_elem? fs j) ⊎ Occurs j ds
      → get_elem? (stored buffer ds) j ≡ get_elem? fs j
  stored-at fs buffer [] j n a (inl same) = same
  stored-at fs buffer [] j n a (inr none_left) = absurd none_left
  stored-at fs buffer (d ∷ ds) j n a h =
      let within : d.0 < length buffer = rw n (get_elem?-lt fs d.0 d.1 a.0) in
      stored-at fs (set_at buffer d.0 d.1) ds j (length-set_at buffer d.0 d.1 ∙ n) a.1
        (elim (Bool-cases (d.0 == j)) [
          | inl same ↦
              let e = (==_iff d.0 j).0 same in
              inl (
                subst (λ (i : ℕ). get_elem? (set_at buffer d.0 d.1) i ≡ get_elem? fs i) e
                  (get_elem?-set_at buffer d.0 d.1 within ∙ sym a.0))
          | inr other ↦ left_over fs buffer d ds j (λ e. not_same e other) h
        ])

  -- The deliveries that cover every index, each with the frame of that index, store the frames.
  stored_lem :
      (fs buffer : List Frame) (ds : List (ℕ × Frame))
      → length buffer ≡ length fs
      → All (IsDelivery fs) ds
      → ((j : ℕ) → j < length fs → Occurs j ds)
      → stored buffer ds ≡ fs
  stored_lem fs buffer ds n a covered = get_elem?-ext (stored buffer ds) fs (λ j.
      elim (Bool-cases (ltb j (length fs))) [
        | inl lt ↦ stored-at fs buffer ds j n a (inr (covered j (ltb→lt j (length fs) lt)))
        | inr ge ↦
            let out = ltb→ge j (length fs) ge in
            stored-at fs buffer ds j n a
              (inl (get_elem?-none buffer j (omega arith) ∙ sym (get_elem?-none fs j out)))
      ])

pub incr_atomic-small : (n : ℕ) → n + 1 < usize_bound → incr_atomic n ≡ (n + 1, n + 1)
unfolding incr_atomic
incr_atomic-small n h =
    let a : (n + 1) % usize_bound ≡ n + 1 = mod-eq_of_lt h in
    let b : min (n + 1) (usize_bound - 1) ≡ n + 1 = omega arith in cc

module _ {ℓ} {Frame : Type ℓ} (ops : FrameOps Frame) where
  respond_locked-nil :
      (o : Option Sender) (r : Result Frame) → respond_locked o r ++ [] ≡ respond_locked o r
  respond_locked-nil none r = refl
  respond_locked-nil (some tx) r = refl

  add-done :
      (buffer : List Frame) (i : ℕ) (f : Frame)
      → i < length buffer
      → add_buffered_frame buffer i f ≡ ok (set_at buffer i f)
  unfolding add_buffered_frame
  add-done buffer i f h = rw (gt→leb (length buffer) i h) refl

  -- The frames of the deliveries, handled one after another: the shared cells at the end, and all messages.
  unfoldable pub deliver :
      ℕ → Shared Frame → List (ℕ × Frame) → Shared Frame × List (Sender × Result Frame)
  deliver expected s [] = (s, [])
  deliver expected s (d ∷ ds) =
      let handled = respond_buffer ops expected d.0 s d.1 in
      let rest = deliver expected handled.shared ds in (rest.0, handled.sent ++ rest.1)

  -- The last frame is answered with all of them, an earlier one is stored.
  counted-last :
      (expected : ℕ) (s : Shared Frame) (now : List Frame)
      → s.received + 1 ≡ expected
      → expected < usize_bound
      → counted ops expected s now (incr_atomic s.received) ≡ record {
        shared = record { frames = []; received = expected; tx = none };
        sent = respond_locked s.tx (merged ops (merge_multiple_frames ops now));
        unblocks = true;
        requeues = false;
        result = ok tt;
      }
  counted-last expected s now n small =
      let yes = (==_iff (s.received + 1) expected).1 n in
      ap (counted ops expected s now) (incr_atomic-small s.received (omega arith))
      ∙ rw yes (rw n refl)

  counted-more :
      (expected : ℕ) (s : Shared Frame) (now : List Frame)
      → s.received + 1 < expected
      → expected < usize_bound
      → counted ops expected s now (incr_atomic s.received) ≡ record {
        shared = record s { frames = now; received = s.received + 1 };
        sent = [];
        unblocks = false;
        requeues = false;
        result = ok tt;
      }
  counted-more expected s now n small =
      let no : (s.received + 1 == expected) ≡ false = ground arith in
      ap (counted ops expected s now) (incr_atomic-small s.received (omega arith)) ∙ rw no refl

  IsWithin : ℕ → ℕ × Frame → Type 0
  IsWithin n d = d.0 < n

  deliver-stored :
      (expected : ℕ) (s : Shared Frame) (d : ℕ × Frame) (ds : List (ℕ × Frame))
      → s.received + length (d ∷ ds) ≡ expected
      → expected < usize_bound
      → All (IsWithin (length s.frames)) (d ∷ ds)
      → deliver expected s (d ∷ ds) ≡ (
        record { frames = []; received = expected; tx = none },
        respond_locked s.tx (merged ops (merge_multiple_frames ops (stored s.frames (d ∷ ds)))),
      )
  unfolding deliver respond_buffer IsWithin
  deliver-stored expected s d [] n small a =
      let one : s.received + 1 ≡ expected = n in
      let now = set_at s.frames d.0 d.1 in
      rw (add-done s.frames d.0 d.1 a.0) (
        ap (λ (h : Handled Frame). (h.shared, h.sent ++ [])) (counted-last expected s now one small)
        ∙ ap
            (λ (m : List (Sender × Result Frame)).
              (record { frames = []; received = expected; tx = none }, m))
            (respond_locked-nil s.tx (merged ops (merge_multiple_frames ops now))))
  deliver-stored expected s d (e ∷ ds) n small a =
      let now = set_at s.frames d.0 d.1 in
      rw (add-done s.frames d.0 d.1 a.0) (
        ap
          (λ (h : Handled Frame).
            let rest = deliver expected h.shared (e ∷ ds) in (rest.0, h.sent ++ rest.1))
          (counted-more expected s now (omega arith) small)
        ∙ deliver-stored expected (record s { frames = now; received = s.received + 1 }) e ds
            (omega arith) small
            (subst (λ (k : ℕ). All (IsWithin k) (e ∷ ds)) (sym (length-set_at s.frames d.0 d.1))
              a.1))

  length-repeat : (n : ℕ) → length (repeat ops n) ≡ n
  length-repeat zero = refl
  length-repeat (suc n) = ap suc (length-repeat n)

  within :
      (fs : List Frame) (ds : List (ℕ × Frame))
      → All (IsDelivery fs) ds
      → All (IsWithin (length fs)) ds
  unfolding IsWithin
  within fs [] a = tt
  within fs (d ∷ ds) a = (get_elem?-lt fs d.0 d.1 a.0, within fs ds a.1)

  -- Of at least one frame, and fewer than 2^64, with as many deliveries as frames, in any order, each with the frame of its
  -- index and one for every index: the caller gets one message, the frames merged in the order of their indexes.
  pub deliver-any_order :
      (tx : Sender) (fs : List Frame) (ds : List (ℕ × Frame))
      → 0 < length fs
      → length fs < usize_bound
      → length ds ≡ length fs
      → All (IsDelivery fs) ds
      → ((j : ℕ) → j < length fs → Occurs j ds)
      → (deliver (length fs) (new_buffer_with_size ops (length fs) tx) ds).1
        ≡ (tx, merged ops (merge_multiple_frames ops fs)) ∷ []
  unfolding new_buffer_with_size
  deliver-any_order tx fs [] pos small n a covered = absurd (omega arith)
  deliver-any_order tx fs (d ∷ ds) pos small n a covered =
      let buffer = repeat ops (length fs) in
      let size : length buffer ≡ length fs = length-repeat (length fs) in
      let s : Shared Frame = new_buffer_with_size ops (length fs) tx in
      ap (λ (r : Shared Frame × List (Sender × Result Frame)). r.1)
        (deliver-stored (length fs) s d ds (omega arith) small
          (subst (λ (k : ℕ). All (IsWithin k) (d ∷ ds)) (sym size) (within fs (d ∷ ds) a)))
      ∙ ap (λ (b : List Frame). (tx, merged ops (merge_multiple_frames ops b)) ∷ [])
          (stored_lem fs buffer (d ∷ ds) size a covered)
