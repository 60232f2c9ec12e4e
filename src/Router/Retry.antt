-- ===== src/Router/Retry.antt =====
-- `retry_buffer` of src/router/mod.rs: the commands in the buffer of the router are written again.
use fred_rs.Prelude.{
  ◌≡◌, refl, Bool, true, false, Option, none, some, arith, ap, ◌∙◌, List, [], ◌∷◌, ◌++◌,
  if◌then◌else◌,
}
use fred_rs.Error.{ok, err}
use fred_rs.Machine.{Profile, Outcome, done, panicked, exhausted, ◌>>=◌}
use fred_rs.Command.Request.{RedisCommand}
use fred_rs.Router.Writer.{Written}
use fred_rs.Router.Commands.{Wire, Settings, Fate, Write, write_command, buffered_opt}

module _ {ℓ} {S : Type ℓ} (wire : Wire S) (settings : Settings) (p : Profile)
    (timed_out : RedisCommand → Bool) where
  -- What the loop leaves: the state, what became of the commands, and `failed_command`.
  abbrev Replayed : Type ℓ
  Replayed = S × List Fate × Option RedisCommand

  abbrev pub skipping : RedisCommand → RedisCommand
  skipping c = record c { skip_backpressure = true }

  abbrev prefixed : List Fate → Replayed → Outcome Replayed
  prefixed fates (s, more, failed) = done (s, fates ++ more, failed)

  -- A `break` ends the loop, and with it the draining iterator, which drops the commands that it has not yet given out.
  abbrev replayed : (S → Outcome Replayed) → Write wire settings p → Outcome Replayed
  replayed rest (s, fates, c, ok (Written.disconnect server back e)) =
      done (wire.disconnect_all s, fates, back)
  replayed rest (s, fates, c, ok (Written.sync back)) =
      done (wire.disconnect_all s, fates, some back)
  replayed rest (s, fates, c, err e) = done (wire.disconnect_all s, fates, none)
  replayed rest (s, fates, c, ok (Written.backpressure back b)) = rest s >>= prefixed fates
  replayed rest (s, fates, c, ok (Written.sent server flushed)) = rest s >>= prefixed fates
  replayed rest (s, fates, c, ok Written.sent_all) = rest s >>= prefixed fates
  replayed rest (s, fates, c, ok Written.ignore) = rest s >>= prefixed fates

  unfoldable pub replay : List RedisCommand → S → Outcome Replayed
  unfolding write_command
  replay [] s = done (s, [], none)
  replay (c ∷ cs) s =
      let rest = replay cs in
      if timed_out c then rest s else write_command wire settings p s (skipping c) >>= replayed rest

  abbrev finished : Replayed → Outcome (S × List Fate)
  finished (s, fates, failed) = done (s, fates ++ buffered_opt wire settings p failed)

  unfoldable pub retry_buffer : List RedisCommand → S → Outcome (S × List Fate)
  unfolding replay
  retry_buffer buffer s = replay buffer s >>= finished

  -- The loop is left with a command that failed.
  abbrev Breaks : Outcome Replayed → S → List Fate → RedisCommand → Type ℓ
  Breaks m s fates c = m ≡ done (s, fates, some c)

  -- Where the one breaks, the other breaks alike.
  abbrev BreaksAlike : Outcome Replayed → Outcome Replayed → Type ℓ
  BreaksAlike m m' =
      (s : S) (fates : List Fate) (c : RedisCommand) → Breaks m s fates c → Breaks m' s fates c

  prefixed-BreaksAlike :
      (fates : List Fate) (m m' : Outcome Replayed)
      → BreaksAlike m m'
      → BreaksAlike (m >>= prefixed fates) (m' >>= prefixed fates)
  prefixed-BreaksAlike fates (done (t, more, none)) m' h s all c e = absurd (ground arith)
  prefixed-BreaksAlike fates (done (t, more, some d)) m' h s all c e =
      ap (λ m. m >>= prefixed fates) (h t more d refl) ∙ e
  prefixed-BreaksAlike fates panicked m' h s all c e = absurd (ground arith)
  prefixed-BreaksAlike fates exhausted m' h s all c e = absurd (ground arith)

  -- What the loop does with one write.
  replayed-BreaksAlike :
      (rest rest' : S → Outcome Replayed)
      → ((t : S) → BreaksAlike (rest t) (rest' t))
      → (w : Write wire settings p) → BreaksAlike (replayed rest w) (replayed rest' w)
  replayed-BreaksAlike rest rest' h (t, fates, d, err x) = λ s all c e. e
  replayed-BreaksAlike rest rest' h (t, fates, d, ok (Written.disconnect server back x)) =
      λ s all c e. e
  replayed-BreaksAlike rest rest' h (t, fates, d, ok (Written.sync back)) = λ s all c e. e
  replayed-BreaksAlike rest rest' h (t, fates, d, ok (Written.backpressure back b)) =
      prefixed-BreaksAlike fates (rest t) (rest' t) (h t)
  replayed-BreaksAlike rest rest' h (t, fates, d, ok (Written.sent server flushed)) =
      prefixed-BreaksAlike fates (rest t) (rest' t) (h t)
  replayed-BreaksAlike rest rest' h (t, fates, d, ok Written.sent_all) =
      prefixed-BreaksAlike fates (rest t) (rest' t) (h t)
  replayed-BreaksAlike rest rest' h (t, fates, d, ok Written.ignore) =
      prefixed-BreaksAlike fates (rest t) (rest' t) (h t)

  -- One command, which may have timed out.
  step-BreaksAlike :
      (b : Bool) (t : S) (m : Outcome (Write wire settings p)) (rest rest' : S → Outcome Replayed)
      → ((t : S) → BreaksAlike (rest t) (rest' t))
      → BreaksAlike
          (if b then rest t else m >>= replayed rest)
          (if b then rest' t else m >>= replayed rest')
  step-BreaksAlike true t m rest rest' h = h t
  step-BreaksAlike false t (done w) rest rest' h = replayed-BreaksAlike rest rest' h w
  step-BreaksAlike false t panicked rest rest' h = λ s all c e. e
  step-BreaksAlike false t exhausted rest rest' h = λ s all c e. e

  replay-BreaksAlike :
      (cs behind : List RedisCommand) (t : S) → BreaksAlike (replay cs t) (replay (cs ++ behind) t)
  unfolding replay
  replay-BreaksAlike [] behind t = λ s fates c e. absurd (ground arith)
  replay-BreaksAlike (d ∷ cs) behind t =
      step-BreaksAlike (timed_out d) t (write_command wire settings p t (skipping d)) (replay cs)
        (replay (cs ++ behind)) (replay-BreaksAlike cs behind)

  -- Where the loop over the buffer is left with a command that failed, after however many that did not end it, the commands
  -- behind leave no trace, however many there are: the connections and the fates are those without them, and behind these
  -- fates only the failed command is put back into the buffer.
  pub retry_buffer-forgets :
      (cs behind : List RedisCommand) (t s : S) (fates : List Fate) (c : RedisCommand)
      → replay cs t ≡ done (s, fates, some c)
      → retry_buffer (cs ++ behind) t ≡ done (s, fates ++ Fate.buffered c ∷ [])
  unfolding retry_buffer
  retry_buffer-forgets cs behind t s fates c e =
      rw (replay-BreaksAlike cs behind t s fates c e) refl
