-- ===== src/Router/Commands/Fates.antt =====
-- About src/router/commands.rs and src/router/mod.rs: where one write leaves a command.
use fred_rs.Prelude.{◌≡◌, refl, Bool, true, false, Option, none, some, List, [], ◌∷◌, if◌then◌else◌}
use fred_rs.Error.{Result, ok, err}
use fred_rs.Machine.{Profile, Outcome, done, panicked, exhausted, ◌>>=◌}
use fred_rs.Cluster.Types.{Server}
use fred_rs.Command.Request.{RedisCommand, incr_check_attempted}
use fred_rs.Router.Writer.{Written}
use fred_rs.Router.Commands.{
  Attempt, Wire, Settings, Fate, write_command, write_replica_command, Write, sent_on, buffered_if,
  goes_to_all, checked, fallen_back, to_replica, from_primary, on_primary,
}

-- Holds of what a computation returns, if it returns.
abbrev pub Always {ℓ κ} : {A : Type ℓ} → (A → Type κ) → Outcome A → Type κ
Always P (done a) = P a
Always P panicked = Unit
Always P exhausted = Unit

pub Always->>= {ℓ κ λ₁ μ} :
    {A : Type ℓ} {B : Type κ} (P : A → Type λ₁) (Q : B → Type μ) (m : Outcome A) (f : A → Outcome B)
    → Always P m
    → ((a : A) → P a → Always Q (f a))
    → Always Q (m >>= f)
Always->>= P Q (done a) f h k = k a h
Always->>= P Q panicked f h k = tt
Always->>= P Q exhausted f h k = tt

abbrev pub AtMostOne : List Fate → Type 0
AtMostOne [] = Unit
AtMostOne (a ∷ []) = Unit
AtMostOne (a ∷ b ∷ rest) = ⊥

module _ {ℓ} {S : Type ℓ} (wire : Wire S) (settings : Settings) (p : Profile) where
  -- Only a write that ends the loop has left the command somewhere.
  abbrev pub IsWriteFate : List Fate → Result Written → Type 0
  IsWriteFate fates (ok Written.ignore) = AtMostOne fates
  IsWriteFate fates (err e) = AtMostOne fates
  IsWriteFate fates r = fates ≡ []

  abbrev pub IsFair : Write wire settings p → Type 0
  IsFair (s, fates, c, r) = IsWriteFate fates r

  no_fate : (r : Result Written) → IsWriteFate [] r
  no_fate (ok Written.ignore) = tt
  no_fate (ok (Written.backpressure back b)) = refl
  no_fate (ok (Written.sent server flushed)) = refl
  no_fate (ok Written.sent_all) = refl
  no_fate (ok (Written.disconnect server back x)) = refl
  no_fate (ok (Written.sync back)) = refl
  no_fate (err x) = tt

  buffered_if-IsFair :
      (c : RedisCommand) (a : Attempt × S) → IsFair (buffered_if wire settings p c a)
  buffered_if-IsFair c (Attempt.wrote w, s) = no_fate (ok w)
  buffered_if-IsFair c (Attempt.unwritten x c', s) = tt

  either-IsFair :
      (b : Bool) (x y : Write wire settings p) → IsFair x → IsFair y → IsFair (if b then x else y)
  either-IsFair true x y h k = h
  either-IsFair false x y h k = k

  pub either-Always :
      (b : Bool) (x y : Outcome (Write wire settings p))
      → Always IsFair x
      → Always IsFair y
      → Always IsFair (if b then x else y)
  either-Always true x y h k = h
  either-Always false x y h k = k

  checked-IsFair :
      (s : S) (c : RedisCommand) (r : Result RedisCommand)
      → IsFair (checked wire settings p (sent_on wire settings p) s c r)
  checked-IsFair s c (err e) = tt
  checked-IsFair s c (ok c') =
      either-IsFair (goes_to_all wire settings p c') _ _ (no_fate (wire.write_all_cluster s c').0)
        (buffered_if-IsFair c' (wire.write_command s c'))

  -- Holds of every outcome.
  anything {κ} : {A : Type κ} (m : Outcome A) → Always (λ a. Unit {0}) m
  anything (done a) = tt
  anything panicked = tt
  anything exhausted = tt

  pub write_command-IsFair :
      (s : S) (c : RedisCommand) → Always IsFair (write_command wire settings p s c)
  unfolding write_command
  write_command-IsFair s c =
      Always->>= (λ r. Unit {0}) IsFair (incr_check_attempted p settings.max_command_attempts c) _
        (anything _) (λ r u. checked-IsFair s c r)

  fallen_back-IsFair :
      (c : RedisCommand) (a : Attempt × S) → Always IsFair (fallen_back wire settings p c a)
  fallen_back-IsFair c (Attempt.wrote w, s) = no_fate (ok w)
  fallen_back-IsFair c (Attempt.unwritten e c', s) =
      either-Always settings.primary_fallback _ _
        (write_command-IsFair s (on_primary wire settings p c')) tt

  to_replica-IsFair :
      (primary : Server) (s : S) (c : RedisCommand) (r : Result RedisCommand)
      → Always IsFair (to_replica wire settings p primary s c r)
  to_replica-IsFair primary s c (err e) = tt
  to_replica-IsFair primary s c (ok c') = fallen_back-IsFair c' (wire.write_replica s primary c')

  from_primary-IsFair :
      (primary : Option Server) (s : S) (c : RedisCommand)
      → Always IsFair (from_primary wire settings p primary s c)
  from_primary-IsFair (some primary) s c =
      Always->>= (λ r. Unit {0}) IsFair (incr_check_attempted p settings.max_command_attempts c) _
        (anything _) (λ r u. to_replica-IsFair primary s c r)
  from_primary-IsFair none s c =
      either-Always settings.primary_fallback _ _
        (write_command-IsFair s (on_primary wire settings p c)) tt

  pub write_replica_command-IsFair :
      (s : S) (c : RedisCommand) → Always IsFair (write_replica_command wire settings p s c)
  unfolding write_replica_command
  write_replica_command-IsFair s c =
      either-Always c.use_replica _ _ (from_primary-IsFair (wire.find_connection s c) s c)
        (write_command-IsFair s c)
