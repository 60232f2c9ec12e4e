-- ===== src/Frame/Special.antt =====
-- How src/router/responses.rs sorts the frames that answer no command: `check_pubsub_message`, and the errors on which the
-- client connects again, `check_special_errors`. The two features of the crate that such an error may need are Boolean
-- arguments.
use fred_rs.Prelude.{
  ◌≡◌, Bool, false, ◌||◌, ◌&&◌, not, Option, none, some, List, [], ◌∷◌, if◌then◌else◌, arith, refl,
}
use fred_rs.Text.{Str, text, trim, starts_with, from_utf8}
use fred_rs.Error.{RedisErrorKind, RedisError, Result, ok, err}
use fred_rs.Value.{RedisValue, Floats}
use fred_rs.Responses.{pretty_error}
use fred_rs.Frame.{Shape, FrameMethods, frame_to_str}
use fred_rs.Frame.Results.{frame_to_single_result}
use fred_rs.Frame.Pubsub.{Message, check_pubsub_formats, parse_pubsub_message}
use fred_rs.Frame.Keyspace.{KeyspaceEvent, parse_keyspace_notification}

-- What becomes of a frame: the caller gets it back, or it is broadcast, or it was no valid message.
data Routed : Type 0 where
  returned : Shape → Routed
  broadcast_keyspace : KeyspaceEvent → Routed
  broadcast_pubsub : Message → Routed
  invalid : RedisError → Routed

abbrev notify : Message → Option KeyspaceEvent → Routed
notify message none = Routed.broadcast_pubsub message
notify message (some event) = Routed.broadcast_keyspace event

abbrev auth_only : RedisError → RedisErrorKind → Option RedisError
auth_only e RedisErrorKind.auth = some e
auth_only e _ = none

abbrev auth_error : Result RedisValue → Option RedisError
auth_error (ok v) = none
auth_error (err e) = auth_only e (RedisError.kind e)

abbrev starts_with_any : List Str → Str → Bool
starts_with_any [] s = false
starts_with_any (p ∷ ps) s = starts_with s p || starts_with_any ps s

-- `prefixes` are the texts of `globals().reconnect_errors`. An error that is found is also broadcast.
unfoldable check_global_reconnect_errors : (enabled : Bool) → List Str → Shape → Option RedisError
check_global_reconnect_errors enabled prefixes (Shape.simple_error content) =
    if enabled
    then (if starts_with_any prefixes content then some (pretty_error content) else none)
    else none
check_global_reconnect_errors enabled prefixes _ = none

abbrev if_down : Str → Option Str
if_down s = if starts_with (trim s) (text "CLUSTERDOWN") then some s else none

abbrev down : Option Str → Option Str
down none = none
down (some s) = if_down s

unfoldable is_clusterdown_error : Shape → Option Str
is_clusterdown_error (Shape.simple_error content) = if_down content
is_clusterdown_error (Shape.blob_error content) = down (from_utf8 content)
is_clusterdown_error _ = none

abbrev first_error : Option RedisError → Option Str → Option RedisError → Option RedisError
first_error (some e) s rest = some e
first_error none (some s) rest = some (pretty_error s)
first_error none none rest = rest

down-named :
    (t : Option Str) (e : RedisError)
    → first_error none (down t) none ≡ some e
    → (s : Str) × (t ≡ some s) × (e ≡ pretty_error s)
down-named none e h = absurd (ground arith)
down-named (some s) e h = (s, refl, ground (arith, h))

module _ (methods : FrameMethods) (floats : Floats) where
  abbrev routed : Result Message → Routed
  routed (err e) = Routed.invalid e
  routed (ok message) =
      notify message (parse_keyspace_notification floats message.channel message.value)

  abbrev in_formats : Shape → Bool × Bool → Routed
  in_formats frame (is_resp3, is_resp2) =
      if not is_resp3 && not is_resp2
      then Routed.returned frame
      else routed (parse_pubsub_message methods floats frame is_resp3 is_resp2)

  unfoldable check_pubsub_message : Shape → Routed
  check_pubsub_message frame = in_formats frame (check_pubsub_formats methods floats frame)

  unfoldable parse_redis_auth_error : (enabled : Bool) → Shape → Option RedisError
  parse_redis_auth_error enabled frame =
      if enabled
      then (if methods.is_error frame
          then auth_error (frame_to_single_result methods floats frame)
          else none)
      else none

  unfoldable check_special_errors :
      (on_auth_error on_custom_errors : Bool) → List Str → Shape → Option RedisError
  unfolding parse_redis_auth_error is_clusterdown_error check_global_reconnect_errors
  check_special_errors on_auth_error on_custom_errors prefixes frame =
      first_error (parse_redis_auth_error on_auth_error frame) (is_clusterdown_error frame)
        (check_global_reconnect_errors on_custom_errors prefixes frame)

  -- Without the feature for authentication errors, an error that makes the client connect again is the one that the text of
  -- the frame names.
  check_special_errors-named :
      (on_custom_errors : Bool) (prefixes : List Str) (frame : Shape) (e : RedisError)
      → check_special_errors false on_custom_errors prefixes frame ≡ some e
      → (s : Str) × (frame_to_str frame ≡ some s) × (e ≡ pretty_error s)
  unfolding check_special_errors parse_redis_auth_error is_clusterdown_error
      check_global_reconnect_errors frame_to_str
  check_special_errors-named custom ps (Shape.simple_error s) e h = (s, refl, ground (arith, h))
  check_special_errors-named custom ps (Shape.blob_error s) e h = down-named (from_utf8 s) e h
  check_special_errors-named custom ps _ e h = absurd (ground arith)
