-- ===== src/Cluster/Address/Roundtrip.antt =====
-- Addresses and redirections that are printed and read back.
use fred_rs.Prelude.{ℕ, ◌≤◌, ◌≡◌, refl, some, [], ◌∷◌, ◌++◌, List, ap, ◌∙◌, arith}
use fred_rs.Text.{Str, text, split, to_string, bytes_eq, is_digit}
use fred_rs.Text.Split.{Lacks, split-joined, split-last}
use fred_rs.Text.Trim.{Visible, Visible-append, Digits-Visible, trim-Visible}
use fred_rs.Text.Decimal.{to_string-Digits, to_string-Lacks, parse_unsigned-to_string}
use fred_rs.Error.{ok}
use fred_rs.Cluster.Address.{
  new_server, display, from_str, server_to_parts, ClusterErrorKind, moved, ask, error_kind_str,
  error_kind_of, parse_cluster_error,
}

split-display :
    (host : Str) (port : ℕ)
    → Lacks b':' host
    → split b':' (display (new_server host port)) ≡ host ∷ to_string port ∷ []
unfolding display is_digit
split-display host port h =
    split-joined b':' host (to_string port) h
    ∙ ap (λ (ps : List Str). host ∷ ps)
        (split-last b':' (to_string port) (to_string-Lacks b':' port refl))

-- The printed form of a server whose host holds no colon and whose port is a `u16` is split into that host and port.
pub server_to_parts-display :
    (host : Str) (port : ℕ)
    → Lacks b':' host
    → port ≤ 65535
    → server_to_parts (display (new_server host port)) ≡ ok (host, port)
unfolding server_to_parts
server_to_parts-display host port h p =
    rw (split-display host port h, parse_unsigned-to_string 65535 port p)

display-Visible : (host : Str) (port : ℕ) → Visible host → Visible (display (new_server host port))
unfolding display
display-Visible host port v =
    Visible-append host (b':' ∷ to_string port) v
      ((omega arith, omega arith), Digits-Visible (to_string port) (to_string-Digits port))

-- A server whose host is printable ASCII without a colon and whose port is a `u16` is read back from its printed form.
from_str-display :
    (host : Str) (port : ℕ)
    → Visible host
    → Lacks b':' host
    → port ≤ 65535
    → from_str (display (new_server host port)) ≡ some (new_server host port)
unfolding from_str
from_str-display host port v h p = rw (
  trim-Visible (display (new_server host port)) (display-Visible host port v),
  split-display host port h,
  parse_unsigned-to_string 65535 port p,
)

error_kind_str-Lacks : (k : ClusterErrorKind) → Lacks b' ' (error_kind_str k)
unfolding error_kind_str text
error_kind_str-Lacks moved = (refl, (refl, (refl, (refl, (refl, tt)))))
error_kind_str-Lacks ask = (refl, (refl, (refl, tt)))

error_kind_of-str : (k : ClusterErrorKind) → error_kind_of (error_kind_str k) ≡ ok k
unfolding error_kind_str error_kind_of text bytes_eq
error_kind_of-str moved = refl
error_kind_of-str ask = refl

-- The text of a redirection, as the server sends it.
abbrev pub redirection_text : ClusterErrorKind → ℕ → Str → Str
redirection_text kind slot server =
    error_kind_str kind ++ (b' ' ∷ (to_string slot ++ (b' ' ∷ server)))

-- The text of a MOVED or ASK redirection, whose slot is a `u16` and whose address holds no space, is read back as its kind,
-- slot and address.
pub parse_cluster_error-text :
    (kind : ClusterErrorKind) (slot : ℕ) (server : Str)
    → slot ≤ 65535
    → Lacks b' ' server
    → parse_cluster_error (redirection_text kind slot server) ≡ ok (kind, slot, server)
unfolding parse_cluster_error is_digit
parse_cluster_error-text kind slot server h k = rw (
  split-joined b' ' (error_kind_str kind) (to_string slot ++ (b' ' ∷ server))
      (error_kind_str-Lacks kind),
  split-joined b' ' (to_string slot) server (to_string-Lacks b' ' slot refl),
  split-last b' ' server k,
  error_kind_of-str kind,
  parse_unsigned-to_string 65535 slot h,
)
