-- ===== src/Backchannel/Connection.antt =====
-- The connection of the backchannel, before and after its operations.
use fred_rs.Prelude.{
  ◌≡◌, refl, Bool, true, false, not, ◌&&◌, Option, none, some, arith, inl, inr, Bool-cases,
}
use fred_rs.Error.{Result, ok, err}
use fred_rs.Cluster.Types.{Server, server_eq}
use fred_rs.Router.ServerMap.{server_eq_refl, server_eq-sym}
use fred_rs.Backchannel.{
  Backchannel, is_server, both_equal, check_and_disconnect, check_and_create_transport,
  has_blocked_transport, current_server_is_blocked, should_close, connect,
}

server_eq_comm : (a b : Server) → server_eq a b ≡ server_eq b a
server_eq_comm a b = ground (arith, server_eq-sym a b, server_eq-sym b a)

both_equal_comm : (a b : Option Server) → both_equal a b ≡ both_equal b a
both_equal_comm none none = refl
both_equal_comm none (some b) = refl
both_equal_comm (some a) none = refl
both_equal_comm (some a) (some b) = server_eq_comm b a

-- The two tests for a connection to the blocked server agree.
has_blocked_transport-current_server :
    (b : Backchannel) → has_blocked_transport b ≡ current_server_is_blocked b
unfolding has_blocked_transport current_server_is_blocked
has_blocked_transport-current_server b = both_equal_comm b.blocked b.transport

-- What the answer says of the connection: after a success it is to the server, after an error there is none.
abbrev Connected : Server → Backchannel × Result Bool → Type 0
Connected server (b, ok created) = is_server b.transport server ≡ true
Connected server (b, err e) = b.transport ≡ none

Connected-connect :
    (created : Result (Unit {0})) (server : Server) (b : Backchannel)
    → Connected server (connect created server b)
Connected-connect (ok u) server b = server_eq_refl server
Connected-connect (err e) server b = refl

-- After `check_and_create_transport` returns without an error there is a connection to the server, and after an error
-- there is none. A new one is reported just where none to that server was there or its ping failed.
check_and_create_transport_lem :
    (ping_ok : Bool) (created : Result (Unit {0})) (server : Server) (b : Backchannel)
    → Connected server (check_and_create_transport ping_ok created server b)
      × (check_and_create_transport ping_ok (ok tt) server b).1
        ≡ ok (not (is_server b.transport server && ping_ok))
unfolding check_and_create_transport
check_and_create_transport_lem true created server b =
    elim (Bool-cases (is_server b.transport server)) [
      | inl there ↦ rw there (there, refl)
      | inr other ↦ rw other (Connected-connect created server b, refl)
    ]
check_and_create_transport_lem false created server b =
    elim (Bool-cases (is_server b.transport server)) [
      | inl there ↦ rw there (Connected-connect created server b, refl)
      | inr other ↦ rw other (Connected-connect created server b, refl)
    ]

should_close-server :
    (o : Option Server) (server : Server) → should_close o (some server) ≡ is_server o server
should_close-server none server = refl
should_close-server (some current) server = server_eq_comm server current

-- After `check_and_disconnect` for a server there is no connection to it, and one to another server is kept.
check_and_disconnect_lem :
    (server : Server) (b : Backchannel)
    → (is_server (check_and_disconnect (some server) b).transport server ≡ false)
      × (is_server b.transport server ≡ false → check_and_disconnect (some server) b ≡ b)
unfolding check_and_disconnect
check_and_disconnect_lem server b =
    rw (should_close-server b.transport server) (elim (Bool-cases (is_server b.transport server)) [
      | inl there ↦ rw there (refl, λ other. cc)
      | inr other ↦ rw other (other, λ same. refl)
    ])
