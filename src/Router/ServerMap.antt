-- ===== src/Router/ServerMap.antt =====
-- `HashMap<Server, V>`: its entries, in some order, with distinct keys. Two servers are one key where host and port are
-- equal.
use fred_rs.Prelude.{
  ◌≡◌, refl, sym, ◌∙◌, Bool, true, ◌&&◌, Option, none, some, List, [], ◌∷◌, if◌then◌else◌, inl, inr,
  arith, ==_iff, ◌==◌, Bool-cases,
}
use fred_rs.Text.{bytes_eq, bytes_eq_iff, bytes_eq_refl}
use fred_rs.Cluster.Types.{Server, server_eq}

pub server_eq_refl : (a : Server) → server_eq a a ≡ true
unfolding server_eq
server_eq_refl a = rw (bytes_eq_refl a.host, (==_iff a.port a.port).1 refl) refl

both : (x y : Bool) → x && y ≡ true → (x ≡ true) × (y ≡ true)
both x y e = ground arith

server_eq-fields : (a b : Server) → server_eq a b ≡ true → (a.host ≡ b.host) × (a.port ≡ b.port)
unfolding server_eq
server_eq-fields a b h =
    let e = both (bytes_eq a.host b.host) (a.port == b.port) h in
    ((bytes_eq_iff a.host b.host).0 e.0, (==_iff a.port b.port).0 e.1)

-- Equal servers are the same key.
pub server_eq-left : (a b c : Server) → server_eq a b ≡ true → server_eq a c ≡ server_eq b c
unfolding server_eq
server_eq-left a b c h = let e = server_eq-fields a b h in rw (e.0, e.1) refl

pub server_eq-right : (a b c : Server) → server_eq a b ≡ true → server_eq c a ≡ server_eq c b
unfolding server_eq
server_eq-right a b c h = let e = server_eq-fields a b h in rw (e.0, e.1) refl

pub server_eq-sym : (a b : Server) → server_eq a b ≡ true → server_eq b a ≡ true
server_eq-sym a b h = sym (server_eq-left a b a h) ∙ server_eq_refl a

abbrev pub ServerMap {ℓ} : Type ℓ → Type ℓ
ServerMap V = List (Server × V)

module _ {ℓ} {V : Type ℓ} where
  -- `get`
  unfoldable pub get : Server → ServerMap V → Option V
  get k [] = none
  get k (e ∷ m) = if server_eq e.0 k then some e.1 else get k m

  -- `insert`, of a key that may be there.
  unfoldable pub put : Server → V → ServerMap V → ServerMap V
  put k v [] = (k, v) ∷ []
  put k v (e ∷ m) = if server_eq e.0 k then (e.0, v) ∷ m else e ∷ put k v m

  -- `remove`
  unfoldable pub erase : Server → ServerMap V → ServerMap V
  erase k [] = []
  erase k (e ∷ m) = let rest = erase k m in if server_eq e.0 k then rest else e ∷ rest

  pub get-put :
      (k j : Server) (v : V) (m : ServerMap V)
      → get j (put k v m) ≡ (if server_eq k j then some v else get j m)
  unfolding get put
  get-put k j v [] = refl
  get-put k j v (e ∷ m) = elim (Bool-cases (server_eq e.0 k)) [
    | inl same ↦ rw same (ground (arith, server_eq-left e.0 k j same))
    | inr other ↦ rw other (
        ground (
          arith,
          server_eq-left e.0 k j,
          server_eq-left k j e.0,
          server_eq-sym e.0 k,
          get-put k j v m,
          server_eq-right k j e.0,
        ))
  ]

  pub get-same : (k j : Server) (m : ServerMap V) → server_eq k j ≡ true → get k m ≡ get j m
  unfolding get
  get-same k j [] h = refl
  get-same k j (e ∷ m) h = rw (server_eq-right k j e.0 h, get-same k j m h) refl

  pub get-erase :
      (k j : Server) (m : ServerMap V)
      → get j (erase k m) ≡ (if server_eq k j then none else get j m)
  unfolding get erase
  get-erase k j [] = ground arith
  get-erase k j (e ∷ m) = ground (
    arith,
    server_eq-left e.0 k j,
    server_eq-left k j e.0,
    server_eq-sym e.0 k,
    get-erase k j m,
    server_eq-right k j e.0,
  )
