-- ===== src/Router/Replicas/Rounds.antt =====
-- The turns of the replicas of one primary node.
use fred_rs.Prelude.{
  ℕ, zero, suc, ◌+◌, ◌%◌, ◌<◌, ◌≡◌, refl, ap, ◌∙◌, Option, some, List, [], ◌∷◌, arith, length,
  get_elem?, get_elem?-lt, round,
}
use fred_rs.Machine.{Profile, Outcome, done, ◌>>=◌, usize_add-done, usize_rem-done, usize_bound}
use fred_rs.Cluster.Types.{Server}
use fred_rs.Router.ServerMap.{get, put, get-put, server_eq_refl}
use fred_rs.Router.Replicas.{ReplicaSet, next_replica}

-- The answers of `n` calls of `next_replica`.
unfoldable pub turns :
    Profile → ℕ → Server → ReplicaSet → Outcome (ReplicaSet × List (Option Server))
turns p zero primary s = done (s, [])
turns p (suc n) primary s = do
  first ← next_replica p primary s
  rest ← turns p n primary first.0
  done (rest.0, first.1 ∷ rest.1)

answers : List Server → ℕ → ℕ → List (Option Server)
answers rs start zero = []
answers rs start (suc n) = get_elem? rs (start % length rs) ∷ answers rs (start + 1) n

-- A call counts up and answers with the replica at the new count, modulo their number.
pub next_replica_lem :
    (p : Profile) (primary : Server) (s : ReplicaSet) (idx : ℕ) (rs : List Server)
    → get primary s.servers ≡ some (idx, rs)
    → 0 < length rs
    → idx + 1 < usize_bound
    → next_replica p primary s
      ≡ done (
        record s { servers = put primary (idx + 1, rs) s.servers },
        get_elem? rs ((idx + 1) % length rs),
      )
unfolding next_replica
next_replica_lem p primary s idx rs h pos small =
    rw (h, usize_add-done p idx 1 small, usize_rem-done (idx + 1) (length rs) pos) refl

turns-answers :
    (p : Profile) (n : ℕ) (primary : Server) (s : ReplicaSet) (idx : ℕ) (rs : List Server)
    → get primary s.servers ≡ some (idx, rs)
    → 0 < length rs
    → idx + n < usize_bound
    → (s' : ReplicaSet) × (turns p n primary s ≡ done (s', answers rs (idx + 1) n))
unfolding turns answers
turns-answers p zero primary s idx rs h pos small = (s, refl)
turns-answers p (suc n) primary s idx rs h pos small =
    let m = put primary (idx + 1, rs) s.servers in
    let now : get primary m ≡ some (idx + 1, rs) =
      get-put primary primary (idx + 1, rs) s.servers ∙ rw (server_eq_refl primary) refl in
    let (s', rest) =
      turns-answers p n primary (record s { servers = m }) (idx + 1) rs now pos (omega arith) in
    (s', rw (next_replica_lem p primary s idx rs h pos (omega arith), rest) refl)

get_elem?-answers :
    (rs : List Server) (start n k : ℕ)
    → k < n
    → get_elem? (answers rs start n) k ≡ some (get_elem? rs ((start + k) % length rs))
unfolding answers
get_elem?-answers rs start zero k h = absurd (omega arith)
get_elem?-answers rs start (suc n) zero h =
    let same : start ≡ start + 0 = omega arith in
    ap (λ (i : ℕ). some (get_elem? rs (i % length rs))) same
get_elem?-answers rs start (suc n) (suc k) h =
    let same : start + 1 + k ≡ start + suc k = omega arith in
    get_elem?-answers rs (start + 1) n k (omega arith)
    ∙ ap (λ (i : ℕ). some (get_elem? rs (i % length rs))) same

-- In as many calls as a primary node has replicas, each of them gets its turn, the counter staying within `usize`.
pub turns-fair :
    (p : Profile) (primary : Server) (s : ReplicaSet) (idx : ℕ) (rs : List Server) (j : ℕ)
    (replica : Server)
    → get primary s.servers ≡ some (idx, rs)
    → idx + length rs < usize_bound
    → get_elem? rs j ≡ some replica
    → (s' : ReplicaSet) × (given : List (Option Server)) × (turns p (length rs) primary s
        ≡ done (s', given))
      × (k : ℕ) × (get_elem? given k ≡ some (some replica))
turns-fair p primary s idx rs j replica h small at =
    let lt = get_elem?-lt rs j replica at in
    let (s', given) = turns-answers p (length rs) primary s idx rs h (omega arith) small in
    let (k, within, hits) = round (idx + 1) j (length rs) lt in
    (
      s',
      answers rs (idx + 1) (length rs),
      given,
      k,
      get_elem?-answers rs (idx + 1) (length rs) k within ∙ rw (hits, at) refl,
    )
