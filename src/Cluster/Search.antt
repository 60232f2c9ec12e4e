-- ===== src/Cluster/Search.antt =====
-- `binary_search` of src/protocol/utils.rs.
pub mod Spec
mod Steps
pub mod Correct
use fred_rs.Prelude.{
  ℕ, zero, suc, ◌+◌, ◌/◌, ◌<◌, ◌≤◌, ◌≡◌, refl, ◌⊎◌, inl, inr, Bool, true, false, ◌&&◌, Option, none,
  some, List, [], ◌∷◌, ltb, leb, if◌then◌else◌, length, get_elem?, find?, arith,
}
use fred_rs.Machine.{Profile, Outcome, done, panicked, exhausted, ◌>>=◌, usize_add, usize_sub}
use fred_rs.Cluster.Types.{SlotRange, redis_cluster_slots}

-- The `while low <= high` loop; each round takes one unit of fuel.
unfoldable pub search_loop : Profile → List SlotRange → ℕ → ℕ → ℕ → ℕ → Outcome (Option ℕ)
search_loop p slots slot zero low high = exhausted
search_loop p slots slot (suc fuel) low high = elim (leb low high) [
  | false ↦ done none
  | true ↦ do
    sum ← usize_add p low high
    let mid = sum / 2
    elim (get_elem? slots mid) [
      | none ↦ done none
      | some curr ↦ elim (ltb slot curr.start) [
        | true ↦ do high' ← usize_sub p mid 1; search_loop p slots slot fuel low high'
        | false ↦ elim (ltb curr.end slot) [
          | true ↦ do low' ← usize_add p mid 1; search_loop p slots slot fuel low' high
          | false ↦ done (some mid)
        ]
      ]
    ]
]

unfoldable pub binary_search : Profile → List SlotRange → ℕ → Outcome (Option ℕ)
binary_search p slots slot = if ltb redis_cluster_slots slot then done none else (do
  high ← usize_sub p (length slots) 1
  search_loop p slots slot (length slots + 2) 0 high)
