-- ===== src/Cluster/Search/Steps.antt =====
-- One round of the loop of `binary_search`, branch by branch.
use fred_rs.Prelude.{
  ℕ, suc, ◌+◌, ◌-◌, ◌/◌, ◌^◌, ◌<◌, ◌≤◌, ◌≡◌, none, some, List, length, get_elem?, get_elem?-none,
  arith,
}
use fred_rs.Machine.{Profile, release, done, ◌>>=◌, usize_sub, usize_add-done, usize_bound, u64_max}
use fred_rs.Cluster.Types.{SlotRange}
use fred_rs.Cluster.Search.{search_loop}

module _ (p : Profile) (slots : List SlotRange) (slot fuel low high : ℕ) where
  pub loop_exit : high < low → search_loop p slots slot (suc fuel) low high ≡ done none
  unfolding search_loop
  loop_exit h = ground arith

  module _ (le : low ≤ high) (fits : low + high < usize_bound) where
    pub loop_outside :
        get_elem? slots ((low + high) / 2) ≡ none
        → search_loop p slots slot (suc fuel) low high ≡ done none
    unfolding search_loop
    loop_outside e = ground (arith, usize_add-done p low high)

    module _ (curr : SlotRange) (e : get_elem? slots ((low + high) / 2) ≡ some curr) where
      pub loop_below :
          slot < curr.start
          → search_loop p slots slot (suc fuel) low high ≡ (
              usize_sub p ((low + high) / 2) 1 >>= λ high'. search_loop p slots slot fuel low high')
      unfolding search_loop
      loop_below h = ground (arith, usize_add-done p low high)

      pub loop_above :
          curr.start ≤ slot
          → curr.end < slot
          → search_loop p slots slot (suc fuel) low high
            ≡ search_loop p slots slot fuel ((low + high) / 2 + 1) high
      unfolding search_loop
      loop_above g h =
          ground (arith, usize_add-done p low high, usize_add-done p ((low + high) / 2) 1)

      pub loop_hit :
          curr.start ≤ slot
          → slot ≤ curr.end
          → search_loop p slots slot (suc fuel) low high ≡ done (some ((low + high) / 2))
      unfolding search_loop
      loop_hit g h = ground (arith, usize_add-done p low high)

-- A wrapped upper bound ends the search: the middle lies outside the table.
pub loop_wrapped :
    (slots : List SlotRange) (slot fuel : ℕ)
    → length slots < 2 ^ 63 - 1
    → search_loop release slots slot (suc fuel) 0 u64_max ≡ done none
loop_wrapped slots slot fuel h =
    loop_outside release slots slot fuel 0 u64_max (omega arith) (omega arith)
      (get_elem?-none slots ((0 + u64_max) / 2) (omega arith))
