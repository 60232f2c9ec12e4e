-- ===== src/Cluster/Routing/Lookup.antt =====
-- `get_server` against the linear scan of the table.
use fred_rs.Prelude.{
  ℕ, ◌≤◌, ◌<◌, ◌^◌, ◌-◌, ◌≡◌, refl, ap, ◌∙◌, inl, inr, Option, none, some, List, [], ◌∷◌, length,
  arith, if◌then◌else◌,
}
use fred_rs.Machine.{Profile, debug, release, Outcome, done, panicked, ◌>>=◌}
use fred_rs.Cluster.Types.{Server, SlotRange, ClusterRouting, redis_cluster_slots}
use fred_rs.Cluster.Search.Spec.{owner, IsTable, before_first, pick, pick-owner}
use fred_rs.Cluster.Search.Correct.{binary_search-Ends, underflow}
use fred_rs.Cluster.Routing.{get_server, get_from, primary_of, primary_at}

-- The outcome of a lookup before the table: a panic where overflow is checked.
abbrev missed : Profile → Outcome (Option Server)
missed debug = panicked
missed release = done none

primary_at-pick :
    (slots : List SlotRange) (o : Option ℕ) → primary_at slots o ≡ primary_of (pick slots o)
primary_at-pick slots none = refl
primary_at-pick slots (some i) = refl

underflow-missed :
    (p : Profile) (slots : List SlotRange)
    → (underflow p >>= λ idx. done (primary_at slots idx)) ≡ missed p
underflow-missed debug slots = refl
underflow-missed release slots = refl

-- On a table in order, of fewer than 2^63 - 1 ranges, the lookup of a slot up to 16384 always ends: with the primary node
-- of the range that holds the slot, or with nothing where none does. A slot in front of the first range is the exception:
-- there the build with overflow checks panics, and the other one returns nothing.
pub get_server-Ends :
    (p : Profile) (c : ClusterRouting) (slot : ℕ)
    → IsTable c.slots
    → length c.slots < 2 ^ 63 - 1
    → slot ≤ redis_cluster_slots
    → get_server p c slot
      ≡ (if before_first c.slots slot then missed p else done (primary_of (owner c.slots slot)))
unfolding get_server
get_server-Ends p c slot table small le = go c.slots table small
  where
    go :
        (slots : List SlotRange)
        → IsTable slots
        → length slots < 2 ^ 63 - 1
        → get_from p slots slot
          ≡ (if before_first slots slot then missed p else done (primary_of (owner slots slot)))
    go [] t s = refl
    go (r ∷ rs) t s = elim (binary_search-Ends p (r ∷ rs) slot t s le (omega arith)) [
      | inl (b, e) ↦ rw (e, b) (underflow-missed p (r ∷ rs))
      | inr (b, o, e, a) ↦
          rw (e, b)
            (ap done (primary_at-pick (r ∷ rs) o ∙ ap primary_of (pick-owner (r ∷ rs) slot o t a)))
    ]
