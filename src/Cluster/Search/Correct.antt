-- ===== src/Cluster/Search/Correct.antt =====
-- The binary search against the linear scan, for the two cargo profiles.
use fred_rs.Prelude.{
  ℕ, zero, suc, ◌+◌, ◌-◌, ◌/◌, ◌^◌, ◌<◌, ◌≤◌, ◌≡◌, ◌∙◌, ◌⊎◌, inl, inr, true, false, Option, none,
  some, List, leb, ltb, length, get_elem?, get_elem?-some, get_elem?-lt, arith, Bool-cases, ltb→lt,
  ltb→ge, ge→ltb, subst, leb→le, leb→gt,
}
use fred_rs.Machine.{
  Profile, debug, release, Outcome, done, panicked, ◌>>=◌, usize_sub, usize_bound, usize_sub-done,
  usize_sub-debug, usize_sub-release,
}
use fred_rs.Cluster.Types.{SlotRange, redis_cluster_slots}
use fred_rs.Cluster.Search.{search_loop, binary_search}
use fred_rs.Cluster.Search.Spec.{
  IsTable, Answers, before_first, before_first-true, before_first-false, IsTable-order,
  IsTable-range,
}
use fred_rs.Cluster.Search.Steps.{loop_exit, loop_below, loop_above, loop_hit, loop_wrapped}

-- The ranges left of `low` end before the slot, and those right of `high` start behind it.
record Bounds (slots : List SlotRange) (slot low high : ℕ) : Type 0 where
  left : (i : ℕ) (r : SlotRange) → i < low → get_elem? slots i ≡ some r → r.end < slot
  right : (i : ℕ) (r : SlotRange) → high < i → get_elem? slots i ≡ some r → slot < r.start

module _ (slots : List SlotRange) (slot : ℕ) (table : IsTable slots) where
  right_of :
      (mid : ℕ) (curr : SlotRange)
      → get_elem? slots mid ≡ some curr
      → slot < curr.start
      → (i : ℕ) (r : SlotRange) → mid ≤ i
      → get_elem? slots i ≡ some r
      → slot < r.start
  right_of mid curr e h i r le q = elim (Bool-cases (ltb mid i)) [
    | inl lt ↦ omega (
      arith,
      IsTable-order slots mid i curr r table (ltb→lt mid i lt) e q,
      IsTable-range slots mid curr table e,
    )
    | inr ge ↦
        let same : mid ≡ i = omega (arith, ltb→ge mid i ge) in
        let same' : curr ≡ r = cc in rw (← same') h
  ]

  left_of :
      (mid : ℕ) (curr : SlotRange)
      → get_elem? slots mid ≡ some curr
      → curr.end < slot
      → (i : ℕ) (r : SlotRange) → i < mid + 1
      → get_elem? slots i ≡ some r
      → r.end < slot
  left_of mid curr e h i r lt q = elim (Bool-cases (ltb i mid)) [
    | inl lt' ↦ omega (
      arith,
      IsTable-order slots i mid r curr table (ltb→lt i mid lt') q e,
      IsTable-range slots mid curr table e,
    )
    | inr ge ↦
        let same : mid ≡ i = omega (arith, ltb→ge i mid ge) in
        let same' : curr ≡ r = cc in rw (← same') h
  ]

  -- With the bounds crossed, no range holds the slot.
  crossed : (low high : ℕ) → Bounds slots slot low high → high < low → Answers slots slot none
  crossed low high b h i r q = elim (Bool-cases (ltb i low)) [
    | inl lt ↦ ground (arith, b.left i r (ltb→lt i low lt) q)
    | inr ge ↦ ground (arith, b.right i r (omega (arith, ltb→ge i low ge)) q)
  ]

  -- With the bounds crossed, the first range starts before the slot.
  crossed_first :
      (low high : ℕ)
      → high < length slots
      → Bounds slots slot low high
      → high < low
      → before_first slots slot ≡ false
  crossed_first low high inside b h =
      let (r, e) = get_elem?-some slots 0 (omega arith) in
      before_first-false slots slot r e
        (omega (arith, b.left 0 r (omega arith) e, IsTable-range slots 0 r table e))

  hit_first :
      (mid : ℕ) (curr : SlotRange)
      → get_elem? slots mid ≡ some curr
      → curr.start ≤ slot
      → before_first slots slot ≡ false
  hit_first mid curr e h =
      let (r, e0) = get_elem?-some slots 0 (omega (arith, get_elem?-lt slots mid curr e)) in
      elim (Bool-cases (ltb slot r.start)) [
        | inl lt ↦
            absurd
              (omega (arith, right_of 0 r e0 (ltb→lt slot r.start lt) mid curr (omega arith) e))
        | inr ge ↦ before_first-false slots slot r e0 (ltb→ge slot r.start ge)
      ]

-- What becomes of `mid - 1` at `mid = 0`: a panic, or a bound that leaves the table.
abbrev pub underflow : Profile → Outcome (Option ℕ)
underflow debug = panicked
underflow release = done none

-- How a run ends: by the underflow before the table, and with an answer otherwise.
abbrev pub Ends : Profile → List SlotRange → ℕ → Outcome (Option ℕ) → Type 0
Ends p slots slot out =
    ((before_first slots slot ≡ true) × (out ≡ underflow p))
    ⊎ ((before_first slots slot ≡ false) × (o : Option ℕ) × (out ≡ done o) × Answers slots slot o)

wrapped_round :
    (p : Profile) (slots : List SlotRange) (slot fuel low m : ℕ)
    → length slots < 2 ^ 63 - 1
    → low ≡ 0
    → m ≡ 0
    → 0 < fuel
    → (usize_sub p m 1 >>= λ high'. search_loop p slots slot fuel low high') ≡ underflow p
wrapped_round p slots slot zero low m small l e h = absurd (omega arith)
wrapped_round debug slots slot (suc fuel) low m small l e h = rw (e, usize_sub-debug)
wrapped_round release slots slot (suc fuel) low m small l e h =
    rw (l, e, usize_sub-release) (loop_wrapped slots slot fuel small)

module _ (p : Profile) (slots : List SlotRange) (slot : ℕ) (table : IsTable slots)
    (small : length slots < 2 ^ 63 - 1) where
  -- With enough fuel the loop ends.
  search_loop-Ends :
      (fuel low high : ℕ)
      → high < length slots
      → low ≤ high + 1
      → high + 2 < fuel + low
      → Bounds slots slot low high
      → Ends p slots slot (search_loop p slots slot fuel low high)
  search_loop-Ends zero low high inside near enough b = absurd (omega arith)
  search_loop-Ends (suc fuel) low high inside near enough b = elim (Bool-cases (leb low high)) [
    | inr gt ↦
        let gt' = leb→gt low high gt in
        inr (
          crossed_first slots slot table low high inside b gt',
          none,
          loop_exit p slots slot fuel low high gt',
          crossed slots slot table low high b gt',
        )
    | inl le ↦
        let le' = leb→le low high le in
        let mid = (low + high) / 2 in
        let (curr, e) = get_elem?-some slots mid (omega arith) in
        let fits : low + high < usize_bound = omega arith in
        elim (Bool-cases (ltb slot curr.start)) [
          | inl before ↦
              let before' = ltb→lt slot curr.start before in
              let round = loop_below p slots slot fuel low high le' fits curr e before' in
              elim (Bool-cases (ltb 0 mid)) [
                | inl pos ↦
                    let pos' = ltb→lt 0 mid pos in
                    let rest =
                      search_loop-Ends fuel low (mid - 1) (omega arith) (omega arith) (omega arith)
                        (record {
                          left = b.left;
                          right = λ i r lt.
                              right_of slots slot table mid curr e before' i r (omega arith);
                        }) in
                    rw (round, usize_sub-done p mid 1 pos') rest
                | inr start ↦
                    let z : mid ≡ 0 = omega (arith, ltb→ge 0 mid start) in
                    inl (
                      before_first-true slots slot curr
                          (subst (λ k. get_elem? slots k ≡ some curr) z e) before',
                      round
                          ∙ wrapped_round p slots slot fuel low mid small (omega arith) z
                              (omega arith),
                    )
              ]
          | inr from ↦
              let from' = ltb→ge slot curr.start from in
              elim (Bool-cases (ltb curr.end slot)) [
                | inl behind ↦
                    let behind' = ltb→lt curr.end slot behind in
                    let rest =
                      search_loop-Ends fuel (mid + 1) high inside (omega arith) (omega arith)
                        (record {
                          left = left_of slots slot table mid curr e behind';
                          right = b.right;
                        }) in
                    rw (loop_above p slots slot fuel low high le' fits curr e from' behind') rest
                | inr upto ↦
                    let upto' = ltb→ge curr.end slot upto in
                    inr (
                      hit_first slots slot table mid curr e from',
                      some mid,
                      loop_hit p slots slot fuel low high le' fits curr e from' upto',
                      (curr, e, ground arith),
                    )
              ]
        ]
  ]

  -- On a table in order that is not empty, of fewer than 2^63 - 1 ranges, the search for a slot up to 16384 ends with the
  -- fuel of `binary_search`: in front of the first range by the underflow of the build, and else with an answer, the index
  -- of a range that holds the slot, or nothing where no range holds it.
  pub binary_search-Ends :
      slot ≤ redis_cluster_slots → 0 < length slots → Ends p slots slot (binary_search p slots slot)
  unfolding binary_search
  binary_search-Ends le pos =
      rw (ge→ltb redis_cluster_slots slot le, usize_sub-done p (length slots) 1 pos)
        (search_loop-Ends (length slots + 2) 0 (length slots - 1) (omega arith) (omega arith)
          (omega arith)
          (record {
            left = λ i r h. absurd (omega arith);
            right = λ i r h q. absurd (omega (arith, get_elem?-lt slots i r q));
          }))
