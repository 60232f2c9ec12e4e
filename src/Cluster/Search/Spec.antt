-- ===== src/Cluster/Search/Spec.antt =====
-- What a lookup in a slot table promises: the linear scan, and the order of a well-formed table.
use fred_rs.Prelude.{
  ℕ, zero, suc, ◌<◌, ◌≤◌, ◌≡◌, refl, sym, ◌∙◌, Bool, true, false, ◌&&◌, Option, none, some, List,
  [], ◌∷◌, leb, ltb, get_elem?, find?, All, All-get_elem?, arith,
}
use fred_rs.Cluster.Types.{SlotRange}

abbrev pub contains : SlotRange → ℕ → Bool
contains r slot = leb r.start slot && leb slot r.end

-- The first range that holds the slot, by a scan from the left.
abbrev pub owner : List SlotRange → ℕ → Option SlotRange
owner slots slot = find? (λ r. contains r slot) slots

-- The ranges are not empty, do not overlap and stand in ascending order.
abbrev pub IsTable : List SlotRange → Type 0
IsTable [] = Unit {0}
IsTable (r ∷ rs) = (r.start ≤ r.end) × All (λ (q : SlotRange). r.end < q.start) rs × IsTable rs

-- An index answers a lookup: it points at a range with the slot, or there is no such range.
abbrev pub Answers : List SlotRange → ℕ → Option ℕ → Type 0
Answers slots slot none =
    (i : ℕ) (r : SlotRange) → get_elem? slots i ≡ some r → contains r slot ≡ false
Answers slots slot (some i) =
    (r : SlotRange) × (get_elem? slots i ≡ some r) × (contains r slot ≡ true)

-- Whether the slot stands before the whole table.
abbrev pub before_first : List SlotRange → ℕ → Bool
before_first [] slot = false
before_first (r ∷ rs) slot = ltb slot r.start

abbrev pub pick : List SlotRange → Option ℕ → Option SlotRange
pick slots none = none
pick slots (some i) = get_elem? slots i

-- In a table an earlier range ends before a later one starts.
pub IsTable-order :
    (slots : List SlotRange) (i j : ℕ) (a b : SlotRange)
    → IsTable slots
    → i < j
    → get_elem? slots i ≡ some a
    → get_elem? slots j ≡ some b
    → a.end < b.start
IsTable-order [] i j a b t h p q = cc
IsTable-order (r ∷ rs) i zero a b t h p q = absurd (omega arith)
IsTable-order (r ∷ rs) zero (suc j) a b t h p q =
    let e : r ≡ a = cc in rw (← e) (All-get_elem? (λ (x : SlotRange). r.end < x.start) rs j b t.1 q)
IsTable-order (r ∷ rs) (suc i) (suc j) a b t h p q = IsTable-order rs i j a b t.2 (omega arith) p q

pub IsTable-range :
    (slots : List SlotRange) (i : ℕ) (a : SlotRange)
    → IsTable slots
    → get_elem? slots i ≡ some a
    → a.start ≤ a.end
IsTable-range [] i a t p = cc
IsTable-range (r ∷ rs) zero a t p = let e : r ≡ a = cc in rw (← e) t.0
IsTable-range (r ∷ rs) (suc i) a t p = IsTable-range rs i a t.2 p

-- The scan finds nothing exactly where no range holds the slot.
owner-none :
    (slots : List SlotRange) (slot : ℕ)
    → ((i : ℕ) (r : SlotRange) → get_elem? slots i ≡ some r → contains r slot ≡ false)
    → owner slots slot ≡ none
owner-none [] slot h = refl
owner-none (r ∷ rs) slot h = rw (h 0 r refl) (owner-none rs slot (λ i. h (suc i)))

owner-some :
    (slots : List SlotRange) (slot i : ℕ) (a : SlotRange)
    → IsTable slots
    → get_elem? slots i ≡ some a
    → contains a slot ≡ true
    → owner slots slot ≡ some a
owner-some [] slot i a t p c = cc
owner-some (r ∷ rs) slot zero a t p c = let e : r ≡ a = cc in rw (e, c)
owner-some (r ∷ rs) slot (suc i) a t p c =
    let before = All-get_elem? (λ (x : SlotRange). r.end < x.start) rs i a t.1 p in
    ground (arith, owner-some rs slot i a t.2 p c)

-- In a table every answer is the scan's.
pub pick-owner :
    (slots : List SlotRange) (slot : ℕ) (o : Option ℕ)
    → IsTable slots
    → Answers slots slot o
    → pick slots o ≡ owner slots slot
pick-owner slots slot none t a = sym (owner-none slots slot a)
pick-owner slots slot (some i) t (r, p, c) = p ∙ sym (owner-some slots slot i r t p c)

pub before_first-true :
    (slots : List SlotRange) (slot : ℕ) (r : SlotRange)
    → get_elem? slots 0 ≡ some r
    → slot < r.start
    → before_first slots slot ≡ true
before_first-true [] slot r e h = cc
before_first-true (a ∷ rs) slot r e h = ground arith

pub before_first-false :
    (slots : List SlotRange) (slot : ℕ) (r : SlotRange)
    → get_elem? slots 0 ≡ some r
    → r.start ≤ slot
    → before_first slots slot ≡ false
before_first-false [] slot r e h = cc
before_first-false (a ∷ rs) slot r e h = ground arith

-- Before a table there is no range for the slot.
pub before_first-owner :
    (slots : List SlotRange) (slot : ℕ)
    → IsTable slots
    → before_first slots slot ≡ true
    → owner slots slot ≡ none
before_first-owner [] slot t h = refl
before_first-owner (r ∷ rs) slot t h = ground (arith, later rs t.1)
  where
    later :
        (qs : List SlotRange) → All (λ (q : SlotRange). r.end < q.start) qs → owner qs slot ≡ none
    later [] a = refl
    later (q ∷ qs) a = ground (arith, later qs a.1)
