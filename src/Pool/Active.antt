-- ===== src/Pool/Active.antt =====
-- The client that a pool hands out, against the clients that are connected.
use native.Mathlib.Nat.{mod-lt, mod-add-mod, mod-eq_of_lt}
use fred_rs.Prelude.{
  ℕ, zero, suc, ◌+◌, ◌%◌, ◌<◌, ◌≡◌, refl, ap, ◌∙◌, subst, Bool, true, false, ◌⊎◌, inl, inr, some,
  List, length, get_elem?, get_elem?-some, get_elem?-lt, arith, Bool-cases, round,
}
use fred_rs.Machine.{Outcome, done, usize_rem-done}
use fred_rs.Responses.{incr_atomic}
use fred_rs.Pool.{RedisPool, client_at, first_active, next}

module _ {ℓ} {Client : Type ℓ} (is_connected : Client → Bool) where
  -- No client at the index is connected.
  abbrev pub IsIdle : List Client → ℕ → Type ℓ
  IsIdle clients i = (c : Client) → get_elem? clients i ≡ some c → is_connected c ≡ false

  abbrev Found : List Client → ℕ → ℕ → Outcome Client → Type ℓ
  Found clients n idx out =
      (c : Client) × (out ≡ done c)
      × ((is_connected c ≡ true) ⊎ ((k : ℕ) → k < n → IsIdle clients ((idx + k) % length clients)))

  client_at-done :
      (clients : List Client) (idx : ℕ) (c : Client)
      → get_elem? clients idx ≡ some c
      → client_at clients idx ≡ done c
  client_at-done clients idx c h = rw (h, client_at) refl

  step-active :
      (clients : List Client) (n idx : ℕ) (c : Client)
      → get_elem? clients idx ≡ some c
      → is_connected c ≡ true
      → first_active is_connected clients (suc n) idx ≡ done c
  unfolding first_active
  step-active clients n idx c e on = rw (client_at-done clients idx c e, on) refl

  step-idle :
      (clients : List Client) (n idx : ℕ) (c : Client)
      → get_elem? clients idx ≡ some c
      → is_connected c ≡ false
      → first_active is_connected clients (suc n) idx
        ≡ first_active is_connected clients n ((idx + 1) % length clients)
  unfolding first_active
  step-idle clients n idx c e off =
      rw
        (
          client_at-done clients idx c e,
          off,
          usize_rem-done (idx + 1) (length clients) (omega (arith, get_elem?-lt clients idx c e)),
        )
        refl

  -- What was passed over, and what the rest of the loop passes over.
  IsIdle-suc :
      (clients : List Client) (n idx : ℕ) (c : Client)
      → get_elem? clients idx ≡ some c
      → is_connected c ≡ false
      → ((k : ℕ) → k < n → IsIdle clients (((idx + 1) % length clients + k) % length clients))
      → (k : ℕ) → k < suc n
      → IsIdle clients ((idx + k) % length clients)
  IsIdle-suc clients n idx c e off rest zero lt other at =
      let here : (idx + 0) % length clients ≡ idx =
        let same : idx + 0 ≡ idx = omega arith in
        ap (λ (i : ℕ). i % length clients) same ∙ mod-eq_of_lt (get_elem?-lt clients idx c e) in
      let at' : get_elem? clients idx ≡ some other = rw here at at in
      let same : c ≡ other = cc in subst (λ (x : Client). is_connected x ≡ false) same off
  IsIdle-suc clients n idx c e off rest (suc k) lt other at =
      let same : idx + 1 + k ≡ idx + suc k = omega arith in
      subst (λ (i : ℕ). IsIdle clients i)
        (mod-add-mod (idx + 1) (length clients) k ∙ ap (λ (i : ℕ). i % length clients) same)
        (rest k (omega arith)) other at

  first_active-Found :
      (clients : List Client) (n idx : ℕ)
      → idx < length clients
      → Found clients n idx (first_active is_connected clients n idx)
  unfolding first_active
  first_active-Found clients zero idx h =
      let (c, e) = get_elem?-some clients idx h in
      (c, client_at-done clients idx c e, inr (λ k lt. absurd (omega arith)))
  first_active-Found clients (suc n) idx h =
      let (c, e) = get_elem?-some clients idx h in
      elim (Bool-cases (is_connected c)) [
        | inl on ↦ (c, step-active clients n idx c e on, inl on)
        | inr off ↦
            let (d, out, found) =
              first_active-Found clients n ((idx + 1) % length clients)
                (mod-lt (idx + 1) (omega arith)) in
            (
              d,
              step-idle clients n idx c e off ∙ out,
              elim found [
                | inl on ↦ inl on
                | inr rest ↦ inr (IsIdle-suc clients n idx c e off rest)
              ],
            )
      ]

  -- A pool that is not empty always hands out a client, and counts on. The client is connected, or none of them is.
  pub next-active :
      (pool : RedisPool Client)
      → 0 < length pool.clients
      → (c : Client) × (next is_connected pool
          ≡ done (record pool { last = (incr_atomic pool.last).0 }, c))
        × ((is_connected c ≡ true) ⊎ ((j : ℕ) → IsIdle pool.clients j))
  unfolding next
  next-active pool pos =
      let n = length pool.clients in
      let start = (incr_atomic pool.last).1 % n in
      let (c, out, found) =
        first_active-Found pool.clients n start (mod-lt (incr_atomic pool.last).1 pos) in
      (
        c,
        rw (usize_rem-done (incr_atomic pool.last).1 n pos, out) refl,
        elim found [
          | inl on ↦ inl on
          | inr idle ↦ inr (λ j other at.
              let (k, lt, hits) = round start j n (get_elem?-lt pool.clients j other at) in
              idle k lt other (rw hits at))
        ],
      )
