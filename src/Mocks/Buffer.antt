-- ===== src/Mocks/Buffer.antt =====
-- `Buffer` of src/modules/mocks.rs: a queue of the commands, each answered with `QUEUED`.
use fred_rs.Prelude.{◌≡◌, refl, ap, Option, none, some, List, [], ◌∷◌, ◌++◌}
use fred_rs.Error.{Result, ok}
use fred_rs.Value.{RedisValue, values}
use fred_rs.Mocks.{MockCommand, process_all, process_transaction}

unfoldable push_back : List MockCommand → MockCommand → List MockCommand
push_back buffer c = buffer ++ (c ∷ [])

unfoldable push_front : List MockCommand → MockCommand → List MockCommand
push_front buffer c = c ∷ buffer

unfoldable pop_front : List MockCommand → Option MockCommand × List MockCommand
pop_front [] = (none, [])
pop_front (c ∷ cs) = (some c, cs)

unfoldable pub pop_back : List MockCommand → Option MockCommand × List MockCommand
pop_back [] = (none, [])
pop_back (c ∷ []) = (some c, [])
pop_back (c ∷ d ∷ cs) = let rest = pop_back (d ∷ cs) in (rest.0, c ∷ rest.1)

-- `Buffer::process_command`
unfoldable pub process_command :
    List MockCommand → MockCommand → Result RedisValue × List MockCommand
unfolding push_back
process_command buffer c = (ok RedisValue.queued, push_back buffer c)

abbrev all_queued : List MockCommand → List RedisValue
all_queued [] = []
all_queued (c ∷ cs) = RedisValue.queued ∷ all_queued cs

append-one :
    (xs : List MockCommand) (c : MockCommand) (zs : List MockCommand)
    → (xs ++ (c ∷ [])) ++ zs ≡ xs ++ (c ∷ zs)
append-one [] c zs = refl
append-one (x ∷ xs) c zs = ap (λ (l : List MockCommand). x ∷ l) (append-one xs c zs)

append-nil : (xs : List MockCommand) → xs ++ [] ≡ xs
append-nil [] = refl
append-nil (x ∷ xs) = ap (λ (l : List MockCommand). x ∷ l) (append-nil xs)

all-queued :
    (buffer cs : List MockCommand)
    → process_all process_command buffer cs ≡ (ok (all_queued cs), buffer ++ cs)
unfolding process_all process_command push_back
all-queued buffer [] = rw (append-nil buffer) refl
all-queued buffer (c ∷ cs) = rw (all-queued (buffer ++ (c ∷ [])) cs, append-one buffer c cs) refl

-- A transaction on the buffer is answered with `QUEUED` for each command, and puts the commands behind those that are
-- there, in their order.
process_transaction-buffer :
    (buffer cs : List MockCommand)
    → process_transaction process_command buffer cs
      ≡ (ok (RedisValue.array (values (all_queued cs))), buffer ++ cs)
unfolding process_transaction
process_transaction-buffer buffer cs = rw (all-queued buffer cs) refl

-- What is pushed to the back is popped from there first.
pop_back-push_back :
    (buffer : List MockCommand) (c : MockCommand) → pop_back (push_back buffer c) ≡ (some c, buffer)
unfolding pop_back push_back
pop_back-push_back [] c = refl
pop_back-push_back (d ∷ []) c = refl
pop_back-push_back (d ∷ e ∷ ds) c = rw (pop_back-push_back (e ∷ ds) c) refl
