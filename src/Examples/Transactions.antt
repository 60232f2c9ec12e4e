-- ===== src/Examples/Transactions.antt =====
-- A transaction of two commands on one server.
use fred_rs.Prelude.{ℕ, ◌≡◌, refl, true, false, none, some, List, [], ◌∷◌, arith}
use fred_rs.Error.{Result, ok}
use fred_rs.Machine.{debug, release, done}
use fred_rs.Cluster.Types.{Server}
use fred_rs.Cluster.Address.{new_server}
use fred_rs.Command.Kind.{RedisCommandKind}
use fred_rs.Command.Policy.{is_exec, is_discard}
use fred_rs.Command.Request.{RedisCommand}
use fred_rs.Command.Request
use fred_rs.Router.Transactions.{RouterResponse, Link, Event, sent, replied, duplicate, exec}
use fred_rs.Router.Transactions.Run.{Transaction, run, round, write_command, send_each}
use fred_rs.Router.Transactions.Answers.{replies, owed, run-answers}
use fred_rs.Router.Transactions.Attempts.{IsAttempt, round-IsAttempt}
use fred_rs.Router.Transactions.Ending.{run-done}
use fred_rs.Router.Transactions.Moved.{run-moved, is_added, IsMoved}
use fred_rs.Examples.Routing.{host}

abbrev server : Server
server = new_server host 7000

abbrev other : Server
other = new_server host 7001

abbrev set_command : RedisCommand
set_command = Request.new RedisCommandKind.set []

abbrev get_command : RedisCommand
get_command = Request.new RedisCommandKind.get []

abbrev trx : Transaction
trx = record {
  id = 7;
  abort_on_error = true;
  watched = none;
  max_command_attempts = 3;
  is_clustered = true;
}

-- The state is the list of the answers that are still to come; behind it each answer is the number 5.
abbrev next_answer : List (RouterResponse ℕ) → Result (RouterResponse ℕ) × List (RouterResponse ℕ)
next_answer [] = (ok (RouterResponse.transaction_result 5), [])
next_answer (a ∷ rest) = (ok a, rest)

abbrev scripted : Link (List (RouterResponse ℕ)) ℕ
scripted = record {
  find_connection = λ s c. some server;
  write_once = λ s c to. (ok tt, s);
  response = next_answer;
  sync_cluster = λ s. (ok tt, s);
  reconnect = λ s. (ok tt, s);
  redirect = λ s kind slot to. (ok tt, s);
  redirection_text = λ kind slot to. [];
}

-- Every answer is MOVED.
abbrev moving : Link (Unit {0}) ℕ
moving = record {
  find_connection = λ s c. some server;
  write_once = λ s c to. (ok tt, s);
  response = λ s. (ok (RouterResponse.moved 12 other), s);
  sync_cluster = λ s. (ok tt, s);
  reconnect = λ s. (ok tt, s);
  redirect = λ s kind slot to. (ok tt, s);
  redirection_text = λ kind slot to. [];
}

-- Every answer is the number 5.
abbrev answering : Link (Unit {0}) ℕ
answering = record {
  find_connection = λ s c. some server;
  write_once = λ s c to. (ok tt, s);
  response = λ s. (ok (RouterResponse.transaction_result 5), s);
  sync_cluster = λ s. (ok tt, s);
  reconnect = λ s. (ok tt, s);
  redirect = λ s kind slot to. (ok tt, s);
  redirection_text = λ kind slot to. [];
}

abbrev answers : List (RouterResponse ℕ)
answers = RouterResponse.continue ∷ RouterResponse.continue ∷ []

abbrev executed_log : List (Event ℕ)
executed_log =
    sent server (duplicate set_command)
    ∷ sent server (duplicate get_command)
    ∷ sent server (exec 7)
    ∷ replied (ok 5)
    ∷ []

executed_run :
    run scripted debug 0 trx 1 0 (set_command ∷ get_command ∷ []) answers
    ≡ done ([], executed_log, ok tt)
unfolding run round send_each write_command
executed_run = refl

run-answers_example : replies executed_log ≡ owed (ok tt)
run-answers_example =
    run-answers scripted debug 0 trx 1 0 (set_command ∷ get_command ∷ []) answers [] executed_log
      (ok tt) executed_run

round-IsAttempt_example :
    IsAttempt 7 server
      (set_command ∷ get_command ∷ [])
      none
      (round scripted trx 0 set_command (get_command ∷ []) answers).1
round-IsAttempt_example =
    round-IsAttempt scripted trx 0 set_command (get_command ∷ []) answers server refl

run-done_example :
    (r : Unit × List (Event ℕ) × Result Unit) × run answering release 0 trx 4 0
        (set_command ∷ get_command ∷ [])
        tt
      ≡ done r
run-done_example =
    run-done answering (λ s. tt) (λ s c. (server, refl)) release 0 trx
      (set_command ∷ get_command ∷ []) tt (omega arith)

moving-IsMoved :
    (s : Unit {0}) (c : RedisCommand) (to : Server)
    → is_added c ≡ false
    → IsMoved moving (moving.response (moving.write_once s c to).1).0
moving-IsMoved s c to h = (12, other, refl)

run-moved_example :
    ¬ (run moving debug 0 trx 100 0 (set_command ∷ get_command ∷ []) tt ≡ done (tt, [], ok tt))
unfolding Request.new is_exec is_discard
run-moved_example =
    run-moved moving (λ s c. (server, refl)) (λ s c to h. refl) moving-IsMoved (λ s slot to. refl)
      debug 0 trx 100 0 set_command (get_command ∷ []) tt (tt, [], ok tt) refl tt
