-- ===== src/Rpc/Client/Examples.antt =====
-- Instances of the theorems on the client.
use gitglasses.Rpc.Client.State.{Client, new_client}
use gitglasses.Rpc.Client.Requests.{answer, result}
use gitglasses.Rpc.Client.{Event, run, starts, comes_up, receives, sends, exits}
use gitglasses.Base.{true, ltb, if◌then◌else◌, ◌+◌, codes, List, ℕ, [], ◌∷◌, false, ◌≡◌, arith}
use gitglasses.Rpc.Client.Settled.{count, settled}
use gitglasses.Rpc.Client.Settled.Runs.{settled_once}
use gitglasses.Rpc.Client.Backoff.{run-HasBackoff, HasBackoff}

-- A client is started and greets the engine; a commit is asked for and answered, a search is cut off
-- by a crash, and the answer to it comes too late.
abbrev events : List (ℕ × Event)
events =
    (0, starts)
    ∷ (1, comes_up 1)
    ∷ (2, receives 1 (answer 1 result))
    ∷ (3, sends (codes "a") false)
    ∷ (4, sends (codes "b") false)
    ∷ (5, receives 1 (answer 2 result))
    ∷ (6, exits 1)
    ∷ (7, receives 1 (answer 3 result))
    ∷ []

settled_once_example :
    let (c, effects) = run events (new_client 60000) in
    settled 3 effects + count 3 c.pending ≡ (if ltb 3 c.next_id then 1 else 0)
settled_once_example = settled_once 60000 events 3 (omega arith)

-- A client with one request, of deadline 60 s, that prompts twice.
abbrev prompting : Client
prompting = record (new_client 60000) {
  next_id = 2;
  pending =
      (1, record { method = codes "a"; armed = true; deadline = 60000; pauses = 0; remaining = 0 })
      ∷ [];
}

run-HasBackoff_example : HasBackoff (run events (new_client 60000)).0
run-HasBackoff_example = run-HasBackoff 60000 events
