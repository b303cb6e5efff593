-- ===== src/Rpc/Client/State.antt =====
-- packages/rpc/src/engineClient.ts: the client's fields, its constants, and what an operation is. A handle of
-- a transport, or of an engine's request's cancellation, is the number of its creation.
use gitglasses.Base.{
  ◌==◌, Bool, ◌+◌, if◌then◌else◌, codes, Text, Option, List, ℕ, [], ◌∷◌, false, none, some, ◌++◌,
}
use gitglasses.Base.Sets.{has}

pub record Pending : Type 0 where
  pub method : Text
  pub armed : Bool
  pub deadline : ℕ
  pub pauses : ℕ
  pub remaining : ℕ

pub data Reason : Type 0 where
  restarted cancelled timed_out : Reason
  failed : ℕ → Reason

pub data Effect : Type 0 where
  created killed : ℕ → Effect
  sent : ℕ → ℕ → Text → Effect
  sent_cancel : ℕ → ℕ → Effect
  notified : ℕ → Text → Effect
  resolved : ℕ → Effect
  rejected : ℕ → Reason → Effect
  refused : Reason → Effect
  inbound_cancelled : Text → Effect
  method_not_supported restricted : Text → Effect
  crashed gave_up_on client_restarted capabilities_changed : Effect

pub record Client : Type 0 where
  pub request_timeout_ms : ℕ
  pub transport : Option ℕ
  pub created_transports : ℕ
  pub transport_alive : Bool
  pub next_id : ℕ
  pub pending : List (ℕ × Pending)
  pub generation : ℕ
  pub backoff_ms : ℕ
  pub crash_times : List ℕ
  pub respawn_timer : Bool
  pub gave_up : Bool
  pub disposed : Bool
  pub inbound : List (Text × ℕ)
  pub created_cancellations : ℕ
  pub caps : Option Text
  pub ready : Bool

abbrev pub backoff_start_ms : ℕ
backoff_start_ms = 250

abbrev pub backoff_max_ms : ℕ
backoff_max_ms = 8000

abbrev pub max_crashes_in_window : ℕ
max_crashes_in_window = 3

abbrev pub crash_window_ms : ℕ
crash_window_ms = 60000

abbrev pub default_request_timeout_ms : ℕ
default_request_timeout_ms = 60000

abbrev pub engine_git_timeout_ms : ℕ
engine_git_timeout_ms = 120000

abbrev pub engine_network_git_timeout_ms : ℕ
engine_network_git_timeout_ms = 300000

abbrev pub engine_timeout_margin_ms : ℕ
engine_timeout_margin_ms = 15000

abbrev pub new_client : ℕ → Client
new_client request_timeout_ms = record {
  request_timeout_ms = request_timeout_ms;
  transport = none;
  created_transports = 0;
  transport_alive = false;
  next_id = 1;
  pending = [];
  generation = 0;
  backoff_ms = backoff_start_ms;
  crash_times = [];
  respawn_timer = false;
  gave_up = false;
  disposed = false;
  inbound = [];
  created_cancellations = 0;
  caps = none;
  ready = false;
}

-- The keys of `LONG_REQUEST_TIMEOUT_MS`, by the ceiling of the git they run.
abbrev pub network_methods : List Text
network_methods =
    codes "mutate/fetch"
    ∷ codes "mutate/pull"
    ∷ codes "mutate/push"
    ∷ codes "branch/push"
    ∷ codes "tag/push"
    ∷ []

abbrev pub git_methods : List Text
git_methods =
    codes "mutate/commit"
    ∷ codes "search/log"
    ∷ codes "mutate/merge"
    ∷ codes "mutate/cherryPick"
    ∷ codes "mutate/revert"
    ∷ codes "mutate/sequencer"
    ∷ codes "rebase/start"
    ∷ codes "rebase/continue"
    ∷ codes "rebase/skip"
    ∷ []

unfoldable pub long_request_timeout_ms : Text → Option ℕ
long_request_timeout_ms method =
    if has method network_methods
    then some (engine_network_git_timeout_ms + engine_timeout_margin_ms)
    else if has method git_methods
    then some (engine_git_timeout_ms + engine_timeout_margin_ms)
    else none

-- A map with numbers for keys, in insertion order; a key that is set is fresh.
module _ {A : Type 0} where
  abbrev pub find : ℕ → List (ℕ × A) → Option A
  find id [] = none
  find id ((k, v) ∷ m) = if k == id then some v else find id m

  abbrev pub remove : ℕ → List (ℕ × A) → List (ℕ × A)
  remove id [] = []
  remove id ((k, v) ∷ m) = let rest = remove id m in if k == id then rest else (k, v) ∷ rest

  -- A mutation of the object that the key leads to.
  abbrev pub update : ℕ → (A → A) → List (ℕ × A) → List (ℕ × A)
  update id f [] = []
  update id f ((k, v) ∷ m) = (k, if k == id then f v else v) ∷ update id f m

abbrev pub Act : Type 0
Act = Client → Client × List Effect

-- One operation after the other.
infixl 10 ◌⨾◌
abbrev pub ◌⨾◌ : Act → Act → Act
(m ⨾ n) c = let (c', es) = m c in let (c'', fs) = n c' in (c'', es ++ fs)

abbrev pub in_order : List Act → Act
in_order [] c = (c, [])
in_order (m ∷ ms) c = (m ⨾ in_order ms) c
