-- ===== src/Rebase/Plan/Messages.antt =====
-- extension/webviews-src/rebase/rebaseLogic.ts: a valid plan on the wire, and the messages that rows show.
use gitglasses.Base.{
  get_elem?, Bool-cases, Bool, keep_if, All, ◌≢◌, List, ℕ, refl, [], ◌∷◌, true, false, none, some,
  inl, inr, ◌++◌, ◌≡◌, arith,
}
use gitglasses.Rebase.Plan.{
  shows_message, squash_chains, chain_problems, needs_message_for, first_problem, kept_entries,
  sends_message, message_problems, PlanEntry, takes_message, reword, problems_of, is_unworded,
  wire_entry, validate, unworded_problem, to_rebase_entries, RebaseEntry,
}

-- An entry that git can carry out without asking: a reword has its message.
pub HasMessage : RebaseEntry → Type 0
HasMessage w = w.action ≡ reword → w.message ≢ none

needs_message_for-none : (es : List PlanEntry) → needs_message_for es ≡ [] → es ≡ []
unfolding needs_message_for
needs_message_for-none [] h = refl
needs_message_for-none (e ∷ es) h = cc

append-none : {A : Type 0} (xs ys : List A) → xs ++ ys ≡ [] → (xs ≡ []) × (ys ≡ [])
append-none [] ys h = (refl, h)
append-none (x ∷ xs) ys h = cc

wire_entry-HasMessage : (e : PlanEntry) → is_unworded e ≡ false → HasMessage (wire_entry e)
unfolding wire_entry HasMessage is_unworded sends_message
wire_entry-HasMessage e h r = ground arith

worded-HasMessage :
    (plan : List PlanEntry)
    → keep_if is_unworded plan ≡ []
    → All HasMessage (to_rebase_entries plan)
unfolding to_rebase_entries
worded-HasMessage [] h = tt
worded-HasMessage (e ∷ plan) h = elim (Bool-cases (is_unworded e)) [
  | inl u ↦ cc
  | inr u ↦ (wire_entry-HasMessage e u, worded-HasMessage plan (ground arith))
]

validate-unworded :
    (plan kept : List PlanEntry) → problems_of true plan kept ≡ [] → unworded_problem plan ≡ []
unfolding problems_of message_problems
validate-unworded plan [] h = cc
validate-unworded plan (e ∷ es) h =
    let (a, b) = append-none (first_problem e) (message_problems true plan) h in
    (append-none (unworded_problem plan) (chain_problems plan (squash_chains plan)) b).0

-- When a plan has no problem, each reword of the plan as it is sent has its message.
pub validate-HasMessage :
    (plan : List PlanEntry) → validate true plan ≡ [] → All HasMessage (to_rebase_entries plan)
unfolding validate unworded_problem
validate-HasMessage plan h = worded-HasMessage plan (
    needs_message_for-none (keep_if is_unworded plan)
      (validate-unworded plan (kept_entries plan) h))

takes_message-sends :
    (e : PlanEntry) (b : Bool) → sends_message e ≡ true → takes_message (some e) b ≡ true
unfolding takes_message sends_message
takes_message-sends e b k = ground arith

-- A message that a row's entry sends is one that the row shows: no row sends a message that its box
-- does not show.
pub shows_message-sends_message :
    (plan : List PlanEntry) (index : ℕ) (e : PlanEntry)
    → get_elem? plan index ≡ some e
    → sends_message e ≡ true
    → shows_message plan index ≡ true
unfolding shows_message
shows_message-sends_message plan index e h k = rw h (takes_message-sends e _ k)
