-- ===== src/Rebase/Plan.antt =====
-- extension/webviews-src/rebase/rebaseLogic.ts: the plan of an interactive rebase and its edits.
-- The problems that `validate` reports are values of `Problem`, with the data that their texts quote.
pub mod Moves
pub mod Merges
pub mod Messages
use gitglasses.Base.{
  update_at, ◌==◌, ◌&&◌, trim, some_of, ◌-◌, length, ◌||◌, not, min, get_elem?, drop, text_eq, take,
  map, keep_if, if◌then◌else◌, Text, Option, List, Bool, ℕ, zero, suc, refl, [], ◌∷◌, true, false,
  none, some, inl, inr, ◌++◌, ◌≡◌, arith,
}
use gitglasses.Base.Int.{pos, negsuc, ℤ}

pub data PlanAction : Type 0 where
  pick reword edit squash fixup drop_commit : PlanAction

abbrev pub action_eq : PlanAction → PlanAction → Bool
action_eq pick pick = true
action_eq reword reword = true
action_eq edit edit = true
action_eq squash squash = true
action_eq fixup fixup = true
action_eq drop_commit drop_commit = true
action_eq _ _ = false

pub record PlanEntry : Type 0 where
  pub sha : Text
  pub summary : Text
  pub action : PlanAction
  pub message : Text

-- An entry of rebase/preview.
pub record Preview : Type 0 where
  pub sha : Text
  pub summary : Text
  pub action : Option PlanAction

action_or_pick : Option PlanAction → PlanAction
action_or_pick none = pick
action_or_pick (some action) = action

planned : Preview → PlanEntry
unfolding action_or_pick
planned entry = record {
  sha = entry.sha;
  summary = entry.summary;
  action = action_or_pick entry.action;
  message = [];
}

unfoldable pub plan_from_preview : List Preview → List PlanEntry
unfolding planned
plan_from_preview entries = map planned entries

-- `new Map(entries.map(...))` keeps the last entry of a sha.
last_of : Text → List Preview → Option Preview
last_of sha [] = none
last_of sha (e ∷ es) = elim (last_of sha es) [
  | some later ↦ some later
  | none ↦ if text_eq e.sha sha then some e else none
]

pub is_known : Text → List PlanEntry → Bool
is_known sha [] = false
is_known sha (e ∷ es) = text_eq e.sha sha || is_known sha es

keep_fresh : Option Preview → PlanEntry → List PlanEntry
keep_fresh none entry = []
keep_fresh (some preview) entry = record entry { summary = preview.summary } ∷ []

pub kept_of : List Preview → List PlanEntry → List PlanEntry
unfolding last_of keep_fresh
kept_of entries [] = []
kept_of entries (e ∷ plan) = keep_fresh (last_of e.sha entries) e ++ kept_of entries plan

-- The previewed entries of `mergePlan` carry no action.
pub added_of : List PlanEntry → List Preview → List PlanEntry
unfolding plan_from_preview is_known
added_of kept entries = plan_from_preview (keep_if (λ e. not (is_known e.sha kept)) entries)

pub merge_plan : List PlanEntry → List Preview → List PlanEntry
unfolding kept_of added_of
merge_plan plan entries = let kept = kept_of entries plan in kept ++ added_of kept entries

-- `splice(index, 1)` and `splice(index, 0, entry)`.
pub removed_at {ℓ} : {A : Type ℓ} → ℕ → List A → List A
removed_at index xs = take index xs ++ drop (suc index) xs

pub inserted_at {ℓ} : {A : Type ℓ} → ℕ → A → List A → List A
inserted_at index x xs = take index xs ++ x ∷ drop index xs

placed {ℓ} : {A : Type ℓ} → Option A → ℕ → ℕ → List A → List A
unfolding removed_at inserted_at
placed none index target plan = plan
placed (some entry) index target plan = inserted_at target entry (removed_at index plan)

-- A target is clamped to the plan's positions; a negative one is position 0. `move` on an index that
-- is out of range, negative ones included, is the plan itself.
unfoldable pub clamped : ℕ → ℤ → ℕ
clamped last (pos n) = min last n
clamped last (negsuc n) = 0

pub move {ℓ} : {A : Type ℓ} → List A → ℤ → ℤ → List A
unfolding placed clamped
move plan (negsuc index) to = plan
move plan (pos index) to = placed (get_elem? plan index) index (clamped (length plan - 1) to) plan

unfoldable pub set_action : List PlanEntry → ℕ → PlanAction → List PlanEntry
set_action plan index action = update_at (λ entry. record entry { action = action }) plan index

unfoldable pub set_message : List PlanEntry → ℕ → Text → List PlanEntry
set_message plan index message = update_at (λ entry. record entry { message = message }) plan index

-- `squashChains`, from position `index` on: the squashes of the open chain, if one is open, in order.
-- A chain without squashes is left out.
close_chain : List ℕ → List (List ℕ)
close_chain [] = []
close_chain (i ∷ is) = (i ∷ is) ∷ []

pub squash_chains_from : ℕ → List ℕ → List PlanEntry → List (List ℕ)
unfolding close_chain
squash_chains_from index chain [] = close_chain chain
squash_chains_from index chain (e ∷ plan) =
    let skipped = squash_chains_from (suc index) chain plan in
    let joined = squash_chains_from (suc index) (chain ++ index ∷ []) plan in
    let closed = squash_chains_from (suc index) [] plan in
    elim e.action [
      | drop_commit ↦ skipped
      | fixup ↦ skipped
      | squash ↦ joined
      | _ ↦ close_chain chain ++ closed
    ]

pub squash_chains : List PlanEntry → List (List ℕ)
unfolding squash_chains_from
squash_chains plan = squash_chains_from 0 [] plan

pub is_blank : Text → Bool
unfolding trim
is_blank message = text_eq (trim message) []

takes_message : Option PlanEntry → Bool → Bool
unfolding is_blank
takes_message none ends_chain = false
takes_message (some e) ends_chain =
    if action_eq e.action reword
    then true
    else if not (action_eq e.action squash)
    then false
    else not (is_blank e.message) || ends_chain

ends_with : ℕ → List ℕ → Bool
ends_with index [] = false
ends_with index (i ∷ []) = i == index
ends_with index (i ∷ j ∷ is) = ends_with index (j ∷ is)

pub shows_message : List PlanEntry → ℕ → Bool
unfolding takes_message squash_chains ends_with
shows_message plan index =
    takes_message (get_elem? plan index) (some_of (ends_with index) (squash_chains plan))

pub data Problem : Type 0 where
  nothing_kept : Problem
  cannot_be_first : PlanAction → Problem
  needs_message : List Text → Problem
  takes_one_message : List Text → Problem

pub kept_entries : List PlanEntry → List PlanEntry
kept_entries = keep_if (λ e. not (action_eq e.action drop_commit))

pub is_unworded : PlanEntry → Bool
unfolding is_blank
is_unworded e = action_eq e.action reword && is_blank e.message

short_sha : PlanEntry → Text
short_sha e = take 7 e.sha

needs_message_for : List PlanEntry → List Problem
unfolding short_sha
needs_message_for [] = []
needs_message_for (e ∷ es) = needs_message (map short_sha (e ∷ es)) ∷ []

pub unworded_problem : List PlanEntry → List Problem
unfolding is_unworded needs_message_for
unworded_problem plan = needs_message_for (keep_if is_unworded plan)

first_problem : PlanEntry → List Problem
first_problem e = elim e.action [
  | squash ↦ cannot_be_first squash ∷ []
  | fixup ↦ cannot_be_first fixup ∷ []
  | _ ↦ []
]

-- The entries of a chain that hold a message.
worded_at : List PlanEntry → List ℕ → List PlanEntry
unfolding is_blank
worded_at plan [] = []
worded_at plan (i ∷ is) =
    let rest = worded_at plan is in
    elim (get_elem? plan i) [ none ↦ rest | some e ↦ if is_blank e.message then rest else e ∷ rest ]

chain_problem : List PlanEntry → List Problem
unfolding short_sha
chain_problem [] = []
chain_problem (e ∷ []) = []
chain_problem (e ∷ f ∷ es) = takes_one_message (map short_sha (e ∷ f ∷ es)) ∷ []

chain_problems : List PlanEntry → List (List ℕ) → List Problem
unfolding chain_problem worded_at
chain_problems plan [] = []
chain_problems plan (chain ∷ chains) =
    chain_problem (worded_at plan chain) ++ chain_problems plan chains

message_problems : Bool → List PlanEntry → List Problem
unfolding unworded_problem chain_problems squash_chains
message_problems true plan = unworded_problem plan ++ chain_problems plan (squash_chains plan)
message_problems false plan = []

problems_of : Bool → List PlanEntry → List PlanEntry → List Problem
unfolding first_problem message_problems
problems_of messages plan [] = nothing_kept ∷ []
problems_of messages plan (first ∷ kept) = first_problem first ++ message_problems messages plan

-- `validate`, with `messages` as its option.
unfoldable pub validate : Bool → List PlanEntry → List Problem
unfolding problems_of kept_entries
validate messages plan = problems_of messages plan (kept_entries plan)

-- The protocol's entry of a plan.
pub record RebaseEntry : Type 0 where
  pub action : PlanAction
  pub sha : Text
  pub summary : Text
  pub message : Option Text

unfoldable pub sends_message : PlanEntry → Bool
unfolding is_blank
sends_message e =
    (action_eq e.action reword || action_eq e.action squash) && not (is_blank e.message)

pub wire_entry : PlanEntry → RebaseEntry
unfolding sends_message
wire_entry e = record {
  action = e.action;
  sha = e.sha;
  summary = e.summary;
  message = if sends_message e then some e.message else none;
}

pub to_rebase_entries : List PlanEntry → List RebaseEntry
unfolding wire_entry
to_rebase_entries plan = map wire_entry plan
