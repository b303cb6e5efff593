-- ===== src/Integrations/Launchpad.antt =====
-- packages/integrations/src/launchpadClassifier.ts, with the fields of models.ts that it reads.
pub mod Groups
use gitglasses.Base.{
  text_eq, ◌==◌, ◌&&◌, ◌||◌, ltb, if◌then◌else◌, Text, Option, List, Bool, ℕ, zero, suc, refl, [],
  ◌∷◌, true, false, none, some, inl, inr, ◌++◌, ◌≡◌, arith,
}

pub data LaunchpadBucket : Type 0 where
  blocked needs_your_review changes_requested mergeable waiting draft : LaunchpadBucket

-- `LAUNCHPAD_BUCKET_ORDER`.
abbrev pub launchpad_bucket_order : List LaunchpadBucket
launchpad_bucket_order =
    blocked ∷ needs_your_review ∷ changes_requested ∷ mergeable ∷ waiting ∷ draft ∷ []

abbrev pub bucket_rank : LaunchpadBucket → ℕ
bucket_rank blocked = 0
bucket_rank needs_your_review = 1
bucket_rank changes_requested = 2
bucket_rank mergeable = 3
bucket_rank waiting = 4
bucket_rank draft = 5

abbrev pub bucket_eq : LaunchpadBucket → LaunchpadBucket → Bool
bucket_eq a b = bucket_rank a == bucket_rank b

pub data ReviewDecision : Type 0 where
  approved asks_changes review_required : ReviewDecision

pub data ChecksStatus : Type 0 where
  passing failing pending no_checks : ChecksStatus

pub data Mergeability : Type 0 where
  can_merge conflicts unknown : Mergeability

pub record PullRequest : Type 0 where
  pub id : Text
  pub is_draft : Bool
  pub author : Text
  pub updated_at : Text
  pub review_decision : Option ReviewDecision
  pub checks_status : Option ChecksStatus
  pub mergeability : Option Mergeability
  pub review_requested_from_viewer : Bool

pub is_failing : Option ChecksStatus → Bool
is_failing (some failing) = true
is_failing _ = false

pub is_passing : Option ChecksStatus → Bool
is_passing (some passing) = true
is_passing _ = false

pub has_conflicts : Option Mergeability → Bool
has_conflicts (some conflicts) = true
has_conflicts _ = false

pub is_mergeable : Option Mergeability → Bool
is_mergeable (some can_merge) = true
is_mergeable _ = false

pub wants_changes : Option ReviewDecision → Bool
wants_changes (some asks_changes) = true
wants_changes _ = false

pub is_approved : Option ReviewDecision → Bool
is_approved (some approved) = true
is_approved _ = false

pub classify : PullRequest → Text → LaunchpadBucket
unfolding is_failing is_passing has_conflicts is_mergeable wants_changes is_approved
classify pr viewer =
    if pr.is_draft
    then draft
    else if is_failing pr.checks_status || has_conflicts pr.mergeability
    then blocked
    else if pr.review_requested_from_viewer
    then needs_your_review
    else if wants_changes pr.review_decision && text_eq pr.author viewer
    then changes_requested
    else if is_approved pr.review_decision
        && is_passing pr.checks_status
        && is_mergeable pr.mergeability
    then mergeable
    else waiting

-- `byBucket`, and `items.push(pr)`.
abbrev pub Buckets : Type 0
Buckets = List (LaunchpadBucket × List PullRequest)

pub push_to : LaunchpadBucket → PullRequest → Buckets → Buckets
push_to bucket pr [] = (bucket, pr ∷ []) ∷ []
push_to bucket pr ((b, items) ∷ groups) =
    let rest = push_to bucket pr groups in
    if bucket_eq b bucket then (b, items ++ pr ∷ []) ∷ groups else (b, items) ∷ rest

pub fill_buckets : Text → List PullRequest → Buckets → Buckets
unfolding push_to classify
fill_buckets viewer [] groups = groups
fill_buckets viewer (pr ∷ prs) groups =
    fill_buckets viewer prs (push_to (classify pr viewer) pr groups)

pub items_of : LaunchpadBucket → Buckets → List PullRequest
items_of bucket [] = []
items_of bucket ((b, items) ∷ groups) = if bucket_eq b bucket then items else items_of bucket groups

-- `a < b` on strings: by code units.
text_lt : Text → Text → Bool
text_lt a [] = false
text_lt [] (d ∷ t) = true
text_lt (c ∷ s) (d ∷ t) = ltb c d || c == d && text_lt s t

-- `items.sort` with the comparator on `updatedAt`: stable, the latest first.
pub insert_pr : PullRequest → List PullRequest → List PullRequest
unfolding text_lt
insert_pr pr [] = pr ∷ []
insert_pr pr (q ∷ qs) =
    let rest = insert_pr pr qs in
    if text_lt pr.updated_at q.updated_at then q ∷ rest else pr ∷ q ∷ qs

pub sort_prs : List PullRequest → List PullRequest
unfolding insert_pr
sort_prs [] = []
sort_prs (pr ∷ prs) = insert_pr pr (sort_prs prs)

pub record LaunchpadGroup : Type 0 where
  pub bucket : LaunchpadBucket
  pub items : List PullRequest

group_of : LaunchpadBucket → List PullRequest → List LaunchpadGroup
unfolding sort_prs
group_of bucket [] = []
group_of bucket (pr ∷ prs) = record { bucket = bucket; items = sort_prs (pr ∷ prs) } ∷ []

pub groups_in : List LaunchpadBucket → Buckets → List LaunchpadGroup
unfolding group_of items_of
groups_in [] groups = []
groups_in (b ∷ bs) groups = group_of b (items_of b groups) ++ groups_in bs groups

pub group_items : List PullRequest → Text → List LaunchpadGroup
unfolding groups_in fill_buckets
group_items prs viewer = groups_in launchpad_bucket_order (fill_buckets viewer prs [])
