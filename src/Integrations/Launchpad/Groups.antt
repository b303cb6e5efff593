-- ===== src/Integrations/Launchpad/Groups.antt =====
-- packages/integrations/src/launchpadClassifier.ts: the groups are a sorted partition of the pull requests.
use gitglasses.Integrations.Launchpad.{
  text_lt, bucket_rank, classify, push_to, launchpad_bucket_order, bucket_eq, PullRequest,
  LaunchpadGroup, Buckets, sort_prs, items_of, insert_pr, groups_in, group_of, group_items,
  fill_buckets, LaunchpadBucket, blocked, needs_your_review, changes_requested, mergeable, waiting,
  draft,
}
use gitglasses.Base.{
  ◌==◌, Bool, ==_iff, ap, ◌∙◌, subst, All-append, ◌≢◌, sym, length-append, Bool-cases, All, ◌+◌,
  length, if◌then◌else◌, Text, List, ℕ, zero, suc, refl, [], ◌∷◌, true, false, inl, inr, ◌++◌, ◌≡◌,
  arith,
}

-- The number of the pull requests in a list of groups.
pub total : List LaunchpadGroup → ℕ
total [] = 0
total (g ∷ gs) = length g.items + total gs

bucket_total : List LaunchpadBucket → Buckets → ℕ
unfolding items_of
bucket_total [] groups = 0
bucket_total (b ∷ bs) groups = length (items_of b groups) + bucket_total bs groups

hits : LaunchpadBucket → List LaunchpadBucket → ℕ
hits bucket [] = 0
hits bucket (b ∷ bs) = (if bucket_eq bucket b then 1 else 0) + hits bucket bs

hits-order : (b : LaunchpadBucket) → hits b launchpad_bucket_order ≡ 1
unfolding hits
hits-order blocked = refl
hits-order needs_your_review = refl
hits-order changes_requested = refl
hits-order mergeable = refl
hits-order waiting = refl
hits-order draft = refl

by_rank : ℕ → LaunchpadBucket
by_rank zero = blocked
by_rank (suc zero) = needs_your_review
by_rank (suc (suc zero)) = changes_requested
by_rank (suc (suc (suc zero))) = mergeable
by_rank (suc (suc (suc (suc zero)))) = waiting
by_rank (suc (suc (suc (suc (suc n))))) = draft

by_rank-bucket_rank : (b : LaunchpadBucket) → by_rank (bucket_rank b) ≡ b
unfolding by_rank
by_rank-bucket_rank blocked = refl
by_rank-bucket_rank needs_your_review = refl
by_rank-bucket_rank changes_requested = refl
by_rank-bucket_rank mergeable = refl
by_rank-bucket_rank waiting = refl
by_rank-bucket_rank draft = refl

bucket_eq→≡ : (a b : LaunchpadBucket) → bucket_eq a b ≡ true → a ≡ b
bucket_eq→≡ a b h =
    sym (by_rank-bucket_rank a)
    ∙ ap by_rank ((==_iff (bucket_rank a) (bucket_rank b)).0 h)
    ∙ by_rank-bucket_rank b

length-hit :
    (hit : Bool) (pr : PullRequest) (items others : List PullRequest)
    → length (if hit then items ++ pr ∷ [] else others)
      ≡ length (if hit then items else others) + (if hit then 1 else 0)
length-hit true pr items others = omega (arith, length-append items (pr ∷ []))
length-hit false pr items others = omega arith

length-single :
    (hit : Bool) (pr : PullRequest)
    → length (if hit then pr ∷ [] else []) ≡ 0 + (if hit then 1 else 0)
length-single true pr = refl
length-single false pr = refl

other_bucket : (x y z : ℕ) → (x == y) ≡ false → (x == z) ≡ true → (y == z) ≡ false
other_bucket x y z h k = ground arith

length-items_of-push_to :
    (bucket b : LaunchpadBucket) (pr : PullRequest) (groups : Buckets)
    → length (items_of b (push_to bucket pr groups))
      ≡ length (items_of b groups) + (if bucket_eq bucket b then 1 else 0)
unfolding items_of push_to
length-items_of-push_to bucket b pr [] = length-single (bucket_eq bucket b) pr
length-items_of-push_to bucket b pr ((c, items) ∷ groups) = elim (Bool-cases (bucket_eq c bucket)) [
  | inl e ↦ rw e (
      subst
        (λ x.
          length (if bucket_eq x b then items ++ pr ∷ [] else items_of b groups)
          ≡ length (if bucket_eq x b then items else items_of b groups)
            + (if bucket_eq bucket b then 1 else 0))
        (sym (bucket_eq→≡ c bucket e))
        (length-hit (bucket_eq bucket b) pr items (items_of b groups)))
  | inr e ↦ rw e (elim (Bool-cases (bucket_eq c b)) [
    | inl f ↦
        rw (f, other_bucket (bucket_rank c) (bucket_rank bucket) (bucket_rank b) e f) (omega arith)
    | inr f ↦ rw f (length-items_of-push_to bucket b pr groups)
  ])
]

bucket_total-push_to :
    (bs : List LaunchpadBucket) (bucket : LaunchpadBucket) (pr : PullRequest) (groups : Buckets)
    → bucket_total bs (push_to bucket pr groups) ≡ bucket_total bs groups + hits bucket bs
unfolding bucket_total hits
bucket_total-push_to [] bucket pr groups = refl
bucket_total-push_to (b ∷ bs) bucket pr groups =
    omega
      (arith, bucket_total-push_to bs bucket pr groups, length-items_of-push_to bucket b pr groups)

bucket_total-fill_buckets :
    (viewer : Text) (prs : List PullRequest) (groups : Buckets)
    → bucket_total launchpad_bucket_order (fill_buckets viewer prs groups)
      ≡ bucket_total launchpad_bucket_order groups + length prs
unfolding fill_buckets
bucket_total-fill_buckets viewer [] groups = omega arith
bucket_total-fill_buckets viewer (pr ∷ prs) groups =
    let b = classify pr viewer in
    omega (
      arith,
      bucket_total-fill_buckets viewer prs (push_to b pr groups),
      bucket_total-push_to launchpad_bucket_order b pr groups,
      hits-order b,
    )

length-insert_pr :
    (pr : PullRequest) (prs : List PullRequest) → length (insert_pr pr prs) ≡ suc (length prs)
unfolding insert_pr
length-insert_pr pr [] = refl
length-insert_pr pr (q ∷ qs) = ground (arith, length-insert_pr pr qs)

length-sort_prs : (prs : List PullRequest) → length (sort_prs prs) ≡ length prs
unfolding sort_prs
length-sort_prs [] = refl
length-sort_prs (pr ∷ prs) = omega (arith, length-insert_pr pr (sort_prs prs), length-sort_prs prs)

total-append : (gs hs : List LaunchpadGroup) → total (gs ++ hs) ≡ total gs + total hs
unfolding total
total-append [] hs = omega arith
total-append (g ∷ gs) hs = omega (arith, total-append gs hs)

total-group_of :
    (b : LaunchpadBucket) (items : List PullRequest) → total (group_of b items) ≡ length items
unfolding total group_of
total-group_of b [] = refl
total-group_of b (pr ∷ prs) = omega (arith, length-sort_prs (pr ∷ prs))

total-groups_in :
    (bs : List LaunchpadBucket) (groups : Buckets)
    → total (groups_in bs groups) ≡ bucket_total bs groups
unfolding groups_in bucket_total total
total-groups_in [] groups = refl
total-groups_in (b ∷ bs) groups = omega (
  arith,
  total-append (group_of b (items_of b groups)) (groups_in bs groups),
  total-group_of b (items_of b groups),
  total-groups_in bs groups,
)

-- The groups hold as many pull requests as there are.
pub group_items-total :
    (prs : List PullRequest) (viewer : Text) → total (group_items prs viewer) ≡ length prs
unfolding group_items bucket_total items_of
group_items-total prs viewer = omega (
  arith,
  total-groups_in launchpad_bucket_order (fill_buckets viewer prs []),
  bucket_total-fill_buckets viewer prs [],
)

-- The invariant of the map: each list holds the pull requests of its bucket.
Sound : Text → Buckets → Type 0
Sound viewer groups = All (λ g. All (λ pr. classify pr viewer ≡ g.0) g.1) groups

push_to-Sound :
    (viewer : Text) (bucket : LaunchpadBucket) (pr : PullRequest) (groups : Buckets)
    → classify pr viewer ≡ bucket
    → Sound viewer groups
    → Sound viewer (push_to bucket pr groups)
unfolding push_to Sound
push_to-Sound viewer bucket pr [] h d = ((h, tt), tt)
push_to-Sound viewer bucket pr ((b, items) ∷ groups) h d = elim (Bool-cases (bucket_eq b bucket)) [
  | inl e ↦ rw e (All-append _ items (pr ∷ []) d.0 (h ∙ sym (bucket_eq→≡ b bucket e), tt), d.1)
  | inr e ↦ rw e (d.0, push_to-Sound viewer bucket pr groups h d.1)
]

fill_buckets-Sound :
    (viewer : Text) (prs : List PullRequest) (groups : Buckets)
    → Sound viewer groups
    → Sound viewer (fill_buckets viewer prs groups)
unfolding fill_buckets
fill_buckets-Sound viewer [] groups d = d
fill_buckets-Sound viewer (pr ∷ prs) groups d =
    fill_buckets-Sound viewer prs _ (push_to-Sound viewer (classify pr viewer) pr groups refl d)

items_of-Sound :
    (viewer : Text) (bucket : LaunchpadBucket) (groups : Buckets)
    → Sound viewer groups
    → All (λ pr. classify pr viewer ≡ bucket) (items_of bucket groups)
unfolding items_of Sound
items_of-Sound viewer bucket [] d = tt
items_of-Sound viewer bucket ((b, items) ∷ groups) d = elim (Bool-cases (bucket_eq b bucket)) [
  | inl e ↦
      rw e (subst (λ c. All (λ pr. classify pr viewer ≡ c) items) (bucket_eq→≡ b bucket e) d.0)
  | inr e ↦ rw e (items_of-Sound viewer bucket groups d.1)
]

insert_pr-All :
    (P : PullRequest → Type 0) (pr : PullRequest) (prs : List PullRequest)
    → P pr
    → All P prs
    → All P (insert_pr pr prs)
unfolding insert_pr
insert_pr-All P pr [] h d = (h, tt)
insert_pr-All P pr (q ∷ qs) h d = elim (Bool-cases (text_lt pr.updated_at q.updated_at)) [
  | inl e ↦ rw e (d.0, insert_pr-All P pr qs h d.1)
  | inr e ↦ rw e (h, d)
]

sort_prs-All :
    (P : PullRequest → Type 0) (prs : List PullRequest) → All P prs → All P (sort_prs prs)
unfolding sort_prs
sort_prs-All P [] d = tt
sort_prs-All P (pr ∷ prs) d = insert_pr-All P pr (sort_prs prs) d.0 (sort_prs-All P prs d.1)

-- A group that is shown holds something, and what classifies as its bucket.
pub IsGroup : Text → LaunchpadGroup → Type 0
IsGroup viewer g = (g.items ≢ []) × All (λ pr. classify pr viewer ≡ g.bucket) g.items

suc-length : (prs : List PullRequest) (n : ℕ) → length prs ≡ suc n → prs ≢ []
suc-length [] n h = λ e. omega arith
suc-length (pr ∷ prs) n h = λ e. cc

group_of-IsGroup :
    (viewer : Text) (b : LaunchpadBucket) (items : List PullRequest)
    → All (λ pr. classify pr viewer ≡ b) items
    → All (IsGroup viewer) (group_of b items)
unfolding group_of IsGroup
group_of-IsGroup viewer b [] d = tt
group_of-IsGroup viewer b (pr ∷ prs) d = (
  (
    suc-length (sort_prs (pr ∷ prs)) (length prs) (length-sort_prs (pr ∷ prs)),
    sort_prs-All _ (pr ∷ prs) d,
  ),
  tt,
)

groups_in-IsGroup :
    (viewer : Text) (bs : List LaunchpadBucket) (groups : Buckets)
    → Sound viewer groups
    → All (IsGroup viewer) (groups_in bs groups)
unfolding groups_in
groups_in-IsGroup viewer [] groups d = tt
groups_in-IsGroup viewer (b ∷ bs) groups d =
    All-append _ (group_of b (items_of b groups)) (groups_in bs groups)
      (group_of-IsGroup viewer b (items_of b groups) (items_of-Sound viewer b groups d))
      (groups_in-IsGroup viewer bs groups d)

-- Each group that is shown has a pull request, and all of its pull requests classify as its bucket.
pub group_items-IsGroup :
    (prs : List PullRequest) (viewer : Text) → All (IsGroup viewer) (group_items prs viewer)
unfolding group_items Sound
group_items-IsGroup prs viewer =
    groups_in-IsGroup viewer launchpad_bucket_order _ (fill_buckets-Sound viewer prs [] tt)
