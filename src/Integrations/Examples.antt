-- ===== src/Integrations/Examples.antt =====
-- Instances of the theorems on the cache and the groups.
use gitglasses.Base.{
  codes, Text, List, Bool, All, ℕ, refl, [], ◌∷◌, true, false, none, some, ◌≡◌, arith,
}
use gitglasses.Integrations.Cache.{clear, fetch_failed, fetched, delete, TtlCache}
use gitglasses.Integrations.Launchpad.Groups.{group_items-IsGroup, IsGroup}
use gitglasses.Integrations.Launchpad.{group_items, PullRequest}
use gitglasses.Integrations.Cache.Superseded.{fetched-superseded}
use gitglasses.Integrations.Cache.{reads, sets, operate_all}

abbrev cold : TtlCache ℕ
cold = record {
  max_entries = some 1;
  entries = (codes "a", record { value = 5; stored_at = 0; ttl_ms = 10 }) ∷ [];
  inflight = (codes "b", 0) ∷ [];
  fetches = 1;
}

fetched-superseded_example :
    let c' =
      operate_all
        (reads 3 (codes "b") 10 5 ∷ sets 3 (codes "a") 1 10 ∷ [])
        (delete (codes "b") cold) in
    (fetched 4 (codes "b") 0 6 10 c' ≡ c') × (fetch_failed (codes "b") 0 c' ≡ c')
fetched-superseded_example =
    fetched-superseded (reads 3 (codes "b") 10 5 ∷ sets 3 (codes "a") 1 10 ∷ []) 4 10 0 (codes "b")
      6 cold (omega arith)

abbrev request : Bool → Text → PullRequest
request is_draft updated_at = record {
  id = updated_at;
  is_draft = is_draft;
  author = codes "me";
  updated_at = updated_at;
  review_decision = none;
  checks_status = none;
  mergeability = none;
  review_requested_from_viewer = false;
}

abbrev requests : List PullRequest
requests = request true (codes "1") ∷ request false (codes "2") ∷ request false (codes "3") ∷ []

group_items-IsGroup_example : All (IsGroup (codes "me")) (group_items requests (codes "me"))
group_items-IsGroup_example = group_items-IsGroup requests (codes "me")

clear_run : (fetch_failed (codes "b") 0 cold).inflight ≡ (clear cold).inflight
unfolding fetch_failed clear
clear_run = refl
