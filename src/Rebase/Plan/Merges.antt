-- ===== src/Rebase/Plan/Merges.antt =====
-- extension/webviews-src/rebase/rebaseLogic.ts: which commits a refreshed plan has.
use gitglasses.Base.{
  text_eq_iff, not, ◌||◌, ◌&&◌, text_eq, Bool, List, Text, Option, refl, [], ◌∷◌, true, false, none,
  some, ◌++◌, ◌≡◌, arith,
}
use gitglasses.Rebase.Plan.{
  planned, PlanEntry, plan_from_preview, last_of, keep_fresh, Preview, merge_plan, kept_of,
  is_known, added_of,
}

pub is_previewed : Text → List Preview → Bool
is_previewed sha [] = false
is_previewed sha (e ∷ es) = text_eq e.sha sha || is_previewed sha es

in_preview : Option Preview → Bool
in_preview none = false
in_preview (some e) = true

last_of-in_preview :
    (sha : Text) (entries : List Preview)
    → in_preview (last_of sha entries) ≡ is_previewed sha entries
unfolding last_of in_preview is_previewed
last_of-in_preview sha [] = refl
last_of-in_preview sha (e ∷ es) = ground (arith, last_of-in_preview sha es)

is_known-append :
    (sha : Text) (xs ys : List PlanEntry)
    → is_known sha (xs ++ ys) ≡ (is_known sha xs || is_known sha ys)
unfolding is_known
is_known-append sha [] ys = refl
is_known-append sha (e ∷ es) ys = ground (arith, is_known-append sha es ys)

is_known-keep_fresh :
    (sha : Text) (o : Option Preview) (e : PlanEntry)
    → is_known sha (keep_fresh o e) ≡ (text_eq e.sha sha && in_preview o)
unfolding is_known keep_fresh in_preview
is_known-keep_fresh sha none e = ground arith
is_known-keep_fresh sha (some p) e = ground arith

-- A commit is kept when it is in the plan and in the preview.
is_known-kept_of :
    (sha : Text) (entries : List Preview) (plan : List PlanEntry)
    → is_known sha (kept_of entries plan) ≡ (is_known sha plan && is_previewed sha entries)
unfolding kept_of is_known
is_known-kept_of sha entries [] = refl
is_known-kept_of sha entries (e ∷ plan) = ground (
  arith,
  is_known-append sha (keep_fresh (last_of e.sha entries) e) (kept_of entries plan),
  is_known-keep_fresh sha (last_of e.sha entries) e,
  last_of-in_preview e.sha entries,
  is_known-kept_of sha entries plan,
  text_eq_iff e.sha sha,
)

is_known-added_of :
    (sha : Text) (kept : List PlanEntry) (entries : List Preview)
    → is_known sha (added_of kept entries) ≡ (is_previewed sha entries && not (is_known sha kept))
unfolding added_of plan_from_preview planned is_known is_previewed
is_known-added_of sha kept [] = refl
is_known-added_of sha kept (e ∷ es) =
    ground (arith, is_known-added_of sha kept es, text_eq_iff e.sha sha)

-- The plan that a fresh preview is merged into has the commits of the preview and no other: what is
-- gone from the branch leaves the plan, what is new joins it, and nothing else is lost.
pub merge_plan-is_previewed :
    (sha : Text) (plan : List PlanEntry) (entries : List Preview)
    → is_known sha (merge_plan plan entries) ≡ is_previewed sha entries
unfolding merge_plan
merge_plan-is_previewed sha plan entries = ground (
  arith,
  is_known-append sha (kept_of entries plan) (added_of (kept_of entries plan) entries),
  is_known-kept_of sha entries plan,
  is_known-added_of sha (kept_of entries plan) entries,
)
