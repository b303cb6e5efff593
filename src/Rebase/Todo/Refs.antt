-- ===== src/Rebase/Todo/Refs.antt =====
-- extension/src/webviews/rebaseTodoLogic.ts: the update-ref lines of a written list.
use gitglasses.Rebase.Todo.{
  ParsedTodo, write_entries, write_commit, todo_lines, is_fold, drop_commit, action_eq, by_sha,
  TodoCommit, Line, put_line, flush_refs, Writing, PlanAction, ref_line, commit_line,
}
use gitglasses.Base.{
  append_assoc, sym, ◌∙◌, if◌then◌else◌, append-nil, ap, map, Text, Option, List, Bool, refl, [],
  ◌∷◌, true, false, none, some, ◌++◌, ◌≡◌,
}

-- The references of the update-ref lines, and the commit lines, in order.
pub refs_in : List Line → List Text
refs_in [] = []
refs_in (ref_line ref ∷ ls) = ref ∷ refs_in ls
refs_in (commit_line action c ∷ ls) = refs_in ls

unfoldable pub refs_of : Option TodoCommit → List Text
refs_of none = []
refs_of (some c) = c.refs

-- The references of the plan's commits, in the plan's order.
unfoldable pub planned_refs : List (Text × PlanAction) → List TodoCommit → List Text
unfolding refs_of
planned_refs [] commits = []
planned_refs ((sha, action) ∷ plan) commits =
    refs_of (by_sha sha commits) ++ planned_refs plan commits

refs_in-append : (ls ms : List Line) → refs_in (ls ++ ms) ≡ refs_in ls ++ refs_in ms
unfolding refs_in
refs_in-append [] ms = refl
refs_in-append (ref_line ref ∷ ls) ms = ap (◌∷◌ ref) (refs_in-append ls ms)
refs_in-append (commit_line action c ∷ ls) ms = refs_in-append ls ms

refs_in-ref_lines : (refs : List Text) → refs_in (map ref_line refs) ≡ refs
unfolding refs_in
refs_in-ref_lines [] = refl
refs_in-ref_lines (r ∷ refs) = ap (◌∷◌ r) (refs_in-ref_lines refs)

-- What is written and what is pending, and that no dropped commit carries a reference line.
all_refs : Writing → List Text
unfolding refs_in
all_refs w = refs_in w.lines ++ w.pending_refs

all_refs-flush : (w : Writing) → all_refs (flush_refs w) ≡ all_refs w
unfolding all_refs flush_refs
all_refs-flush w =
    rw (refs_in-append w.lines (map ref_line w.pending_refs), refs_in-ref_lines w.pending_refs)
      (append-nil _)

all_refs-commit_line :
    (action : PlanAction) (c : TodoCommit) (w : Writing)
    → all_refs (record w { lines = w.lines ++ commit_line action c ∷ [] }) ≡ all_refs w
unfolding all_refs refs_in
all_refs-commit_line action c w =
    rw (refs_in-append w.lines (commit_line action c ∷ []), append-nil (refs_in w.lines)) refl

all_refs-fold :
    (b : Bool) (action : PlanAction) (c : TodoCommit) (w : Writing)
    → all_refs (
        let flushed = flush_refs w in
        let v = if b then w else flushed in
        record v { lines = v.lines ++ commit_line action c ∷ [] })
      ≡ all_refs w
all_refs-fold true action c w = all_refs-commit_line action c w
all_refs-fold false action c w = all_refs-commit_line action c (flush_refs w) ∙ all_refs-flush w

either {ℓ κ} :
    {A : Type ℓ} (P : A → Type κ) (b : Bool) (x y : A) → P x → P y → P (if b then x else y)
either P true x y p q = p
either P false x y p q = q

all_refs-put_line :
    (action : PlanAction) (c : TodoCommit) (w : Writing)
    → all_refs (put_line action c w) ≡ all_refs w
unfolding put_line all_refs
all_refs-put_line action c w =
    either (λ v. all_refs v ≡ all_refs w) (action_eq action drop_commit)
      (record w { drops = w.drops ++ commit_line action c ∷ [] })
      (let flushed = flush_refs w in
        let v = if is_fold action then w else flushed in
        record v { lines = v.lines ++ commit_line action c ∷ [] })
      refl (all_refs-fold (is_fold action) action c w)

all_refs-write_commit :
    (action : PlanAction) (o : Option TodoCommit) (w : Writing)
    → all_refs (write_commit action o w) ≡ all_refs w ++ refs_of o
unfolding write_commit refs_of all_refs
all_refs-write_commit action none w = sym (append-nil (all_refs w))
all_refs-write_commit action (some c) w =
    let v = put_line action c w in
    sym (append_assoc (refs_in v.lines) v.pending_refs c.refs)
    ∙ ap (λ refs. refs ++ c.refs) (all_refs-put_line action c w)

all_refs-write_entries :
    (plan : List (Text × PlanAction)) (commits : List TodoCommit) (w : Writing)
    → all_refs (write_entries plan commits w) ≡ all_refs w ++ planned_refs plan commits
unfolding write_entries planned_refs
all_refs-write_entries [] commits w = sym (append-nil (all_refs w))
all_refs-write_entries ((sha, action) ∷ plan) commits w =
    all_refs-write_entries plan commits (write_commit action (by_sha sha commits) w)
    ∙ ap (λ refs. refs ++ planned_refs plan commits)
        (all_refs-write_commit action (by_sha sha commits) w)
    ∙ append_assoc (all_refs w) (refs_of (by_sha sha commits)) (planned_refs plan commits)

-- The drops are commit lines only.
NoRefs : Writing → Type 0
unfolding refs_in
NoRefs w = refs_in w.drops ≡ []

NoRefs-put_line :
    (action : PlanAction) (c : TodoCommit) (w : Writing) → NoRefs w → NoRefs (put_line action c w)
unfolding put_line NoRefs refs_in flush_refs
NoRefs-put_line action c w h =
    either NoRefs (action_eq action drop_commit)
      (record w { drops = w.drops ++ commit_line action c ∷ [] })
      (let flushed = flush_refs w in
        let v = if is_fold action then w else flushed in
        record v { lines = v.lines ++ commit_line action c ∷ [] })
      (refs_in-append w.drops (commit_line action c ∷ []) ∙ append-nil _ ∙ h)
      (either NoRefs (is_fold action) w (flush_refs w) h h)

NoRefs-write_commit :
    (action : PlanAction) (o : Option TodoCommit) (w : Writing)
    → NoRefs w
    → NoRefs (write_commit action o w)
unfolding write_commit NoRefs
NoRefs-write_commit action none w h = h
NoRefs-write_commit action (some c) w h = NoRefs-put_line action c w h

NoRefs-write_entries :
    (plan : List (Text × PlanAction)) (commits : List TodoCommit) (w : Writing)
    → NoRefs w
    → NoRefs (write_entries plan commits w)
unfolding write_entries
NoRefs-write_entries [] commits w h = h
NoRefs-write_entries ((sha, action) ∷ plan) commits w h =
    NoRefs-write_entries plan commits _ (NoRefs-write_commit action (by_sha sha commits) w h)

-- The references of the written list are, in order, those ahead of every commit, then those of the commits that the plan's
-- shas name, dropped ones included.
pub todo_lines-planned_refs :
    (plan : List (Text × PlanAction)) (parsed : ParsedTodo)
    → refs_in (todo_lines plan parsed) ≡ parsed.leading_refs ++ planned_refs plan parsed.commits
unfolding todo_lines NoRefs all_refs flush_refs refs_in
todo_lines-planned_refs plan parsed =
    let w : Writing = record { lines = []; drops = []; pending_refs = parsed.leading_refs } in
    let v = write_entries plan parsed.commits w in
    refs_in-append (flush_refs v).lines v.drops
    ∙ ap (λ refs. refs_in (flush_refs v).lines ++ refs)
        (NoRefs-write_entries plan parsed.commits w refl)
    ∙ all_refs-flush v
    ∙ all_refs-write_entries plan parsed.commits w
