-- ===== src/Rebase/Todo.antt =====
-- extension/src/webviews/rebaseTodoLogic.ts: git's todo list, read and written. A written line is a
-- `Line` before it is printed.
pub mod Refs
pub mod Coverage
pub mod Associations
use gitglasses.Rebase.Plan.{action_eq, PlanAction, pick, reword, edit, squash, fixup, drop_commit}
use gitglasses.Base.{
  not, ◌||◌, ◌==◌, ◌&&◌, text_eq, starts_with, is_space, leb, if◌then◌else◌, drop, codes, trim, map,
  Text, Option, List, Bool, ℕ, zero, suc, refl, [], ◌∷◌, true, false, none, some, inl, inr, ◌++◌,
  ◌≡◌, arith,
}
use gitglasses.Base.Maps.{lookup}

pub record TodoCommit : Type 0 where
  pub action : PlanAction
  pub sha : Text
  pub summary : Text
  pub refs : List Text

pub record ParsedTodo : Type 0 where
  pub commits : List TodoCommit
  pub leading_refs : List Text
  pub unsupported : List Text
  pub range : Option Text

-- `ABBREVIATIONS[word] ?? word`
abbrev pub abbreviations : List (Text × Text)
abbreviations =
    (codes "p", codes "pick")
    ∷ (codes "r", codes "reword")
    ∷ (codes "e", codes "edit")
    ∷ (codes "s", codes "squash")
    ∷ (codes "f", codes "fixup")
    ∷ (codes "d", codes "drop")
    ∷ (codes "x", codes "exec")
    ∷ (codes "b", codes "break")
    ∷ (codes "l", codes "label")
    ∷ (codes "t", codes "reset")
    ∷ (codes "m", codes "merge")
    ∷ (codes "u", codes "update-ref")
    ∷ []

command_of : Text → Text
command_of word = elim (lookup word abbreviations) [ none ↦ word | some command ↦ command ]

abbrev pub commit_actions : List (Text × PlanAction)
commit_actions =
    (codes "pick", pick)
    ∷ (codes "reword", reword)
    ∷ (codes "edit", edit)
    ∷ (codes "squash", squash)
    ∷ (codes "fixup", fixup)
    ∷ (codes "drop", drop_commit)
    ∷ []

is_letter : ℕ → Bool
is_letter c = leb b'a' c && leb c b'z' || leb b'A' c && leb c b'Z'

-- `text.split('\n')`, after the characters of the current line.
lines_from : Text → Text → List Text
lines_from line [] = line ∷ []
lines_from line (c ∷ s) =
    let cut = line ∷ lines_from [] s in
    let more = lines_from (line ++ c ∷ []) s in if c == 10 then cut else more

drop_return : Text → Text
drop_return [] = []
drop_return (c ∷ []) = if c == 13 then [] else c ∷ []
drop_return (c ∷ d ∷ s) = c ∷ drop_return (d ∷ s)

-- `line.split(/\s+/)` of a trimmed line, after the characters of the current word.
words_from : Text → Text → List Text
words_from word [] = elim word [ [] ↦ [] | c ∷ s ↦ (c ∷ s) ∷ [] ]
words_from word (c ∷ s) =
    let skip = words_from [] s in
    let more = words_from (word ++ c ∷ []) s in
    if is_space c then elim word [ [] ↦ skip | d ∷ t ↦ (d ∷ t) ∷ skip ] else more

-- `\S+` at the start, and what follows it.
span_word : Text → Text × Text
span_word [] = ([], [])
span_word (c ∷ s) =
    let (word, rest) = span_word s in if is_space c then ([], c ∷ s) else (c ∷ word, rest)

is_empty : Text → Bool
is_empty [] = true
is_empty (c ∷ s) = false

range_here : Text → Option Text
unfolding span_word is_empty
range_here s =
    let (upstream, rest) = span_word (drop 7 s) in
    let (onto, _) = span_word (drop 6 rest) in
    if starts_with s (codes "Rebase ")
      && not (is_empty upstream)
      && starts_with rest (codes " onto ")
      && not (is_empty onto)
    then some (upstream ++ codes " onto " ++ onto)
    else none

-- `/Rebase (\S+) onto (\S+)/.exec(line)`, as the text of `range`.
range_in : Text → Option Text
unfolding range_here
range_in [] = none
range_in (c ∷ s) =
    let later = range_in s in elim (range_here (c ∷ s)) [ none ↦ later | some range ↦ some range ]

or_else {ℓ} : {A : Type ℓ} → Option A → Option A → Option A
or_else none o = o
or_else (some a) o = some a

-- `last ? last.refs : parsed.leadingRefs`
add_ref : Text → List TodoCommit → List TodoCommit
add_ref ref [] = []
add_ref ref (c ∷ []) = record c { refs = c.refs ++ ref ∷ [] } ∷ []
add_ref ref (c ∷ d ∷ cs) = c ∷ add_ref ref (d ∷ cs)

push_ref : Text → ParsedTodo → ParsedTodo
unfolding add_ref
push_ref ref parsed = elim parsed.commits [
  | [] ↦ record parsed { leading_refs = parsed.leading_refs ++ ref ∷ [] }
  | c ∷ cs ↦ record parsed { commits = add_ref ref (c ∷ cs) }
]

join_spaces : List Text → Text
join_spaces [] = []
join_spaces (w ∷ []) = w
join_spaces (w ∷ v ∷ ws) = w ++ 32 ∷ join_spaces (v ∷ ws)

-- The cases of a line that names a command, in the source's order.
read_command : Text → Text → List Text → ParsedTodo → ParsedTodo
unfolding push_ref join_spaces
read_command line command [] parsed =
    if text_eq command (codes "noop")
    then parsed
    else record parsed { unsupported = parsed.unsupported ++ line ∷ [] }
read_command line command (first ∷ rest) parsed =
    let refused = record parsed { unsupported = parsed.unsupported ++ line ∷ [] } in
    if text_eq command (codes "noop")
    then parsed
    else if text_eq command (codes "update-ref")
    then push_ref first parsed
    else elim (lookup command commit_actions) [
      | none ↦ refused
      | some action ↦ if starts_with first (codes "-") then refused else record parsed {
        commits =
            parsed.commits
            ++ record { action = action; sha = first; summary = join_spaces rest; refs = [] } ∷ [];
      }
    ]

read_words : Text → List Text → ParsedTodo → ParsedTodo
unfolding read_command command_of
read_words line [] parsed = parsed
read_words line (word ∷ rest) parsed = read_command line (command_of word) rest parsed

read_line : Text → ParsedTodo → ParsedTodo
unfolding is_letter read_words words_from range_in or_else
read_line [] parsed = parsed
read_line (c ∷ s) parsed =
    if is_letter c
    then read_words (c ∷ s) (words_from [] (c ∷ s)) parsed
    else record parsed { range = or_else parsed.range (range_in (c ∷ s)) }

read_lines : List Text → ParsedTodo → ParsedTodo
unfolding read_line drop_return trim
read_lines [] parsed = parsed
read_lines (raw ∷ raws) parsed = read_lines raws (read_line (trim (drop_return raw)) parsed)

unfoldable pub parse_todo : Text → ParsedTodo
unfolding read_lines lines_from
parse_todo text =
    read_lines (lines_from [] text)
      (record { commits = []; leading_refs = []; unsupported = []; range = none })

-- `bySha.get(sha)`: of two commits with one sha the later.
pub by_sha : Text → List TodoCommit → Option TodoCommit
by_sha sha [] = none
by_sha sha (c ∷ cs) = elim (by_sha sha cs) [
  | some later ↦ some later
  | none ↦ if text_eq c.sha sha then some c else none
]

pub data Line : Type 0 where
  commit_line : PlanAction → TodoCommit → Line
  ref_line : Text → Line

-- The loop's `lines`, `drops` and `pendingRefs`.
pub record Writing : Type 0 where
  pub lines : List Line
  pub drops : List Line
  pub pending_refs : List Text

pub flush_refs : Writing → Writing
flush_refs w = record w { lines = w.lines ++ map ref_line w.pending_refs; pending_refs = [] }

pub is_fold : PlanAction → Bool
is_fold action = action_eq action squash || action_eq action fixup

put_line : PlanAction → TodoCommit → Writing → Writing
unfolding flush_refs is_fold
put_line action c w =
    let flushed = flush_refs w in
    let v = if is_fold action then w else flushed in
    if action_eq action drop_commit
    then record w { drops = w.drops ++ commit_line action c ∷ [] }
    else record v { lines = v.lines ++ commit_line action c ∷ [] }

pub write_commit : PlanAction → Option TodoCommit → Writing → Writing
unfolding put_line
write_commit action none w = w
write_commit action (some c) w =
    let v = put_line action c w in record v { pending_refs = v.pending_refs ++ c.refs }

-- A plan is the entries' shas and actions.
pub write_entries : List (Text × PlanAction) → List TodoCommit → Writing → Writing
unfolding write_commit by_sha
write_entries [] commits w = w
write_entries ((sha, action) ∷ plan) commits w =
    write_entries plan commits (write_commit action (by_sha sha commits) w)

pub todo_lines : List (Text × PlanAction) → ParsedTodo → List Line
unfolding write_entries flush_refs
todo_lines plan parsed =
    let w = flush_refs (
      write_entries plan parsed.commits
        (record { lines = []; drops = []; pending_refs = parsed.leading_refs })) in
    w.lines ++ w.drops

action_text : PlanAction → Text
action_text pick = codes "pick"
action_text reword = codes "reword"
action_text edit = codes "edit"
action_text squash = codes "squash"
action_text fixup = codes "fixup"
action_text drop_commit = codes "drop"

print_line : Line → Text
unfolding action_text
print_line (ref_line ref) = codes "update-ref " ++ ref
print_line (commit_line action c) =
    action_text action ++ 32 ∷ c.sha ++ elim c.summary [ [] ↦ [] | d ∷ s ↦ 32 ∷ d ∷ s ]

print_lines : List Line → Text
unfolding print_line
print_lines [] = []
print_lines (l ∷ ls) = print_line l ++ 10 ∷ print_lines ls

unfoldable pub serialize_todo : List (Text × PlanAction) → ParsedTodo → Text
unfolding print_lines todo_lines
serialize_todo plan parsed = print_lines (todo_lines plan parsed)
