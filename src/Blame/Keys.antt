-- ===== src/Blame/Keys.antt =====
-- extension/src/model/blameModel.ts: what a blame is asked for, and how large its answer is.
-- `toLowerCase` of a text is a parameter.
use gitglasses.Base.{
  ◌==◌, ◌+◌, ◌*◌, ◌||◌, ltb, leb, ◌&&◌, text_eq, includes, length, find_first, codes, if◌then◌else◌,
  Option, Bool, List, Text, ℕ, suc, [], ◌∷◌, true, false, none, some, ◌++◌,
}
use gitglasses.Base.Int.{ℤ, pos, negsuc}
use gitglasses.Base.Decimal.{decimal}

pub record BlameOptions : Type 0 where
  pub ignore_whitespace : Option Bool
  pub moves : Option Text
  pub ignore_revs : Option Bool

pub record BlameKey : Type 0 where
  pub repo_id : Text
  pub path : Text
  pub version : ℤ
  pub rev : Option Text
  pub options : Option BlameOptions

pub record BlameHunk : Type 0 where
  pub sha : Text
  pub path : Text
  pub previous : Option (Text × Text)
  pub result_line : ℕ
  pub line_count : ℕ

pub record BlameCommit : Type 0 where
  pub sha : Text
  pub summary : Text
  pub author : Text × Text
  pub committer : Text × Text

pub record FileBlame : Type 0 where
  pub hunks : List BlameHunk
  pub commits : List BlameCommit
  pub total_lines : ℕ
  pub lfs : Bool

abbrev pub max_cache_bytes : ℕ
max_cache_bytes = 32 * 1024 * 1024

abbrev pub max_cache_entries : ℕ
max_cache_entries = 200

abbrev pub max_logged_failures : ℕ
max_logged_failures = 200

-- ON_DISK_VERSION
abbrev pub on_disk_version : ℤ
on_disk_version = negsuc 0

is_set : Option Bool → Bool
is_set none = false
is_set (some b) = b

is_cleared : Option Bool → Bool
is_cleared none = false
is_cleared (some b) = if b then false else true

abbrev text_or : Text → Option Text → Text
text_or default none = default
text_or default (some text) = text

options_text : Option Bool → Option Text → Option Bool → Text
unfolding is_set is_cleared
options_text ignore_whitespace moves ignore_revs =
    (if is_set ignore_whitespace then codes "w" else [])
    ++ codes ","
    ++ text_or (codes "off") moves
    ++ codes ","
    ++ (if is_cleared ignore_revs then codes "no-ignore-revs" else codes "ignore-revs")

unfoldable pub options_key : Option BlameOptions → Text
unfolding options_text
options_key none = options_text none none none
options_key (some o) = options_text o.ignore_whitespace o.moves o.ignore_revs

version_text : ℤ → Text
unfolding decimal
version_text (pos n) = decimal n
version_text (negsuc n) = codes "-" ++ decimal (suc n)

unfoldable pub cache_key_for : BlameKey → Text
unfolding options_key version_text
cache_key_for key =
    key.repo_id
    ++ 0 ∷ key.path
    ++ 0 ∷ text_or [] key.rev
    ++ 0 ∷ version_text key.version
    ++ 0 ∷ options_key key.options

-- The last segment of a path, `name` being what has been read of it.
last_segment : Text → Text → Text
last_segment name [] = name
last_segment name (c ∷ rest) =
    if c == 0x2f then last_segment [] rest else last_segment (name ++ c ∷ []) rest

unfoldable pub affects_other_files_blame : (Text → Text) → Text → Bool
unfolding last_segment
affects_other_files_blame lower relative_path =
    let name = lower (last_segment [] relative_path) in
    text_eq name (codes ".gitattributes")
    || text_eq name (codes ".mailmap")
    || text_eq name (codes "mailmap")
    || includes name (codes "ignore-revs")
    || includes name (codes "ignorerevs")

previous_units : Option (Text × Text) → ℕ
previous_units none = 0
previous_units (some (sha, path)) = length sha + length path

hunk_bytes : List BlameHunk → ℕ
unfolding previous_units
hunk_bytes [] = 0
hunk_bytes (h ∷ hunks) =
    120 + (length h.sha + length h.path) * 2 + previous_units h.previous * 2 + hunk_bytes hunks

commit_bytes : List BlameCommit → ℕ
commit_bytes [] = 0
commit_bytes (c ∷ commits) =
    200
    + (length c.sha
        + length c.summary
        + length c.author.0
        + length c.author.1
        + length c.committer.0
        + length c.committer.1)
      * 2
    + commit_bytes commits

unfoldable pub estimate_blame_bytes : FileBlame → ℕ
unfolding hunk_bytes commit_bytes
estimate_blame_bytes blame = hunk_bytes blame.hunks + commit_bytes blame.commits

unfoldable pub hunk_for_line : FileBlame → ℕ → Option BlameHunk
hunk_for_line blame line =
    find_first (λ h. leb h.result_line line && ltb line (h.result_line + h.line_count)) blame.hunks
