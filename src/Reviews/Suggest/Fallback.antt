-- ===== src/Reviews/Suggest/Fallback.antt =====
-- extension/src/reviews/suggestLogic.ts: the comment, the envelope and the confirmation of a patch that stands for a
-- suggestion.
use gitglasses.Base.{
  ltb, leb, ◌==◌, ◌||◌, ◌&&◌, if◌then◌else◌, Bool, true, List, Text, ℕ, [], ◌∷◌, ◌++◌, length, take,
  codes, Option, none, some, trim, text_eq,
}
use gitglasses.Base.Decimal.{decimal}
use gitglasses.Reviews.Suggest.{SuggestionPatch}
use gitglasses.Reviews.Suggest.Words.{push_unit, fence_for, strip_newline, newline}

-- `texts.join(separator)`
join_with : Text → List Text → Text
join_with separator [] = []
join_with separator (text ∷ []) = text
join_with separator (text ∷ other ∷ texts) =
    text ++ separator ++ join_with separator (other ∷ texts)

abbrev paragraphs : Text
paragraphs = newline ++ newline

pub record PatchCommentOptions : Type 0 where
  pub path : Text
  pub start_line : ℕ
  pub end_line : ℕ
  pub replacement : Text
  pub comment : Option Text
  pub patch_url : Option Text
  pub inline_envelope : Option Text

abbrev named_lines : (start_line end_line : ℕ) → Text
named_lines start_line end_line =
    if start_line == end_line
    then codes "line " ++ decimal start_line
    else codes "lines " ++ decimal start_line ++ codes "-" ++ decimal end_line

-- A text, where there is one and it is not empty.
abbrev unless_empty : Option Text → Option Text
unless_empty none = none
unless_empty (some text) = if text_eq text [] then none else some text

abbrev trimmed : Option Text → Option Text
trimmed none = none
trimmed (some text) = some (trim text)

abbrev part_if : Option Text → List Text
part_if none = []
part_if (some text) = text ∷ []

envelope_part : Text → Text
unfolding fence_for strip_newline
envelope_part inline_envelope =
    let envelope = strip_newline inline_envelope in
    let json_fence = fence_for envelope in
    codes
      "<details><summary>GitGlasses patch: copy it, then run <b>Apply Patch</b> → From Clipboard</summary>"
    ++ paragraphs
    ++ json_fence
    ++ codes "json"
    ++ newline
    ++ envelope
    ++ newline
    ++ json_fence
    ++ paragraphs
    ++ codes "</details>"

abbrev patch_parts : (patch_url inline_envelope : Option Text) → List Text
patch_parts (some url) inline_envelope =
    (codes "Apply it with GitGlasses **Apply Patch** from this URL: " ++ url) ∷ []
patch_parts none (some envelope) = envelope_part envelope ∷ []
patch_parts none none = []

unfoldable pub build_patch_comment_body : PatchCommentOptions → Text
unfolding join_with fence_for strip_newline envelope_part
build_patch_comment_body options =
    let fence = fence_for options.replacement in
    join_with paragraphs (
      (codes "**Suggested change** for `"
        ++ options.path
        ++ codes "` ("
        ++ named_lines options.start_line options.end_line
        ++ codes
            ") — outside the PR diff, so it is shared as a GitGlasses patch instead of an inline suggestion.")
      ∷ (part_if (unless_empty (trimmed options.comment))
          ++ ((codes "Proposed replacement:"
                ++ newline
                ++ fence
                ++ newline
                ++ strip_newline options.replacement
                ++ newline
                ++ fence)
              ∷ patch_parts (unless_empty options.patch_url)
                  (unless_empty options.inline_envelope))))

pub record SuggestionEnvelopeInput : Type 0 where
  pub head_sha : Text
  pub head_ref : Text
  pub summary : Text
  pub patch : SuggestionPatch
  pub created_at_iso : Text

pub record PatchEnvelope : Type 0 where
  pub format : Text
  pub version : ℕ
  pub base_sha : Text
  pub branch : Text
  pub summary : Text
  pub patch : Text
  pub created_at_iso : Text

abbrev is_hex_digit : ℕ → Bool
is_hex_digit c = leb 0x30 c && leb c 0x39 || leb 0x41 c && leb c 0x46 || leb 0x61 c && leb c 0x66

all_hex : Text → Bool
all_hex [] = true
all_hex (c ∷ text) = is_hex_digit c && all_hex text

unfoldable pub build_suggestion_envelope : SuggestionEnvelopeInput → Option PatchEnvelope
unfolding all_hex
build_suggestion_envelope input =
    if length input.head_sha == 40 && all_hex input.head_sha
    then some (record {
      format = codes "gitglasses-patch";
      version = 1;
      base_sha = input.head_sha;
      branch = input.head_ref;
      summary = input.summary;
      patch = input.patch.patch;
      created_at_iso = input.created_at_iso;
    })
    else none

pub record PatchUpload : Type 0 where
  pub action : Text
  pub place : Text
  pub visibility : Text

unfoldable pub patch_upload_for : (provider_id host : Text) → Option PatchUpload
patch_upload_for provider_id host =
    if text_eq provider_id (codes "github") || text_eq provider_id (codes "github-enterprise")
    then some (record {
      action = codes "Upload Secret Gist and Comment";
      place = codes "a secret gist on " ++ host;
      visibility =
          codes
            "A secret gist is unlisted, but anyone with its link can read it, and the link is posted on the pull request.";
    })
    else none

unfoldable pub fallback_buttons : Option PatchUpload → (can_preview : Bool) → List Text
fallback_buttons none can_preview =
    codes "Post Comment" ∷ (if can_preview then codes "Preview Patch" ∷ [] else [])
fallback_buttons (some upload) can_preview =
    codes "Comment Only" ∷ upload.action ∷ (if can_preview then codes "Preview Patch" ∷ [] else [])

abbrev confirm_diff_lines : ℕ
confirm_diff_lines = 30

-- The pull request is given by the owner and name of its repository, its number and its title.
pub record FallbackConfirmInput : Type 0 where
  pub owner : Text
  pub name : Text
  pub number : ℕ
  pub title : Text
  pub path : Text
  pub start_line : ℕ
  pub end_line : ℕ
  pub patch : Option SuggestionPatch
  pub upload : Option PatchUpload

-- `text.split('\n')`
split_newlines : Text → List Text
split_newlines [] = [] ∷ []
split_newlines (c ∷ text) =
    let rest = split_newlines text in if c == 0xa then [] ∷ rest else push_unit c rest

-- `action.replace(/ and Comment$/, '')`
without_comment : Text → Text
without_comment [] = []
without_comment (c ∷ text) =
    let rest = without_comment text in
    if text_eq (c ∷ text) (codes " and Comment") then [] else c ∷ rest

abbrev upload_part : Option PatchUpload → Text
upload_part none =
    codes
      "The patch goes into the comment itself, visible to whoever can read the pull request; nothing is uploaded anywhere else."
upload_part (some upload) =
    codes
      "Comment Only puts the patch in the comment, visible to whoever can read the pull request. "
    ++ without_comment upload.action
    ++ codes " puts it in "
    ++ upload.place
    ++ codes " instead. "
    ++ upload.visibility

shown_diff : Text → Text
unfolding split_newlines strip_newline join_with
shown_diff patch =
    let diff = split_newlines (strip_newline patch) in
    let shown = join_with newline (take confirm_diff_lines diff) in
    if ltb confirm_diff_lines (length diff) then shown ++ newline ++ codes "…" else shown

abbrev confirm_parts : FallbackConfirmInput → Option SuggestionPatch → List Text
confirm_parts input none =
    (codes "The comment carries the proposed replacement for "
      ++ input.path
      ++ codes " ("
      ++ named_lines input.start_line input.end_line
      ++ codes "); no patch is attached.")
    ∷ []
confirm_parts input (some patch) =
    (codes "Patch: "
      ++ input.path
      ++ codes ", "
      ++ named_lines input.start_line input.end_line
      ++ codes " (+"
      ++ decimal patch.added
      ++ codes " -"
      ++ decimal patch.removed
      ++ codes "). Nothing else from your working tree is included.")
    ∷ upload_part input.upload
    ∷ shown_diff patch.patch
    ∷ []

unfoldable pub fallback_confirm_detail : FallbackConfirmInput → Text
unfolding join_with without_comment shown_diff
fallback_confirm_detail input = join_with paragraphs (
    (codes "Pull request: "
      ++ input.owner
      ++ codes "/"
      ++ input.name
      ++ codes "#"
      ++ decimal input.number
      ++ codes " \""
      ++ input.title
      ++ codes "\"")
    ∷ confirm_parts input input.patch)
