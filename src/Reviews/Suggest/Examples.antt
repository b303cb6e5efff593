-- ===== src/Reviews/Suggest/Examples.antt =====
-- extension/src/reviews/suggestLogic.ts: small suggestions, and the theorems at them.
use gitglasses.Base.Decimal.{decimal}
use gitglasses.Base.{true, none, trim, is_space, Text, [], ◌∷◌, ◌++◌, ◌≡◌, refl, codes, some}
use gitglasses.Reviews.Suggest.{suggestion_hunk, SuggestionPatchInput, build_suggestion_patch}
use gitglasses.Reviews.Suggest.Words.{
  selection_to_range, fence_for, build_suggestion_body, first_mismatched_line,
}
use gitglasses.Reviews.Suggest.Fallback.{
  build_patch_comment_body, fallback_buttons, patch_upload_for, build_suggestion_envelope,
  fallback_confirm_detail,
}
use gitglasses.Reviews.Suggest.Fence.{fence_for-IsFence, IsFence}
use gitglasses.Reviews.Suggest.Applies.{suggestion_hunk-IsSuggestion, IsSuggestion}

abbrev line : Text → Text
line text = text ++ 0xa ∷ []

abbrev head : Text
head = line (codes "a") ++ line (codes "b") ++ line (codes "c") ++ codes "d"

abbrev input : SuggestionPatchInput
input = record {
  path = codes "x.ts";
  head_text = head;
  start_line = 2;
  end_line = 3;
  replacement = line (codes "e");
}

shift_down :
    selection_to_range
      (record { start_line = 4; start_character = 0; end_line = 6; end_character = 0 })
    ≡ record { start_line = 5; end_line = 6 }
unfolding selection_to_range
shift_down = refl

fence_of_four : fence_for (codes "```js") ≡ codes "````"
unfolding fence_for
fence_of_four = refl

body_with_comment :
    build_suggestion_body (record {
      replacement = line (codes "x");
      comment = some (codes " ok ");
      gitlab_lines_above = some 2;
    })
    ≡ line (codes "ok")
      ++ line []
      ++ line (codes "```suggestion:-2+0")
      ++ line (codes "x")
      ++ codes "```"
unfolding build_suggestion_body trim is_space decimal
body_with_comment = refl

crlf_agrees :
    first_mismatched_line (codes "a" ++ 0xd ∷ 0xa ∷ codes "b") (line (codes "a") ++ codes "c") 2
    ≡ some 2
unfolding first_mismatched_line
crlf_agrees = refl

patch_of_two_lines :
    build_suggestion_patch (λ text. text) input
    ≡ some (record {
      patch =
          line (codes "diff --git a/x.ts b/x.ts")
          ++ line (codes "--- a/x.ts")
          ++ line (codes "+++ b/x.ts")
          ++ line (codes "@@ -1,4 +1,3 @@")
          ++ line (codes " a")
          ++ line (codes "-b")
          ++ line (codes "-c")
          ++ line (codes "+e")
          ++ line (codes " d")
          ++ line (0x5c ∷ codes " No newline at end of file");
      added = 1;
      removed = 2;
    })
unfolding build_suggestion_patch decimal
patch_of_two_lines = refl

comment_with_url :
    build_patch_comment_body (record {
      path = codes "x.ts";
      start_line = 2;
      end_line = 3;
      replacement = line (codes "e");
      comment = some (codes " ");
      patch_url = some (codes "u");
      inline_envelope = none;
    })
    ≡ codes
        "**Suggested change** for `x.ts` (lines 2-3) — outside the PR diff, so it is shared as a GitGlasses patch instead of an inline suggestion."
      ++ line []
      ++ line []
      ++ line (codes "Proposed replacement:")
      ++ line (codes "```")
      ++ line (codes "e")
      ++ line (codes "```")
      ++ line []
      ++ codes "Apply it with GitGlasses **Apply Patch** from this URL: u"
unfolding build_patch_comment_body decimal trim is_space
comment_with_url = refl

gist_buttons :
    fallback_buttons (patch_upload_for (codes "github") (codes "github.com")) true
    ≡ codes "Comment Only" ∷ codes "Upload Secret Gist and Comment" ∷ codes "Preview Patch" ∷ []
unfolding fallback_buttons patch_upload_for
gist_buttons = refl

short_head :
    build_suggestion_envelope (record {
      head_sha = codes "abc";
      head_ref = codes "main";
      summary = [];
      patch = record { patch = []; added = 0; removed = 0 };
      created_at_iso = [];
    })
    ≡ none
unfolding build_suggestion_envelope
short_head = refl

confirm_without_patch :
    fallback_confirm_detail (record {
      owner = codes "o";
      name = codes "r";
      number = 7;
      title = codes "T";
      path = codes "x.ts";
      start_line = 2;
      end_line = 2;
      patch = none;
      upload = none;
    })
    ≡ codes "Pull request: o/r#7 \"T\""
      ++ line []
      ++ line []
      ++ codes
          "The comment carries the proposed replacement for x.ts (line 2); no patch is attached."
unfolding fallback_confirm_detail decimal
confirm_without_patch = refl

fence_for-IsFence_example : IsFence 3 (codes "```js") (fence_for (codes "```js"))
fence_for-IsFence_example = fence_for-IsFence (codes "```js")

suggestion_hunk-IsSuggestion_example : IsSuggestion input (suggestion_hunk input)
suggestion_hunk-IsSuggestion_example = suggestion_hunk-IsSuggestion input
