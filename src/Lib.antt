-- ===== src/Lib.antt =====
-- Models and correctness theorems of GitGlasses' TypeScript: the JSON-RPC link between the extension and
-- the engine, the logic of the views (commit graph, interactive rebase, timeline), the extension's display
-- modes, capability gate, repository groups, worktree status cache, blame cache, prompt context and
-- suggestions, and the integrations' cache, rate limiter and pull-request groups.
--
-- The extension talks to the engine process over a byte stream. packages/rpc/src/framing.ts cuts the
-- stream into messages (Rpc/Framing: `push` is `FrameParser.push`, `take_bytes` is `take`, `frame` is
-- `frame`), and packages/rpc/src/engineClient.ts sends requests, settles them and respawns an engine that
-- crashes (Rpc/Client: the record `Client` of State has the fields of `EngineClient`; each method, promise
-- continuation and timer is an `Act`, a function from the client to the client after it and the effects
-- in order: Requests has those of a request, Lifecycle those of the engine's process; `step` and `run`
-- apply events in any order).
--
-- extension/webviews-src/graph/graphLogic.ts is the pure logic of the graph view (Graph, with a module per
-- group of functions: Rows, Lanes, Edges, Selection, Find, Menus, Columns), and store.ts beside it is the store of
-- the rows (Graph/Store: the record `GraphStore` has the fields of the class, its caches included; `on_rows`,
-- `on_reset`, `on_error`, `select_index` and `restore_selection` are what main.ts does to it, and `run` applies
-- events in any order).
-- extension/webviews-src/rebase/rebaseLogic.ts is the plan of the rebase editor (Rebase/Plan, with autosquash in
-- Rebase/Autosquash) and extension/src/webviews/rebaseTodoLogic.ts reads and writes git's todo list (Rebase/Todo).
-- extension/webviews-src/timeline/timelineLogic.ts is Timeline/Lanes and Timeline/Labels.
--
-- extension/src/modes/modeLogic.ts is Editor/Modes, extension/src/engine/capabilityGate.ts is Editor/Gate and
-- extension/src/groups/groupsLogic.ts is Editor/Groups, on the JSON values of Base/Json;
-- extension/src/sync/syncLogic.ts tells the user of a failure of git (Editor/Failures: the words are constructors).
-- extension/src/views/worktreeLogic.ts has the class `WorktreeStatusCache`, which is Worktree/StatusCache: the
-- loads that run are a list in the order of their start, a promise's end is the operation `load_settled`, and
-- `run` applies events in any order. packages/integrations/src/cache.ts is Integrations/Cache
-- (`operate_all` applies its methods and the ends of its fetches in any order),
-- rateLimiter.ts there is Integrations/RateLimiter and launchpadClassifier.ts is Integrations/Launchpad.
-- extension/src/model/blameModel.ts is the cache of whole-file blames (Blame: Keys has the keys and sizes, Model the
-- class `BlameModel`). A request outlives its place in the cache, since its callers hold it: the requests are a list that
-- only grows, and the cache maps a key to a place in it. A caller's token, a promise's end and the timer of an abandoned
-- request are events that `run` applies in any order. extension/src/ai/contextBuilder.ts fits a change into a prompt (Ai:
-- Paths has the kinds of a path, Cap is `biggestFirstCap`, Context is `buildDiffContext`).
-- extension/src/reviews/suggestLogic.ts is Reviews/Suggest (Words has the body of a comment and the comparison with the
-- head; `suggestion_hunk` is the hunk that `buildSuggestionPatch` writes out, the UTF-8 bytes of a path a parameter;
-- Fallback has the comment, the envelope and the confirmation of such a patch).
-- Functions keep their names, in this language's spelling.
--
-- A JavaScript string is its list of UTF-16 code units (Base/Texts), a `Set` or a `Map` of strings the
-- list of its members or pairs in insertion order (Base/Sets, Base/Maps), a number a natural number or
-- an integer (Base/Int): pixels, times and indices are whole, and floating-point rounding is not
-- modelled; the limiter's tokens are counted in thousandths, which a whole number of milliseconds adds a
-- whole number of. The UTF-8 codec of Node's `Buffer` is a parameter of the framing (`Utf8`) with what is
-- documented of it: ASCII is one byte a unit, and decoding what a well-formed string encodes to gives
-- it back. What the browser knows of a text (its width, its graphemes, its direction, its lower case, the
-- order of names) is a parameter of the timeline, as the lower case of a path is one of the blame cache. The
-- clock is an argument, and how late a sleep ends is a function that the limiter takes. The blame cache is
-- one that was given a log.
--
-- Some loops run on fuel, and the theorems show that it is enough: `FrameParser.push` as many turns as there
-- are bytes held and two more, as each turn consumes a byte or ends the loop; `acquire` four turns (a block,
-- a spacing, a wait for a token, an admission); `uniqueGroupName` one round more than there are names;
-- `fitText` a turn for each letter, as each shrinks the range; the search of `buildDiffContext` a turn for each file, for
-- the same reason; `fenceFor` a turn for each character of the text; the stripping of an autosquash subject a turn for
-- each character. All other loops are structural.
--
-- Not modelled: JSON parsing (a payload arrives parsed), the handlers that the extension registers with
-- the client and their answers, colors, scales and bubbles (floating point), the texts of rebaseLogic's
-- problems, the blame hunks that arrive in parts, `splitPatch`, the reading of rate-limit headers, the aborts
-- of a wait, the HTTP providers, the shells of the views, and the engine, which is not TypeScript.
pub mod Base
pub mod Rpc
pub mod Graph
pub mod Integrations
pub mod Editor
pub mod Rebase
pub mod Reviews
pub mod Worktree
pub mod Timeline
pub mod Blame
pub mod Ai
