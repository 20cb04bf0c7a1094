-- ===== src/Harness/Tools/Invoke.antt =====
-- crates/rollout-harness-tool/src/lib.rs: `dispatch`, `dispatch_http` and `invoke`, with the HTTP tools
-- of tools/.
use rollout.Prelude.{
  ℕ, suc, ◌&&◌, ◌||◌, List, [], ◌∷◌, ◌++◌, Option, none, some, if◌then◌else◌, bytes_eq, codes,
}
use rollout.Core.Ids.{Bytes}
use rollout.Core.Errors.{Result, ok, err}
use rollout.Egress.Fetch.{
  Method, timed_out, bad_url, Fetched, fetched, fault, HttpResponse, SocketAddr, Traced, fetch,
}
use rollout.Harness.Tools.Settings.{ToolSettings, http_get, http_post}
use rollout.Harness.Tools.Run.{
  success, over_time, null, response, message, core_error, http_error, ToolCall, ToolResult, Effect,
  connects, Decoder, Utf8, World, Ran, Done, egress, errored, outcome_of,
}

abbrev pub result_of : {Json : Type 0} → ToolCall Json → Result Done → ToolResult
result_of call (err e) = errored call (core_error e)
result_of call (ok (output, stderr, late)) = record {
  call_id = call.call_id;
  outcome = if late then over_time else success;
  output = output;
  stderr = stderr;
}

abbrev pub with_result : {Json : Type 0} → ToolCall Json → Ran (Result Done) → Ran ToolResult
with_result call none = none
with_result call (some (r, effects)) = some (result_of call r, effects)

abbrev pub connections : List SocketAddr → List Effect
connections [] = []
connections (addr ∷ more) = connects addr ∷ connections more

module _ {Json : Type 0} ⦃utf8 : Utf8⦄ where
  abbrev pub http_result : ToolCall Json → Fetched HttpResponse → ToolResult
  http_result call (fetched resp) = record {
    call_id = call.call_id;
    outcome = success;
    output = response resp.status (utf8.from_utf8_lossy resp.body);
    stderr = none;
  }
  http_result call (fault timed_out) = record {
    call_id = call.call_id;
    outcome = over_time;
    output = null;
    stderr = some (http_error timed_out);
  }
  http_result call (fault e) = errored call (http_error e)

  abbrev pub after_fetch : ToolCall Json → Option (Traced HttpResponse) → Ran ToolResult
  after_fetch call none = none
  after_fetch call (some (r, made)) = some (http_result call r, connections made)

module _ {Json : Type 0} ⦃decoder : Decoder Json⦄ ⦃utf8 : Utf8⦄ (w : World) (s : ToolSettings) where
  abbrev pub dispatch_in : ToolCall Json → Option Bytes → Ran ToolResult
  dispatch_in call none = some (errored call (message "tempdir: "), [])
  dispatch_in call (some root) = with_result call (outcome_of w s root call)

  unfoldable pub dispatch : ToolCall Json → Ran ToolResult
  unfolding outcome_of
  dispatch call = dispatch_in call w.tempdir

  -- tools/http_get.rs and tools/http_post.rs, by the URL in the arguments.
  abbrev pub run_http : Method → ToolCall Json → Option Bytes → Option Bytes → Ran ToolResult
  run_http method call body none = some (http_result call (fault bad_url), [])
  run_http method call body (some url) =
      after_fetch call (fetch ⦃net = w.net⦄ method url body (egress s))

  unfoldable pub dispatch_http : ToolCall Json → Ran ToolResult
  unfolding fetch
  dispatch_http call =
      let url = decoder.get_str (codes "url") call.args in
      if bytes_eq call.tool http_get && s.enable_http_get
      then run_http Method.get call none url
      else if bytes_eq call.tool http_post && s.enable_http_post
      then run_http Method.post call (decoder.get_str (codes "body") call.args) url
      else some (errored call (message "unknown or disabled tool: "), [])

  unfoldable pub invoke_one : ToolCall Json → Ran ToolResult
  unfolding dispatch dispatch_http
  invoke_one call =
      if bytes_eq call.tool http_get || bytes_eq call.tool http_post
      then dispatch_http call
      else dispatch call

abbrev pub then_call :
    Option (ToolResult × List Effect) → Ran (List ToolResult) → Ran (List ToolResult)
then_call none rest = none
then_call (some (r, made)) none = none
then_call (some (r, made)) (some (rs, more)) = some (r ∷ rs, made ++ more)

module _ {Json : Type 0} ⦃decoder : Decoder Json⦄ ⦃utf8 : Utf8⦄ (worlds : ℕ → World)
    (s : ToolSettings) where
  -- `i` is the number of the call; the outside may answer anew at each call.
  unfoldable pub invoke_from : ℕ → List (ToolCall Json) → Ran (List ToolResult)
  unfolding invoke_one
  invoke_from i [] = some ([], [])
  invoke_from i (call ∷ calls) =
      then_call (invoke_one (worlds i) s call) (invoke_from (suc i) calls)

  abbrev pub invoke : List (ToolCall Json) → Ran (List ToolResult)
  invoke calls = invoke_from 0 calls
