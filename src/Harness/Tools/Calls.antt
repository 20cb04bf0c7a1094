-- ===== src/Harness/Tools/Calls.antt =====
-- A list of calls, and the calls that are refused.
use rollout.Prelude.{
  if-elim, ℕ, ◌≡◌, refl, Bool, true, false, ◌&&◌, ◌||◌, List, [], Option, none, some, if◌then◌else◌,
  All, map, bytes_eq,
}
use Prim.Native.String.{String}
use rollout.Core.Ids.{Bytes}
use rollout.Core.Errors.{Result, ok, err, fatal, config_invalid}
use rollout.Harness.Tools.Paths.{reject_escape}
use rollout.Harness.Tools.Settings.{
  ToolSettings, ToolSpec, SideEffectClass, python_exec, shell, file_read, file_write, http_get,
  http_post, advertise, specs,
}
use rollout.Harness.Tools.Run.{
  error, null, ToolCall, ToolResult, Effect, Decoder, Utf8, World, Ran, cap_read, run_read,
  outcome_of,
}
use rollout.Harness.Tools.Invoke.{with_result, dispatch_in, dispatch, dispatch_http, invoke_one}
use rollout.Harness.Tools.Confined.{Permitted}

module _ {Json : Type 0} ⦃decoder : Decoder Json⦄ ⦃utf8 : Utf8⦄ (worlds : ℕ → World)
    (s : ToolSettings) where
  abbrev AllAnswered : List (ToolCall Json) → Ran (List ToolResult) → Type 0
  AllAnswered calls o =
      (rs : List ToolResult) × (made : List Effect) × (o ≡ some (rs, made))
      × (map (λ r. r.call_id) rs ≡ map (λ c. c.call_id) calls)
      × All (Permitted s) made

advertise-All :
    (P : ToolSpec → Type 0) (enabled : Bool) (name : Bytes) (description : String)
    (class : SideEffectClass) (timeout : ℕ) (v : List ToolSpec)
    → All P (advertise enabled name description class timeout v)
    → (enabled ≡ true
        → P (record {
          name = name;
          description = description;
          side_effects = class;
          timeout = timeout;
        }))
      × All P v
advertise-All P true name description class timeout v h = (λ e. h.0, h.1)
advertise-All P false name description class timeout v h = (λ e. absurd (cc), h)

switched_off :
    (named enabled : Bool) → (enabled ≡ true → named ≡ false) → (named && enabled) ≡ false
switched_off named true h = rw (h refl) refl
switched_off true false h = refl
switched_off false false h = refl

Fails : Ran ToolResult → Type 0
Fails o = (r : ToolResult) × (made : List Effect) × (o ≡ some (r, made)) × (r.outcome ≡ error)

module _ {Json : Type 0} ⦃decoder : Decoder Json⦄ ⦃utf8 : Utf8⦄ (w : World) (s : ToolSettings) where
  -- An error without output, and no effect.
  abbrev Refused : ToolCall Json → Ran ToolResult → Type 0
  Refused call o =
      (r : ToolResult) × (o ≡ some (r, []))
      × (r.call_id ≡ call.call_id)
      × (r.outcome ≡ error)
      × (r.output ≡ null)

  dispatch_in-Refused :
      (call : ToolCall Json) (root : Option Bytes)
      → (bytes_eq call.tool python_exec && s.enable_python_exec) ≡ false
      → (bytes_eq call.tool shell && s.enable_shell) ≡ false
      → (bytes_eq call.tool file_read && s.enable_file_read) ≡ false
      → (bytes_eq call.tool file_write && s.enable_file_write) ≡ false
      → Refused call (dispatch_in w s call root)
  unfolding outcome_of
  dispatch_in-Refused call none a b c d = (_, refl, refl, refl, refl)
  dispatch_in-Refused call (some root) a b c d = rw (a, b, c, d) (_, refl, refl, refl, refl)

  dispatch_http-Refused :
      (call : ToolCall Json)
      → (bytes_eq call.tool http_get && s.enable_http_get) ≡ false
      → (bytes_eq call.tool http_post && s.enable_http_post) ≡ false
      → Refused call (dispatch_http w s call)
  unfolding dispatch_http
  dispatch_http-Refused call e f = rw (e, f) (_, refl, refl, refl, refl)

  -- A call of a tool that the descriptor does not list is an error without output, and does nothing
  -- outside.
  pub unlisted_is_refused :
      (call : ToolCall Json)
      → All (λ (spec : ToolSpec). bytes_eq call.tool spec.name ≡ false) (specs s)
      → (r : ToolResult) × (invoke_one w s call ≡ some (r, []))
        × (r.call_id ≡ call.call_id)
        × (r.outcome ≡ error)
        × (r.output ≡ null)
  unfolding invoke_one dispatch specs
  unlisted_is_refused call h =
      let P : ToolSpec → Type 0 = λ spec. bytes_eq call.tool spec.name ≡ false in
      let (a, h₁) = advertise-All P s.enable_python_exec _ _ _ _ _ h in
      let (b, h₂) = advertise-All P s.enable_shell _ _ _ _ _ h₁ in
      let (c, h₃) = advertise-All P s.enable_file_read _ _ _ _ _ h₂ in
      let (d, h₄) = advertise-All P s.enable_file_write _ _ _ _ _ h₃ in
      let (e, h₅) = advertise-All P s.enable_http_get _ _ _ _ _ h₄ in
      let (f, h₆) = advertise-All P s.enable_http_post _ _ _ _ _ h₅ in
      if-elim (Refused call) (bytes_eq call.tool http_get || bytes_eq call.tool http_post)
        (dispatch_http w s call) (dispatch w s call)
        (λ _. dispatch_http-Refused call (switched_off _ _ e) (switched_off _ _ f))
        (λ _.
          dispatch_in-Refused call w.tempdir (switched_off _ _ a) (switched_off _ _ b)
            (switched_off _ _ c) (switched_off _ _ d))

  cap_read-fails :
      (call : ToolCall Json) (root path : Bytes) (r : Result (Unit {0}))
      → w.file root path ≡ none
      → (answer : ToolResult) × (made : List Effect) × (with_result call (cap_read w s root path r)
          ≡ some (answer, made))
        × (answer.outcome ≡ error)
  cap_read-fails call root path (err e) absent = (_, [], refl, refl)
  cap_read-fails call root path (ok u) absent = rw absent (_, _, refl, refl)

  run_read-Fails :
      (call : ToolCall Json) (root : Bytes) (args : Option Bytes)
      → w.tempdir ≡ some root
      → Fails (with_result call (run_read w s root args))
  unfolding Fails
  run_read-Fails call root none made = (_, [], refl, refl)
  run_read-Fails call root (some path) made =
      if-elim (λ o. Fails (with_result call o)) w.opens
        (cap_read w s root path (reject_escape path)) _
        (λ e. cap_read-fails call root path (reject_escape path) (w.fresh root path made))
        (λ e. (_, [], refl, refl))

  -- Each call has a new directory of its own and reads below it, so every call of `file_read` fails,
  -- whatever files there are elsewhere, those of earlier calls included.
  pub file_read_finds_nothing :
      (call_id : ℕ) (args : Json)
      → (r : ToolResult) × (made : List Effect) × (invoke_one w s
            (record { call_id = call_id; tool = file_read; args = args })
          ≡ some (r, made))
        × (r.outcome ≡ error)
  unfolding invoke_one dispatch outcome_of Fails
  file_read_finds_nothing call_id args = in_root w.tempdir refl
    where
      call : ToolCall Json
      call = record { call_id = call_id; tool = file_read; args = args }

      on_flag :
          (enabled : Bool) (root : Bytes)
          → w.tempdir ≡ some root
          → Fails (
              with_result call (
                if enabled
                then run_read w s root (decoder.read_args args)
                else some (err (fatal (config_invalid "unknown or disabled tool: ")), [])))
      on_flag true root made = run_read-Fails call root (decoder.read_args args) made
      on_flag false root made = (_, [], refl, refl)

      in_root : (root : Option Bytes) → w.tempdir ≡ root → Fails (dispatch_in w s call root)
      in_root none made = (_, [], refl, refl)
      in_root (some root) made = on_flag s.enable_file_read root made
