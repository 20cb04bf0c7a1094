-- ===== src/Harness/Tools/Confined.antt =====
-- Every call is answered, and what the calls do outside stays within the settings.
use rollout.Prelude.{
  if-elim, ◌≡◌, refl, Bool, true, false, ◌&&◌, ◌||◌, List, [], ◌∷◌, Option, none, some, All,
  bytes_eq, codes, Bool-cases, ◌⊎◌, inl, inr,
}
use rollout.Core.Ids.{Bytes}
use rollout.Core.Errors.{Result, ok, err}
use rollout.Store.Embedded.{find_bytes}
use rollout.Egress.Filter.{blocked_range}
use rollout.Egress.Fetch.{
  Method, bad_url, timed_out, Fetched, fetched, fault, HttpResponse, SocketAddr, blocked,
  resolve_failed, too_many_redirects, transport,
}
use rollout.Egress.Safety.{fetch-stays_out}
use rollout.Harness.Tools.Launch.{launch, unshare, ExecRequest, ExecRun, ChildStep}
use rollout.Harness.Tools.Launch.Sandbox.{
  confined, Launched, contained, held_open, stopped, not_spawned, launch-Launched,
}
use rollout.Harness.Tools.Paths.{reject_escape, IsInside, reject_escape_iff}
use rollout.Harness.Tools.Settings.{
  ToolSettings, python_exec, shell, file_read, file_write, http_get, http_post,
}
use rollout.Harness.Tools.Run.{
  ToolCall, ToolResult, Effect, launched, reads, writes, connects, Decoder, Utf8, World, Ran, Done,
  request, after_launch, run_request, run_python, run_listed, run_shell, cap_read, run_read,
  cap_write, run_write, outcome_of,
}
use rollout.Harness.Tools.Invoke.{
  result_of, with_result, connections, http_result, dispatch_in, dispatch, run_http, dispatch_http,
  invoke_one,
}

-- What the settings permit: the program of python or one of the allowlist, each under its own flag
-- and with the limits of the settings; a file below the root of the call; a connection to an address
-- that the filter lets through.
abbrev pub Permitted : ToolSettings → Effect → Type 0
Permitted s (launched req) =
    (((s.enable_python_exec ≡ true) × (req.exact_path ≡ s.python_path))
      ⊎ ((s.enable_shell ≡ true)
          × ((cmd : Bytes) × (find_bytes cmd s.shell_allowlist ≡ some req.exact_path))))
    × ((root : Bytes) × (argv : List Bytes) × (req ≡ request s root req.exact_path argv))
Permitted s (reads path) = (s.enable_file_read ≡ true) × IsInside path
Permitted s (writes path bytes) = (s.enable_file_write ≡ true) × IsInside path
Permitted s (connects addr) =
    ((s.enable_http_get ≡ true) ⊎ (s.enable_http_post ≡ true)) × (blocked_range addr.ip ≡ none)

abbrev Allowed : {A : Type 0} → ToolSettings → Ran A → Type 0
Allowed {A} s o = (a : A) × (made : List Effect) × (o ≡ some (a, made)) × All (Permitted s) made

-- A call that is answered under its own id.
abbrev pub Answered : {Json : Type 0} → ToolSettings → ToolCall Json → Ran ToolResult → Type 0
Answered s call o =
    (r : ToolResult) × (made : List Effect) × (o ≡ some (r, made))
    × (r.call_id ≡ call.call_id)
    × All (Permitted s) made

and_right : (a b : Bool) → (a && b) ≡ true → b ≡ true
and_right true b h = h
and_right false b h = absurd (cc)

module _ ⦃utf8 : Utf8⦄ (w : World) (s : ToolSettings) where
  after_launch-Allowed :
      (req : ExecRequest) (r : Result ExecRun) (steps : List ChildStep)
      → Permitted s (launched req)
      → Allowed s (after_launch w s req (some (r, steps)))
  after_launch-Allowed req (err e) steps h = (err e, launched req ∷ [], refl, (h, tt))
  after_launch-Allowed req (ok run) steps h = (_, launched req ∷ [], refl, (h, tt))

  ended-Allowed :
      (req : ExecRequest) (o : Option (Result ExecRun × List ChildStep))
      → Launched w.os req o
      → Permitted s (launched req)
      → Allowed s (after_launch w s req o)
  ended-Allowed req o (contained r done) h = after_launch-Allowed req r (unshare ∷ confined req) h
  ended-Allowed req o (held_open done (inl out)) h = absurd (cc (out, w.out_ends))
  ended-Allowed req o (held_open done (inr late)) h = absurd (cc (late, w.err_ends))
  ended-Allowed req o (stopped steps stops) h = (_, launched req ∷ [], refl, (h, tt))
  ended-Allowed req o (not_spawned e) h = (err e, launched req ∷ [], refl, (h, tt))

  run_request-Allowed :
      (req : ExecRequest) → Permitted s (launched req) → Allowed s (run_request w s req)
  run_request-Allowed req h = ended-Allowed req (launch w.os req) (launch-Launched w.os req) h

  run_python-Allowed :
      (root : Bytes) (args : Option Bytes)
      → s.enable_python_exec ≡ true
      → Allowed s (run_python w s root args)
  run_python-Allowed root none on = (_, [], refl, tt)
  run_python-Allowed root (some code) on =
      run_request-Allowed (request s root s.python_path _) (inl (on, refl), (root, _, refl))

  run_listed-Allowed :
      (root : Bytes) (args : List Bytes) (cmd : Bytes) (o : Option Bytes)
      → s.enable_shell ≡ true
      → find_bytes cmd s.shell_allowlist ≡ o
      → Allowed s (run_listed w s root args o)
  run_listed-Allowed root args cmd none on at = (_, [], refl, tt)
  run_listed-Allowed root args cmd (some path) on at =
      run_request-Allowed (request s root path _) (inr (on, (cmd, at)), (root, _, refl))

  run_shell-Allowed :
      (root : Bytes) (args : Option (List Bytes))
      → s.enable_shell ≡ true
      → Allowed s (run_shell w s root args)
  run_shell-Allowed root none on = (_, [], refl, tt)
  run_shell-Allowed root (some []) on = (_, [], refl, tt)
  run_shell-Allowed root (some (cmd ∷ args)) on =
      run_listed-Allowed root args cmd (find_bytes cmd s.shell_allowlist) on refl

  cap_read-Allowed :
      (root path : Bytes) (r : Result (Unit {0}))
      → s.enable_file_read ≡ true
      → reject_escape path ≡ r
      → Allowed s (cap_read w s root path r)
  cap_read-Allowed root path (err e) on inside = (err e, [], refl, tt)
  cap_read-Allowed root path (ok u) on inside =
      (_, reads path ∷ [], refl, ((on, (reject_escape_iff path).0 inside), tt))

  run_read-Allowed :
      (root : Bytes) (args : Option Bytes)
      → s.enable_file_read ≡ true
      → Allowed s (run_read w s root args)
  run_read-Allowed root none on = (_, [], refl, tt)
  run_read-Allowed root (some path) on =
      if-elim (Allowed s) w.opens _ _ (λ e. cap_read-Allowed root path (reject_escape path) on refl)
        (λ e. (_, [], refl, tt))

  cap_write-Allowed :
      (path bytes : Bytes) (r : Result (Unit {0}))
      → s.enable_file_write ≡ true
      → reject_escape path ≡ r
      → Allowed s (cap_write w s path bytes r)
  cap_write-Allowed path bytes (err e) on inside = (err e, [], refl, tt)
  cap_write-Allowed path bytes (ok u) on inside =
      (_, writes path bytes ∷ [], refl, ((on, (reject_escape_iff path).0 inside), tt))

  run_write-Allowed :
      (args : Option (Bytes × Bytes)) → s.enable_file_write ≡ true → Allowed s (run_write w s args)
  run_write-Allowed none on = (_, [], refl, tt)
  run_write-Allowed (some (path, bytes)) on =
      if-elim (Allowed s) w.opens _ _
        (λ e. cap_write-Allowed path bytes (reject_escape path) on refl) (λ e. (_, [], refl, tt))

  connections-Permitted :
      (made : List SocketAddr)
      → ((s.enable_http_get ≡ true) ⊎ (s.enable_http_post ≡ true))
      → All (λ addr. blocked_range addr.ip ≡ none) made
      → All (Permitted s) (connections made)
  connections-Permitted [] on h = tt
  connections-Permitted (addr ∷ made) on h = ((on, h.0), connections-Permitted made on h.1)

module _ {Json : Type 0} ⦃decoder : Decoder Json⦄ ⦃utf8 : Utf8⦄ (w : World) (s : ToolSettings) where
  outcome_of-Allowed : (root : Bytes) (call : ToolCall Json) → Allowed s (outcome_of w s root call)
  unfolding outcome_of
  outcome_of-Allowed root call =
      elim (Bool-cases (bytes_eq call.tool python_exec && s.enable_python_exec)) [
        | inl e ↦ rw e (
            run_python-Allowed w s root (decoder.python_args call.args)
              (and_right (bytes_eq call.tool python_exec) s.enable_python_exec e))
        | inr e1 ↦ elim (Bool-cases (bytes_eq call.tool shell && s.enable_shell)) [
          | inl e ↦
              rw (e1, e)
                (run_shell-Allowed w s root (decoder.shell_args call.args)
                  (and_right (bytes_eq call.tool shell) s.enable_shell e))
          | inr e2 ↦ elim (Bool-cases (bytes_eq call.tool file_read && s.enable_file_read)) [
            | inl e ↦
                rw (e1, e2, e)
                  (run_read-Allowed w s root (decoder.read_args call.args)
                    (and_right (bytes_eq call.tool file_read) s.enable_file_read e))
            | inr e3 ↦ elim (Bool-cases (bytes_eq call.tool file_write && s.enable_file_write)) [
              | inl e ↦
                  rw (e1, e2, e3, e)
                    (run_write-Allowed w s (decoder.write_args call.args)
                      (and_right (bytes_eq call.tool file_write) s.enable_file_write e))
              | inr e4 ↦ rw (e1, e2, e3, e4) (_, [], refl, tt)
            ]
          ]
        ]
      ]

  result_of-id :
      (call : ToolCall Json) (r : Result Done) → (result_of call r).call_id ≡ call.call_id
  result_of-id call (err e) = refl
  result_of-id call (ok (output, stderr, late)) = refl

  with_result-Answered :
      (call : ToolCall Json) (o : Ran (Result Done))
      → Allowed s o
      → Answered s call (with_result call o)
  with_result-Answered call none (r, made, e, h) = absurd (cc)
  with_result-Answered call (some (r₁, made₁)) (r, made, e, h) =
      let same : made ≡ made₁ = cc in
      (result_of call r₁, made₁, refl, result_of-id call r₁, rw same at h)

  dispatch_in-Answered :
      (call : ToolCall Json) (root : Option Bytes) → Answered s call (dispatch_in w s call root)
  dispatch_in-Answered call none = (_, [], refl, refl, tt)
  dispatch_in-Answered call (some root) =
      with_result-Answered call (outcome_of w s root call) (outcome_of-Allowed root call)

  http_result-id :
      (call : ToolCall Json) (r : Fetched HttpResponse)
      → (http_result call r).call_id ≡ call.call_id
  http_result-id call (fetched resp) = refl
  http_result-id call (fault (blocked host reason)) = refl
  http_result-id call (fault resolve_failed) = refl
  http_result-id call (fault bad_url) = refl
  http_result-id call (fault too_many_redirects) = refl
  http_result-id call (fault timed_out) = refl
  http_result-id call (fault transport) = refl

  run_http-Answered :
      (method : Method) (call : ToolCall Json) (body url : Option Bytes)
      → ((s.enable_http_get ≡ true) ⊎ (s.enable_http_post ≡ true))
      → Answered s call (run_http w s method call body url)
  run_http-Answered method call body none on = (_, [], refl, refl, tt)
  run_http-Answered method call body (some url) on =
      let (t, e, safe, few) = fetch-stays_out ⦃net = w.net⦄ method url body s.egress_allowlist in
      rw e (
        http_result call t.0,
        connections t.1,
        refl,
        http_result-id call t.0,
        connections-Permitted w s t.1 on safe,
      )

  dispatch_http-Answered : (call : ToolCall Json) → Answered s call (dispatch_http w s call)
  unfolding dispatch_http
  dispatch_http-Answered call =
      elim (Bool-cases (bytes_eq call.tool http_get && s.enable_http_get)) [
        | inl e ↦ rw e (
            run_http-Answered Method.get call none (decoder.get_str (codes "url") call.args)
              (inl (and_right (bytes_eq call.tool http_get) s.enable_http_get e)))
        | inr e₁ ↦ elim (Bool-cases (bytes_eq call.tool http_post && s.enable_http_post)) [
          | inl e ↦
              rw (e₁, e)
                (run_http-Answered Method.post call (decoder.get_str (codes "body") call.args)
                  (decoder.get_str (codes "url") call.args)
                  (inr (and_right (bytes_eq call.tool http_post) s.enable_http_post e)))
          | inr e₂ ↦ rw (e₁, e₂) (_, [], refl, refl, tt)
        ]
      ]

  pub invoke_one-Answered : (call : ToolCall Json) → Answered s call (invoke_one w s call)
  unfolding invoke_one dispatch
  invoke_one-Answered call =
      if-elim (Answered s call) (bytes_eq call.tool http_get || bytes_eq call.tool http_post)
        (dispatch_http w s call) (dispatch w s call) (λ _. dispatch_http-Answered call)
        (λ _. dispatch_in-Answered call w.tempdir)
