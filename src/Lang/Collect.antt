-- ===== src/Lang/Collect.antt =====
-- internal/lang/refs.go: the expressions of a step that the collect functions hand to their callback,
-- in order. The callback is applied to each element by the callers.
use tales.Base.{Option, none, some, List, [], ◌∷◌, ◌++◌, map, flat_map, String}
use tales.Model.Expression.{Expression}
use tales.Model.Http.{RequestBody, RequestAuth, BasicAuth, Request, Expect, SaveBlock, KeywordCall}
use tales.Model.Local.{FileExpect, FileCall, ExecSandbox, ExecExpect, ExecCall}
use tales.Model.Services.{
  SqlOp, SqlCall, WebhookStart, WebhookWait, WebhookStop, WebhookRequestExpect, WebhookHmacExpect,
  WebhookExpect, WebhookCall, RpcExpect, RpcCall,
}
use tales.Model.Ui.{
  MobileLaunch, MobileAction, MobileVisibility, MobileValueExpectation, MobileStateExpectation,
  MobileExpect, MobileStep,
}
use tales.Model.Step.{SkipRule}

module _ {E : Type 0} where
  abbrev pub values : List (String × Expression E) → List (Expression E)
  values [] = []
  values ((k, e) ∷ m) = e ∷ values m

  abbrev body_refs : Option (RequestBody E) → List (Expression E)
  body_refs none = []
  body_refs (some r) = r.json ∷ r.form ∷ r.raw ∷ []

  abbrev basic_refs : Option (BasicAuth E) → List (Expression E)
  basic_refs none = []
  basic_refs (some r) = r.username ∷ r.password ∷ []

  abbrev auth_refs : Option (RequestAuth E) → List (Expression E)
  auth_refs none = []
  auth_refs (some r) = basic_refs r.basic

  unfoldable pub collect_request_refs : Option (Request E) → List (Expression E)
  collect_request_refs none = []
  collect_request_refs (some r) =
      (r.method ∷ r.url ∷ r.headers ∷ r.query ∷ [])
      ++ (body_refs r.body ++ (auth_refs r.auth ++ (r.timeout ∷ [])))

  unfoldable pub collect_expect_refs : Option (Expect E) → List (Expression E)
  collect_expect_refs none = []
  collect_expect_refs (some r) = r.status ∷ r.headers ∷ r.json ∷ r.body ∷ r.strict ∷ []

  unfoldable pub collect_save_refs : Option (SaveBlock E) → List (Expression E)
  collect_save_refs none = []
  collect_save_refs (some r) = r.body ∷ []

  abbrev file_expect_refs : Option (FileExpect E) → List (Expression E)
  file_expect_refs none = []
  file_expect_refs (some r) = (r.exists ∷ r.size_bytes ∷ r.text ∷ r.json ∷ []) ++ values r.hashes

  unfoldable pub collect_file_refs : Option (FileCall E) → List (Expression E)
  collect_file_refs none = []
  collect_file_refs (some r) = r.path ∷ file_expect_refs r.expect

  abbrev sandbox_refs : Option (ExecSandbox E) → List (Expression E)
  sandbox_refs none = []
  sandbox_refs (some r) = r.mode ∷ r.workdir ∷ r.env ∷ r.network ∷ []

  abbrev exec_expect_refs : Option (ExecExpect E) → List (Expression E)
  exec_expect_refs none = []
  exec_expect_refs (some r) = r.exit_code ∷ r.stdout ∷ r.stderr ∷ r.stdout_json ∷ []

  unfoldable pub collect_exec_refs : Option (ExecCall E) → List (Expression E)
  collect_exec_refs none = []
  collect_exec_refs (some r) =
      (r.command ∷ r.args ∷ r.env ∷ r.stdin ∷ r.timeout ∷ [])
      ++ (sandbox_refs r.sandbox ++ exec_expect_refs r.expect)

  unfoldable pub keyword_refs : Option (KeywordCall E) → List (Expression E)
  keyword_refs none = []
  keyword_refs (some r) = r.name ∷ r.inputs ∷ []

  abbrev launch_refs : Option (MobileLaunch E) → List (Expression E)
  launch_refs none = []
  launch_refs (some r) = r.clear_state ∷ []

  abbrev collect_mobile_locator_refs :
      Expression E → Expression E → Expression E → Expression E → Expression E → List (Expression E)
  collect_mobile_locator_refs id label text timeout interval =
      id ∷ label ∷ text ∷ timeout ∷ interval ∷ []

  abbrev action_refs : MobileAction E → List (Expression E)
  action_refs a =
      a.id ∷ a.label ∷ a.text ∷ a.value ∷ a.secure ∷ a.timeout ∷ a.interval ∷ a.direction
      ∷ a.distance ∷ a.duration ∷ []

  abbrev visibility_refs : MobileVisibility E → List (Expression E)
  visibility_refs v = collect_mobile_locator_refs v.id v.label v.text v.timeout v.interval

  abbrev value_refs : MobileValueExpectation E → List (Expression E)
  value_refs v =
      collect_mobile_locator_refs v.id v.label v.text v.timeout v.interval ++ (v.expected ∷ [])

  abbrev state_refs : MobileStateExpectation E → List (Expression E)
  state_refs v = collect_mobile_locator_refs v.id v.label v.text v.timeout v.interval

  unfoldable pub collect_mobile_expect_refs : MobileExpect E → List (Expression E)
  collect_mobile_expect_refs e =
      flat_map visibility_refs e.visible
      ++ (flat_map visibility_refs e.not_visible
          ++ (flat_map value_refs e.text
              ++ (flat_map value_refs e.value
                  ++ (flat_map state_refs e.enabled ++ flat_map state_refs e.disabled))))

  unfoldable pub collect_mobile_refs : Option (MobileStep E) → List (Expression E)
  collect_mobile_refs none = []
  collect_mobile_refs (some r) =
      (r.platform ∷ r.target ∷ [])
      ++ (launch_refs r.launch
          ++ (flat_map action_refs r.actions
              ++ (map (λ p. p.decision) r.permissions ++ collect_mobile_expect_refs r.expect)))

  abbrev sql_op_refs : Option (SqlOp E) → List (Expression E)
  sql_op_refs none = []
  sql_op_refs (some r) = r.sql ∷ r.args ∷ []

  unfoldable pub collect_sql_refs : Option (SqlCall E) → List (Expression E)
  collect_sql_refs none = []
  collect_sql_refs (some r) = r.connection ∷ (sql_op_refs r.exec ++ sql_op_refs r.query)

  abbrev start_refs : Option (WebhookStart E) → List (Expression E)
  start_refs none = []
  start_refs (some r) =
      r.address ∷ r.path ∷ r.public_url ∷ r.public_scheme ∷ r.public_host ∷ r.public_port
      ∷ r.max_body_size ∷ []

  abbrev wait_refs : Option (WebhookWait E) → List (Expression E)
  wait_refs none = []
  wait_refs (some r) = r.timeout ∷ r.count ∷ []

  abbrev stop_refs : Option (WebhookStop E) → List (Expression E)
  stop_refs none = []
  stop_refs (some r) = r.target ∷ []

  abbrev request_expect_refs : Option (WebhookRequestExpect E) → List (Expression E)
  request_expect_refs none = []
  request_expect_refs (some r) = r.method ∷ r.path ∷ r.headers ∷ r.query ∷ r.json ∷ r.body ∷ []

  abbrev hmac_refs : Option (WebhookHmacExpect E) → List (Expression E)
  hmac_refs none = []
  hmac_refs (some r) =
      r.header ∷ r.secret ∷ r.algorithm ∷ r.format ∷ r.payload ∷ r.timestamp_tolerance
      ∷ r.timestamp_required ∷ []

  unfoldable pub collect_webhook_expect_refs : Option (WebhookExpect E) → List (Expression E)
  collect_webhook_expect_refs none = []
  collect_webhook_expect_refs (some r) = request_expect_refs r.request ++ hmac_refs r.hmac

  unfoldable pub collect_webhook_refs : Option (WebhookCall E) → List (Expression E)
  collect_webhook_refs none = []
  collect_webhook_refs (some r) =
      r.target
      ∷ (start_refs r.start
          ++ (wait_refs r.wait ++ (stop_refs r.stop ++ collect_webhook_expect_refs r.expect)))

  abbrev rpc_expect_refs : Option (RpcExpect E) → List (Expression E)
  rpc_expect_refs none = []
  rpc_expect_refs (some r) =
      r.status ∷ r.error ∷ r.message ∷ r.headers ∷ r.metadata ∷ r.trailers ∷ []

  unfoldable pub collect_rpc_refs : Option (RpcCall E) → List (Expression E)
  collect_rpc_refs none = []
  collect_rpc_refs (some r) =
      (r.target ∷ r.service ∷ r.method ∷ r.message ∷ r.headers ∷ r.metadata ∷ r.timeout ∷ [])
      ++ rpc_expect_refs r.expect

  abbrev rule_refs : SkipRule E → List (Expression E)
  rule_refs r = r.condition ∷ r.reason ∷ r.os ∷ r.arch ∷ r.env_set ∷ r.env ∷ []

  unfoldable pub collect_skip_refs : List (SkipRule E) → List (Expression E)
  collect_skip_refs rules = flat_map rule_refs rules
