-- ===== src/Lib.antt =====
-- Tales runs end-to-end suites: files of scenarios whose steps call providers (HTTP, SQL, browsers
-- and others), with expectations on the answers. A suite is parsed into the records of
-- internal/model; internal/lang checks the references between the steps; internal/runtime runs the
-- scenarios and collects the results of internal/report; the providers under internal/provider do
-- the calls. This library models the runner's core, the checks before it, the assertions on answers,
-- the workspace of files, and parts of three providers, from the Go source.
--
-- Base: the names that the modules share: Boolean tests and lists over native numbers, texts as
-- lists of bytes, Go's pair of a value and an error as Result, and sets of strings as lists of keys
-- (a Go map has no order; the order here is that of insertion).
--
-- Model: the records of
-- internal/model/{step,expression,file,exec,webhook,rpc,mail,load,mobile,browser, skip}.go, for any
-- type E of HCL expressions; the nil expression is none.
--
-- Lang: internal/lang/refs.go. Lang.Collect is the collect functions, each as the list of the
-- expressions that it passes to its callback, in order. Lang.Refs is findRootAttrRefs,
-- StepDependencies, validateStepRefs and ValidateStepOrder, where `variables` stands for the HCL
-- library's list of an expression's traversals. Lang.Refs.Sets says which names the sets hold,
-- Lang.Refs.Order which lists of steps are accepted. Lang.Vars is ValidateStepVars, and Vars.Accepts
-- says which steps it accepts. Lang.Missed lists the expressions of a step that neither function
-- looks at; Refs.Complete and Vars.Complete state the acceptance for steps in which those refer to
-- nothing.
--
-- Report: internal/report/report.go, the results; times and formatted texts are left out, a reason
-- to skip is kept as data.
--
-- Runtime: internal/runtime. Runtime.Tracker is tracker.go. Runtime.Steps is runScenarioSteps and
-- runOneStep of runner.go with what they record; the evaluation of rules and the execution of a step
-- are the fields of Calls, whose laws are Lawful. Runtime.Steps.Recorded says what one round
-- records, Runtime.Steps.Invariant that report and tracker agree, Runtime.Steps.Outcome what the
-- loop reports. Runtime.Scenario is runScenario with its hooks and its teardown, on every path;
-- Hooks, Teardown and Outcome are its proofs. Runtime.Retry is executeStepInPhase, whose loop is
-- recursion on the attempts left, of which there are as many as retryOptions gives. Runtime.Attempt
-- is executeStepAttempt on the generic path and evalWhen; Attempt.Completed is about what an attempt
-- takes to pass; Runtime.Attempt.Filled fills Calls with these, the retries and the skip rules, and
-- shows Lawful. Runtime.Keyword is executeKeywordStep with all that it calls, where executeStep,
-- which may come back to it, is a parameter; Ran is about its loop, Nested about its state and about
-- calls inside calls, Completed about what a call takes to give outputs, Recursive about a call of a
-- keyword while its own steps run, Isolated about its effect on the scenario. Runtime.Webhook is
-- assertWebhook of webhook.go with what it calls, where the evaluator, HMAC and the keys of headers
-- are parameters; Webhook.Checked and Webhook.Signed are about its check of signatures.
-- Runtime.Filter is filterScenarios, Runtime.Suite is the goroutines of Run in any interleaving,
-- where what runScenario may return is a relation; Bound is about how many run, Reported about the
-- reports and the error, Live about the end. Runtime.SuiteTeardown is runSuiteTeardown, and
-- Runtime.Skip is skip.go, with the evaluator, the values of the cty library and the host as the
-- fields of Context.
--
-- Sql: internal/provider/sql. Dialect is resolveDriver and dialectFor, Skip and Scan are scan.go,
-- where the loops over a statement recurse on fuel that its length bounds (scan_loop_fuel shows that
-- more changes nothing), and Expand is expand.go. Their child modules are the proofs. A statement is
-- its bytes.
--
-- Load: internal/provider/load/runner.go. Load.Workers is runWorkers with stopOnLimit set, which is
-- requests mode with a positive number of requests, as the steps that the goroutines take between
-- two accesses of the shared state, in any interleaving; Load.Samples is recordSample. int and int64
-- are taken not to overflow there.
--
-- Parser: internal/parser/order.go. Parser.Order is reorderStepsBySource, where the steps that the
-- source points to are passed on with the lines that it sets; Order.Kept and Order.Distinct are
-- lemmas for Order.Permuted.
--
-- Assertion: internal/assertion. Assertion.Json is json.go: MatchJSON on fuel, of which the size of
-- the expected value is enough (Json.Fuel), against the relation Accepts (Json.Accepts,
-- Json.Matches), and the paths of its mismatches (Json.Paths). Assertion.Matcher is matcher.go,
-- Assertion.Threshold threshold.go, and Assertion.Uuid uuid.go. The cty library's values are a
-- parameter, Cty, with what the source calls of it and of float64, time.ParseDuration and regexp; a
-- Go map is the list of its entries. A mismatch keeps its path as the steps to it, and its message
-- as the format and its arguments. The panics of cty on a typed null are left out. Lang.Versions is
-- normalizeUUIDVersion of internal/lang/functions.go, on code points.
--
-- Webhook: internal/provider/webhook. Webhook.Receiver is handle and waitFor of server.go as the
-- steps that the handlers and one waiter take between two accesses of what they share, in any
-- interleaving: the steps of a scenario run one after the other, so that one of them waits.
-- Receiver.Woken is about wake-ups, Receiver.Taken about what is recorded and returned.
-- Webhook.Signature is SignaturesEqual and TimestampWithinTolerance of signature.go, with int64 as
-- its two's complement, so that it wraps around; Webhook.Format is ParseSignatureFormat and Parse,
-- where the parts of a format stand for the regular expression built from it.
--
-- Workspace: internal/workspace/resolver.go, for absolute roots and Unix paths, where a path is what
-- stands between its slashes and filepath.EvalSymlinks is a parameter. Workspace.Clean is about
-- filepath.Clean and filepath.Rel, Workspace.Contained about what is resolved.
--
-- Not modelled: the rest of the parser, which leaves HCL to a library; the command line, the
-- diagnostics and the writers of reports; the providers' input and output; the evaluator; the events
-- and the deadline of a suite, the providers' own executors; panics, times and contexts.
--
-- The modules named Tests and Examples hold runs at concrete inputs and the theorems applied to
-- them.
mod Base
pub mod Model
pub mod Lang
pub mod Report
pub mod Runtime
pub mod Sql
pub mod Load
pub mod Parser
pub mod Assertion
pub mod Webhook
pub mod Workspace
