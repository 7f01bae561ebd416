-- ===== src/Runtime/Skip/Tests.antt =====
-- internal/runtime/skip.go: the theorems at a rule that does not match the host and one that does.
use tales.Base.{
  String, str_eq, [], ◌∷◌, none, some, true, if◌then◌else◌, ◌≡◌, refl, ◌↔◌, ok, contains,
}
use tales.Report.{given}
use tales.Model.Step.{SkipRule, skip_if, skip_unless}
use tales.Runtime.Skip.{
  Context, evaluate_skip_rules, evaluate_skip_rule, match_skip_attributes, match_env_set, match_os,
  eval_string_list, is_missing, rules_loop, attribute_step, evaluate, strings_of, missing_of,
  resolve_skip_reason,
}
use tales.Runtime.Skip.Rules.{Decides, evaluate_skip_rules-some_iff}

-- Expressions are texts that stand for their values.
abbrev host : Context String String
host = record {
  eval = λ e. ok e;
  is_null = λ v. str_eq v "null";
  as_bool = λ v. if str_eq v "true" then some true else none;
  as_string = λ v. some v;
  elements = λ v. some (v ∷ []);
  entries = λ v. none;
  os = "linux";
  arch = "amd64";
  lookup_env = λ n. if str_eq n "HOME" then some "/root" else none;
  error_text = λ e. "error";
}

abbrev on_darwin : SkipRule String
on_darwin = record {
  kind = skip_if;
  condition = none;
  reason = none;
  os = some "darwin";
  arch = none;
  env_set = none;
  env = none;
}

abbrev needs_ci : SkipRule String
needs_ci = record {
  kind = skip_unless;
  condition = none;
  reason = some "needs CI";
  os = none;
  arch = none;
  env_set = some "CI";
  env = none;
}

skips_test : evaluate_skip_rules host (on_darwin ∷ needs_ci ∷ []) ≡ ok (some (given "needs CI"))
unfolding evaluate_skip_rules rules_loop evaluate_skip_rule match_skip_attributes attribute_step
    match_os eval_string_list evaluate strings_of contains match_env_set missing_of is_missing
    resolve_skip_reason
skips_test = refl

evaluate_skip_rules-some_iff_example :
    (evaluate_skip_rules host (on_darwin ∷ needs_ci ∷ []) ≡ ok (some (given "needs CI"))) ↔ (
      (r : SkipRule String) × Decides host (on_darwin ∷ needs_ci ∷ []) r
      × (evaluate_skip_rule host r ≡ ok (some (given "needs CI"))))
evaluate_skip_rules-some_iff_example =
    evaluate_skip_rules-some_iff host (on_darwin ∷ needs_ci ∷ []) (given "needs CI")
