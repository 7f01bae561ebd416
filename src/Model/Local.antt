-- ===== src/Model/Local.antt =====
-- internal/model/file.go and exec.go: the calls that touch the local machine.
use tales.Base.{Option, List, String}
use tales.Model.Expression.{Expression}

-- The hashes are the entries of a map, in some order.
pub record FileExpect (E : Type 0) : Type 0 where
  pub exists : Expression E
  pub size_bytes : Expression E
  pub text : Expression E
  pub json : Expression E
  pub hashes : List (String × Expression E)

pub record FileCall (E : Type 0) : Type 0 where
  pub path : Expression E
  pub expect : Option (FileExpect E)

pub record ExecSandbox (E : Type 0) : Type 0 where
  pub mode : Expression E
  pub workdir : Expression E
  pub env : Expression E
  pub network : Expression E

pub record ExecExpect (E : Type 0) : Type 0 where
  pub exit_code : Expression E
  pub stdout : Expression E
  pub stderr : Expression E
  pub stdout_json : Expression E

pub record ExecCall (E : Type 0) : Type 0 where
  pub command : Expression E
  pub args : Expression E
  pub env : Expression E
  pub stdin : Expression E
  pub timeout : Expression E
  pub sandbox : Option (ExecSandbox E)
  pub expect : Option (ExecExpect E)
