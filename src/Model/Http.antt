-- ===== src/Model/Http.antt =====
-- internal/model/step.go: what the generic request path of a step declares.
use tales.Base.{Option, List, String}
use tales.Model.Expression.{Expression}

pub record MultipartFilePart (E : Type 0) : Type 0 where
  pub field : Expression E
  pub path : Expression E
  pub content : Expression E
  pub filename : Expression E
  pub content_type : Expression E

pub record MultipartFieldPart (E : Type 0) : Type 0 where
  pub name : Expression E
  pub value : Expression E

pub record MultipartPart (E : Type 0) : Type 0 where
  pub file : Option (MultipartFilePart E)
  pub field : Option (MultipartFieldPart E)

pub record MultipartBody (E : Type 0) : Type 0 where
  pub parts : List (MultipartPart E)

pub record RequestBody (E : Type 0) : Type 0 where
  pub json : Expression E
  pub form : Expression E
  pub raw : Expression E
  pub multipart : Option (MultipartBody E)

pub record BasicAuth (E : Type 0) : Type 0 where
  pub username : Expression E
  pub password : Expression E

pub record RequestAuth (E : Type 0) : Type 0 where
  pub basic : Option (BasicAuth E)

pub record Request (E : Type 0) : Type 0 where
  pub method : Expression E
  pub url : Expression E
  pub headers : Expression E
  pub query : Expression E
  pub body : Option (RequestBody E)
  pub timeout : Expression E
  pub auth : Option (RequestAuth E)

pub record ExpectShortcut (E : Type 0) : Type 0 where
  pub name : String
  pub expected : Expression E

pub record Expect (E : Type 0) : Type 0 where
  pub status : Expression E
  pub headers : Expression E
  pub json : Expression E
  pub body : Expression E
  pub strict : Expression E
  pub shortcuts : List (ExpectShortcut E)

pub record SaveBlock (E : Type 0) : Type 0 where
  pub body : Expression E

pub record StepVar (E : Type 0) : Type 0 where
  pub name : String
  pub expr : Expression E

pub record KeywordCall (E : Type 0) : Type 0 where
  pub name : Expression E
  pub inputs : Expression E
