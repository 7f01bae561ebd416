-- ===== src/Model/Services.antt =====
-- internal/model/step.go, webhook.go, rpc.go, mail.go and load.go: the calls of services.
use tales.Base.{Option, List}
use tales.Model.Expression.{Expression}
use tales.Model.Http.{Request}

pub record SqlOp (E : Type 0) : Type 0 where
  pub sql : Expression E
  pub args : Expression E

pub record SqlCall (E : Type 0) : Type 0 where
  pub connection : Expression E
  pub exec : Option (SqlOp E)
  pub query : Option (SqlOp E)

pub record WebhookStart (E : Type 0) : Type 0 where
  pub address : Expression E
  pub path : Expression E
  pub public_url : Expression E
  pub public_scheme : Expression E
  pub public_host : Expression E
  pub public_port : Expression E
  pub max_body_size : Expression E

pub record WebhookWait (E : Type 0) : Type 0 where
  pub timeout : Expression E
  pub count : Expression E

pub record WebhookStop (E : Type 0) : Type 0 where
  pub target : Expression E

pub record WebhookRequestExpect (E : Type 0) : Type 0 where
  pub method : Expression E
  pub path : Expression E
  pub headers : Expression E
  pub query : Expression E
  pub json : Expression E
  pub body : Expression E

pub record WebhookHmacExpect (E : Type 0) : Type 0 where
  pub header : Expression E
  pub secret : Expression E
  pub algorithm : Expression E
  pub format : Expression E
  pub payload : Expression E
  pub timestamp_tolerance : Expression E
  pub timestamp_required : Expression E

pub record WebhookExpect (E : Type 0) : Type 0 where
  pub request : Option (WebhookRequestExpect E)
  pub hmac : Option (WebhookHmacExpect E)

pub record WebhookCall (E : Type 0) : Type 0 where
  pub start : Option (WebhookStart E)
  pub wait : Option (WebhookWait E)
  pub stop : Option (WebhookStop E)
  pub target : Expression E
  pub expect : Option (WebhookExpect E)

pub record RpcExpect (E : Type 0) : Type 0 where
  pub status : Expression E
  pub error : Expression E
  pub message : Expression E
  pub headers : Expression E
  pub metadata : Expression E
  pub trailers : Expression E

pub record RpcCall (E : Type 0) : Type 0 where
  pub target : Expression E
  pub service : Expression E
  pub method : Expression E
  pub message : Expression E
  pub headers : Expression E
  pub metadata : Expression E
  pub timeout : Expression E
  pub expect : Option (RpcExpect E)

pub record MailAttachment (E : Type 0) : Type 0 where
  pub filename : Expression E
  pub content_type : Expression E
  pub path : Expression E
  pub content : Expression E

pub record MailMessage (E : Type 0) : Type 0 where
  pub from : Expression E
  pub to : Expression E
  pub cc : Expression E
  pub bcc : Expression E
  pub subject : Expression E
  pub headers : Expression E
  pub text : Expression E
  pub html : Expression E
  pub attachments : List (MailAttachment E)

pub record MailCall (E : Type 0) : Type 0 where
  pub target : Expression E
  pub message : Option (MailMessage E)

pub record LoadRun (E : Type 0) : Type 0 where
  pub duration : Expression E
  pub requests : Expression E
  pub concurrency : Expression E
  pub rate : Expression E
  pub warmup : Expression E

pub record LoadCall (E : Type 0) : Type 0 where
  pub request : Option (Request E)
  pub run : Option (LoadRun E)
