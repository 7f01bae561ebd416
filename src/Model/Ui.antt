-- ===== src/Model/Ui.antt =====
-- internal/model/mobile.go and browser.go: the steps that drive a user interface.
use tales.Base.{Option, List, String}
use tales.Model.Expression.{Expression}

pub record MobilePermission (E : Type 0) : Type 0 where
  pub service : String
  pub decision : Expression E

pub record MobileLaunch (E : Type 0) : Type 0 where
  pub clear_state : Expression E

pub record MobileAction (E : Type 0) : Type 0 where
  pub kind : String
  pub id : Expression E
  pub label : Expression E
  pub text : Expression E
  pub value : Expression E
  pub secure : Expression E
  pub timeout : Expression E
  pub interval : Expression E
  pub direction : Expression E
  pub distance : Expression E
  pub duration : Expression E
  pub first : Expression E

pub record MobileVisibility (E : Type 0) : Type 0 where
  pub id : Expression E
  pub label : Expression E
  pub text : Expression E
  pub timeout : Expression E
  pub interval : Expression E

pub record MobileValueExpectation (E : Type 0) : Type 0 where
  pub id : Expression E
  pub label : Expression E
  pub text : Expression E
  pub expected : Expression E
  pub timeout : Expression E
  pub interval : Expression E

pub record MobileStateExpectation (E : Type 0) : Type 0 where
  pub id : Expression E
  pub label : Expression E
  pub text : Expression E
  pub timeout : Expression E
  pub interval : Expression E

pub record MobileExpect (E : Type 0) : Type 0 where
  pub visible : List (MobileVisibility E)
  pub not_visible : List (MobileVisibility E)
  pub text : List (MobileValueExpectation E)
  pub value : List (MobileValueExpectation E)
  pub enabled : List (MobileStateExpectation E)
  pub disabled : List (MobileStateExpectation E)

pub record MobileStep (E : Type 0) : Type 0 where
  pub platform : Expression E
  pub target : Expression E
  pub launch : Option (MobileLaunch E)
  pub terminate : Option (Unit {0})
  pub actions : List (MobileAction E)
  pub permissions : List (MobilePermission E)
  pub expect : MobileExpect E

pub record BrowserAction (E : Type 0) : Type 0 where
  pub kind : String
  pub selector : Expression E
  pub value : Expression E
  pub url : Expression E
  pub key : Expression E
  pub secure : Expression E
  pub force : Expression E
  pub timeout : Expression E
  pub interval : Expression E
  pub x : Expression E
  pub y : Expression E
  pub paths : Expression E

pub record BrowserVisibility (E : Type 0) : Type 0 where
  pub selector : Expression E
  pub timeout : Expression E
  pub interval : Expression E

pub record BrowserValueExpectation (E : Type 0) : Type 0 where
  pub selector : Expression E
  pub expected : Expression E
  pub timeout : Expression E
  pub interval : Expression E

pub record BrowserStateExpectation (E : Type 0) : Type 0 where
  pub selector : Expression E
  pub timeout : Expression E
  pub interval : Expression E

pub record BrowserAttributeExpectation (E : Type 0) : Type 0 where
  pub selector : Expression E
  pub name : Expression E
  pub expected : Expression E
  pub timeout : Expression E
  pub interval : Expression E

pub record BrowserUrlExpectation (E : Type 0) : Type 0 where
  pub expected : Expression E
  pub timeout : Expression E
  pub interval : Expression E

pub record BrowserTitleExpectation (E : Type 0) : Type 0 where
  pub expected : Expression E
  pub timeout : Expression E
  pub interval : Expression E

pub record BrowserWebPerfExpectation (E : Type 0) : Type 0 where
  pub metric : String
  pub expected : Expression E

pub record BrowserExpect (E : Type 0) : Type 0 where
  pub visible : List (BrowserVisibility E)
  pub not_visible : List (BrowserVisibility E)
  pub text : List (BrowserValueExpectation E)
  pub value : List (BrowserValueExpectation E)
  pub enabled : List (BrowserStateExpectation E)
  pub disabled : List (BrowserStateExpectation E)
  pub attribute : List (BrowserAttributeExpectation E)
  pub url : List (BrowserUrlExpectation E)
  pub title : List (BrowserTitleExpectation E)
  pub web_perf : List (BrowserWebPerfExpectation E)

pub record BrowserStep (E : Type 0) : Type 0 where
  pub target : Expression E
  pub actions : List (BrowserAction E)
  pub expect : BrowserExpect E
