-- ===== src/Lang/Missed.antt =====
-- internal/model: the expressions of a step that the collect functions of internal/lang/refs.go do not
-- hand on: those of multipart bodies, of shortcuts, of the mail, browser and load blocks, and the one
-- of `first` in the actions on a mobile device.
use tales.Base.{Option, none, some, List, [], ◌∷◌, ◌++◌, map, flat_map}
use tales.Model.Expression.{Expression}
use tales.Model.Http.{MultipartPart, Request}
use tales.Model.Services.{MailCall, LoadCall}
use tales.Model.Ui.{
  BrowserAction, BrowserVisibility, BrowserValueExpectation, BrowserStateExpectation, BrowserExpect,
  BrowserStep,
}
use tales.Model.Step.{Step}
use tales.Lang.Collect.{collect_request_refs}

-- Nothing, or what a block holds.
abbrev within : {A B : Type 0} → (A → List B) → Option A → List B
within f none = []
within f (some a) = f a

module _ {E : Type 0} where
  abbrev part_expressions : MultipartPart E → List (Expression E)
  part_expressions p =
      within (λ f. f.field ∷ f.path ∷ f.content ∷ f.filename ∷ f.content_type ∷ []) p.file
      ++ within (λ f. f.name ∷ f.value ∷ []) p.field

  abbrev multipart_expressions : Request E → List (Expression E)
  multipart_expressions r =
      within (λ b. within (λ m. flat_map part_expressions m.parts) b.multipart) r.body

  abbrev mail_expressions : MailCall E → List (Expression E)
  mail_expressions c =
      c.target
      ∷ within
          (λ m.
            (m.from ∷ m.to ∷ m.cc ∷ m.bcc ∷ m.subject ∷ m.headers ∷ m.text ∷ m.html ∷ [])
            ++ flat_map (λ a. a.filename ∷ a.content_type ∷ a.path ∷ a.content ∷ []) m.attachments)
          c.message

  abbrev load_expressions : LoadCall E → List (Expression E)
  load_expressions c =
      collect_request_refs c.request
      ++ (within multipart_expressions c.request
          ++ within (λ r. r.duration ∷ r.requests ∷ r.concurrency ∷ r.rate ∷ r.warmup ∷ []) c.run)

  abbrev browser_action : BrowserAction E → List (Expression E)
  browser_action a =
      a.selector ∷ a.value ∷ a.url ∷ a.key ∷ a.secure ∷ a.force ∷ a.timeout ∷ a.interval ∷ a.x ∷ a.y
      ∷ a.paths ∷ []

  abbrev browser_visibility : BrowserVisibility E → List (Expression E)
  browser_visibility v = v.selector ∷ v.timeout ∷ v.interval ∷ []

  abbrev browser_value : BrowserValueExpectation E → List (Expression E)
  browser_value v = v.selector ∷ v.expected ∷ v.timeout ∷ v.interval ∷ []

  abbrev browser_state : BrowserStateExpectation E → List (Expression E)
  browser_state v = v.selector ∷ v.timeout ∷ v.interval ∷ []

  abbrev browser_expect : BrowserExpect E → List (Expression E)
  browser_expect e =
      flat_map browser_visibility e.visible
      ++ (flat_map browser_visibility e.not_visible
          ++ (flat_map browser_value e.text
              ++ (flat_map browser_value e.value
                  ++ (flat_map browser_state e.enabled
                      ++ (flat_map browser_state e.disabled
                          ++ (flat_map
                                (λ v.
                                  v.selector ∷ v.name ∷ v.expected ∷ v.timeout ∷ v.interval ∷ [])
                                e.attribute
                              ++ (flat_map (λ v. v.expected ∷ v.timeout ∷ v.interval ∷ []) e.url
                                  ++ (flat_map (λ v. v.expected ∷ v.timeout ∷ v.interval ∷ [])
                                        e.title
                                      ++ map (λ v. v.expected) e.web_perf))))))))

  abbrev browser_expressions : BrowserStep E → List (Expression E)
  browser_expressions b = b.target ∷ (flat_map browser_action b.actions ++ browser_expect b.expect)

  -- The expressions that are not handed on.
  abbrev pub missed_expressions : Step E → List (Expression E)
  missed_expressions step =
      within multipart_expressions step.request
      ++ (within (λ e. map (λ s. s.expected) e.shortcuts) step.expect
          ++ (within (λ m. map (λ a. a.first) m.actions) step.mobile
              ++ (within mail_expressions step.mail
                  ++ (within browser_expressions step.browser
                      ++ within load_expressions step.load))))
