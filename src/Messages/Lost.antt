-- ===== src/Messages/Lost.antt =====
-- process.message.manager/index.js: jobs that leave the queue by an index that is out of date.
use bfx_reports_framework.Base.{some, []}
use bfx_reports_framework.Base.Actions.{ok}
use bfx_reports_framework.Messages.{Waiting, add_state_to_wait, on_message}
use bfx_reports_framework.Messages.Later.{CheckHandler, Later}

module _ {X : Type 0} where
  abbrev pub nobody : Waiting X
  nobody = record { jobs = []; queue = [] }

  -- A message with data, to a state without a handler of its own
  abbrev answer : X → Waiting X → Waiting X
  answer data_value w = (on_message (λ e. ok tt) (some data_value) w).0

  -- Two requests wait, the first is answered, a third comes, and then the second and the third are
  -- answered, as far as there are answers.
  abbrev first_answered : CheckHandler X → CheckHandler X → X → Waiting X
  first_answered c1 c2 d1 =
      answer d1 (add_state_to_wait (some c2) (add_state_to_wait (some c1) nobody))

  abbrev pub all_answered : CheckHandler X → CheckHandler X → CheckHandler X → X → X → X → Waiting X
  all_answered c1 c2 c3 d1 d2 d3 =
      answer d3 (answer d2 (add_state_to_wait (some c3) (first_answered c1 c2 d1)))
