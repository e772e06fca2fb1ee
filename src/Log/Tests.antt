-- ===== src/Log/Tests.antt =====
-- The theorems about src/log at concrete inputs.
use the_pipe.Base.{ℕ, ◌≡◌, List, [], ◌∷◌}
use the_pipe.Base.Int.{pos}
use the_pipe.Log.{info, warning, Item, Configuration, LogState}
use the_pipe.Log.Nesting.{Script, done, say, within, run, scoped, run-scoped}

-- A world that is the list of the items written, the last in front.
abbrev recorder : ℕ → Configuration (List Item)
recorder time = record { write = λ item w. item ∷ w; now = λ w. (pos time, w) }

abbrev outer_state : LogState (List Item)
outer_state = record { log_cfg = recorder 1; world = [] }

abbrev script : Script (List Item)
script = within (recorder 2) (say info "inner" done) (say warning "outer" done)

run-scoped_example : run script outer_state ≡ record {
  log_cfg = recorder 1;
  world =
      record { when = pos 1; severity = warning; message = "outer" }
      ∷ record { when = pos 2; severity = info; message = "inner" }
      ∷ [];
}
unfolding scoped
run-scoped_example = run-scoped script outer_state
