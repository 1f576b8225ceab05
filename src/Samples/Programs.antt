-- ===== src/Samples/Programs.antt =====
-- A whole run of `TraceProgram`.
use optrace.Prelude.{refl, sym, ◌∙◌, true, some, [], ◌∷◌, text}
use optrace.Prelude.Int.{pos}
use optrace.Tracer.{interrupted, changed, stopped, returned}
use optrace.Tracer.Program.{config_of}
use optrace.Tracer.Whole.{Machine, in_parent, trace_program}
use optrace.Tracer.Endings.{EndsWell, trace_program-EndsWell}
use optrace.Samples.Files.{host, options, printer}
use optrace.Samples.Runs.{started_run, host_fds, started}
use optrace.Samples.Starts.{child}
use optrace.Samples.Tracers.{rounds, promised, same_done}

-- `strverscmp` finds every release new enough.
abbrev machine : Machine
machine = record {
  release = some (text "5.15.0");
  strverscmp = λ s t. pos 1;
  signals_blocked = true;
  mask_restored = true;
  fork = in_parent 7;
  child = child;
  child_waits = interrupted ∷ changed 7 (stopped 5 0) ∷ [];
  options_set = true;
  handled = λ sig. true;
  start = host;
  reply = λ req. returned (pos 0);
  rounds = rounds;
  printer = printer;
}

trace_program-EndsWell_example :
    EndsWell machine true options
      (some (pos 3))
      (trace_program machine (some (text "ls" ∷ [])) options)
unfolding config_of
trace_program-EndsWell_example =
    trace_program-EndsWell machine (text "5.15.0") refl 7 (some (text "ls" ∷ [])) options refl
      host_fds refl (λ c run. promised c (same_done started c (sym started_run ∙ run))) refl
