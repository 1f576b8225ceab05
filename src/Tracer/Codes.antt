-- ===== src/Tracer/Codes.antt =====
-- The result of `RunTracer`.
use optrace.Prelude.{
  ℕ, ◌≡◌, refl, ◌⊎◌, inl, inr, Bool, true, false, not, ◌&&◌, ◌||◌, Option, none, some, List, [],
  ◌∷◌, if◌then◌else◌, arith,
}
use optrace.Prelude.Int.{ℤ, pos, negsuc}
use optrace.Tracer.{Round, Config, Tracer, Verdict, goes_on, returns, aborts, exits, breaks}
use optrace.Tracer.Rounds.{on_wait, step, continue_run, run_rounds}
use optrace.Tracer.Leads.{Leads}
use optrace.Tracer.Exits.{
  tracee_exit, none_left, or_else, or_none, or_else_assoc, exit_value, waits, Noted, Given,
  on_wait-Leads,
}

-- The first exit of the tracee, as long as some child is left; and whether none is left in the end.
abbrev pub first_exit : ℕ → List Round → Option ℕ
first_exit tracee [] = none
first_exit tracee (r ∷ rs) =
    if none_left r.wait then none else or_else (tracee_exit tracee r.wait) (first_exit tracee rs)

abbrev pub all_gone : List Round → Bool
all_gone [] = false
all_gone (r ∷ rs) = none_left r.wait || all_gone rs

abbrev pub is_some : Option ℕ → Bool
is_some none = false
is_some (some n) = true

-- What `RunTracer` is to return: with `--wait-daemons`, once no child is left, the exit code of the
-- tracee, and otherwise as soon as the tracee ends; 137 if no child is left and it has not been seen
-- to end.
abbrev pub result_of : (waits_too gone : Bool) → Option ℕ → Option ℤ
result_of waits_too gone code =
    if gone || (is_some code && not waits_too) then some (exit_value code) else none

-- The verdict of the loop is that of the description.
abbrev pub Answers : Option ℤ → Verdict → Type 0
Answers expected v = Leads (λ s. expected ≡ none) (λ rc. (rc ≡ negsuc 1) ⊎ (expected ≡ some rc)) v

continue_run-Leads :
    (P Q : Tracer → Type 0) (R S : ℤ → Type 0) (v : Verdict) (k : Tracer → Verdict)
    → Leads P R v
    → ((s : Tracer) → P s → Leads Q S (k s))
    → ((rc : ℤ) → R rc → S rc)
    → Leads Q S (continue_run v k)
continue_run-Leads P Q R S (goes_on s) k h next last = next s h
continue_run-Leads P Q R S (returns rc s) k h next last = last rc h
continue_run-Leads P Q R S aborts k h next last = tt
continue_run-Leads P Q R S (exits n) k h next last = tt
continue_run-Leads P Q R S breaks k h next last = tt

module _ (cfg : Config) where
  abbrev Known : Option ℕ → Type 0
  Known code = (waits cfg ≡ true) ⊎ (code ≡ none)

  nothing_yet :
      (code : Option ℕ) → Known code → result_of (waits cfg) false (or_else code none) ≡ none
  nothing_yet code known = on_code code known
    where
      on_code : (o : Option ℕ) → Known o → result_of (waits cfg) false (or_else o none) ≡ none
      on_code none k = refl
      on_code (some n) (inl k) = rw k refl
      on_code (some n) (inr k) = absurd (ground arith)

  still-Known : (code exit : Option ℕ) → Known code → Known exit → Known (or_else code exit)
  still-Known code exit (inl k) m = inl k
  still-Known code exit (inr k) (inl m) = inl m
  still-Known code exit (inr k) (inr m) = inr (rw (k, m) refl)

  answered :
      (r : Round) (rs : List Round) (code : Option ℕ) (rc : ℤ)
      → Known code
      → Given cfg r.wait code rc
      → (rc ≡ negsuc 1)
        ⊎ (result_of
              (waits cfg)
              (all_gone (r ∷ rs))
              (or_else code (first_exit cfg.tracee_pid (r ∷ rs)))
            ≡ some rc)
  answered r rs code rc known (inl minus_2) = inl minus_2
  answered r rs code rc known (inr (inl (gone, e))) = inr (rw (gone, or_none code, e) refl)
  answered r rs code rc (inl w) (inr (inr (left, k, q))) = absurd (ground arith)
  answered r rs code rc (inr unknown) (inr (inr (left, k, (n, exit, e)))) =
      inr (rw (left, unknown, exit, k, e) (on_gone (all_gone rs)))
    where
      on_gone : (b : Bool) → (if b || true then some (pos n) else none) ≡ some (pos n)
      on_gone true = refl
      on_gone false = refl

  run_rounds-Answers_from :
      (rs : List Round) (s : Tracer) (code : Option ℕ)
      → s.tracee_exit_code ≡ code
      → Known code
      → Answers
          (result_of (waits cfg) (all_gone rs) (or_else code (first_exit cfg.tracee_pid rs)))
          (run_rounds cfg rs s)
  unfolding run_rounds step
  run_rounds-Answers_from [] s code h known = nothing_yet code known
  run_rounds-Answers_from (r ∷ rs) s code h known =
      let exit = tracee_exit cfg.tracee_pid r.wait in
      let first = first_exit cfg.tracee_pid (r ∷ rs) in
      let expected = result_of (waits cfg) (all_gone (r ∷ rs)) (or_else code first) in
      continue_run-Leads (Noted cfg r.wait code) (λ t. expected ≡ none) (Given cfg r.wait code)
        (λ rc. (rc ≡ negsuc 1) ⊎ (expected ≡ some rc)) (on_wait cfg r r.wait s) (run_rounds cfg rs)
        (on_wait-Leads cfg r code r.wait s h)
        (λ t (left, noted, k).
          rw (left, ← or_else_assoc code exit (first_exit cfg.tracee_pid rs))
            (run_rounds-Answers_from rs t (or_else code exit) noted
              (still-Known code exit known k)))
        (λ rc q. answered r rs code rc known q)

  -- The loop of `RunTracer`, from where the exit code of the tracee is not known, if it returns, returns
  -- -2 or what `result_of` describes: the first exit code of the tracee, 128 and the number of the
  -- signal if it was killed, or 137 if no child is left before, at once or, where forks are followed and
  -- daemons waited for, when no child is left; and if the rounds hold such a result, then the loop does
  -- not go on after them.
  pub run_rounds-Answers :
      (rs : List Round) (s : Tracer)
      → s.tracee_exit_code ≡ none
      → Answers
          (result_of (waits cfg) (all_gone rs) (first_exit cfg.tracee_pid rs))
          (run_rounds cfg rs s)
  run_rounds-Answers rs s h = run_rounds-Answers_from rs s none h (inr refl)
