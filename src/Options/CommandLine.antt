-- ===== src/Options/CommandLine.antt =====
-- What the options hold after the command line has been read.
use mathlib.Core.List.{append_assoc, append-nil}
use optrace.Prelude.{
  ◌⊎◌, ℕ, ◌≡◌, ◌≢◌, refl, ap, sym, ◌∙◌, Bool, true, false, List, [], ◌∷◌, ◌++◌, Text, All, ◌==◌,
  if◌then◌else◌, arith, inl, inr,
}
use optrace.Prelude.Int.{ℤ}
use optrace.Prelude.Maps.{member}
use optrace.Options.{
  Options, Step, proceed, leave, get_defaults, option_step, check_output, read_options, main,
  sigint,
}

-- What `getopt_long` may return: 0 for `--help`, `?`, and the letters of the two tables of options,
-- F J w h o a c r j C D e s S i I.
abbrev pub declared : List ℕ
declared =
    0 ∷ 63 ∷ 70 ∷ 74 ∷ 119 ∷ 104 ∷ 111 ∷ 97 ∷ 99 ∷ 114 ∷ 106 ∷ 67 ∷ 68 ∷ 101 ∷ 115 ∷ 83 ∷ 105 ∷ 73
    ∷ []

abbrev pub AllDeclared : List (ℕ × Text) → Type 0
AllDeclared args = All (λ p. member p.0 declared ≡ true) args

-- The arguments of `-s`, as numbers, in their order.
abbrev pub signals_of : (Text → ℤ) → List (ℕ × Text) → List ℤ
signals_of atoi [] = []
signals_of atoi ((c, arg) ∷ rest) =
    if c == 115 then atoi arg ∷ signals_of atoi rest else signals_of atoi rest

proceed_inj : {o o' : Options} → proceed o ≡ proceed o' → o ≡ o'
proceed_inj {o} e = ap (λ s. elim s [ proceed p ↦ p | leave n ↦ o ]) e

Step-cases : (s : Step) → ((n : ℕ) × (s ≡ leave n)) ⊎ ((o : Options) × (s ≡ proceed o))
Step-cases (proceed o) = inr (o, refl)
Step-cases (leave n) = inl (n, refl)

true≢false : true ≢ false
true≢false h = cc

leave≢proceed : {n : ℕ} {o : Options} → leave n ≢ proceed o
leave≢proceed e = true≢false (ap (λ s. elim s [ proceed p ↦ false | leave n ↦ true ]) e)

checked :
    (has_program : Bool) (can_write : Text → Bool → Bool) (o o' : Options)
    → check_output has_program can_write o ≡ proceed o'
    → o ≡ o'
unfolding check_output
checked false can_write o o' e = absurd (leave≢proceed e)
checked true can_write o o' e = by_name (can_write o.output o.append_output) o.output e
  where
    by_name :
        (b : Bool) (name : Text)
        → (elim name as (λ _. Step) [ [] ↦ proceed o | c ∷ cs ↦ if b then proceed o else leave 1 ])
          ≡ proceed o'
        → o ≡ o'
    by_name b [] e = proceed_inj e
    by_name true (c ∷ cs) e = proceed_inj e
    by_name false (c ∷ cs) e = absurd (leave≢proceed e)

module _ (atoi : Text → ℤ) where
  wait_daemons-option_step :
      (c : ℕ) (arg : Text) (o o' : Options)
      → member c declared ≡ true
      → option_step atoi c arg o ≡ proceed o'
      → o'.wait_daemons ≡ o.wait_daemons
  unfolding option_step
  wait_daemons-option_step c arg o o' d e = ground arith

  forwarding_signals-option_step :
      (c : ℕ) (arg : Text) (o o' : Options)
      → option_step atoi c arg o ≡ proceed o'
      → o'.forwarding_signals
        ≡ (if c == 115 then o.forwarding_signals ++ atoi arg ∷ [] else o.forwarding_signals)
  unfolding option_step
  forwarding_signals-option_step c arg o o' e = ground arith

  -- Both through the loop.
  record Read (args : List (ℕ × Text)) (o o' : Options) : Type 0 where
    wait_daemons : o'.wait_daemons ≡ o.wait_daemons
    forwarding_signals : o'.forwarding_signals ≡ o.forwarding_signals ++ signals_of atoi args

  Read-cons :
      (c : ℕ) (arg : Text) (rest : List (ℕ × Text)) (o next o' : Options)
      → member c declared ≡ true
      → option_step atoi c arg o ≡ proceed next
      → Read rest next o'
      → Read ((c, arg) ∷ rest) o o'
  Read-cons c arg rest o next o' d e r = record {
    wait_daemons = r.wait_daemons ∙ wait_daemons-option_step c arg o next d e;
    forwarding_signals =
        r.forwarding_signals
        ∙ ap (λ fs. fs ++ signals_of atoi rest) (forwarding_signals-option_step c arg o next e)
        ∙ joined (c == 115);
  }
    where
      joined :
          (b : Bool)
          → (if b then o.forwarding_signals ++ atoi arg ∷ [] else o.forwarding_signals)
              ++ signals_of atoi rest
            ≡ o.forwarding_signals
              ++ (if b then atoi arg ∷ signals_of atoi rest else signals_of atoi rest)
      joined true = append_assoc o.forwarding_signals (atoi arg ∷ []) (signals_of atoi rest)
      joined false = refl

  read_options-Read :
      (args : List (ℕ × Text)) (o o' : Options)
      → AllDeclared args
      → read_options atoi args o ≡ proceed o'
      → Read args o o'
  unfolding read_options
  read_options-Read [] o o' d e = record {
    wait_daemons = ap (λ (p : Options). p.wait_daemons) (sym (proceed_inj e));
    forwarding_signals =
        ap (λ (p : Options). p.forwarding_signals) (sym (proceed_inj e)) ∙ sym (append-nil _);
  }
  read_options-Read ((c, arg) ∷ rest) o o' d e = elim (Step-cases (option_step atoi c arg o)) [
    | inl (n, left) ↦ absurd (leave≢proceed (rw (left, read_options) at e))
    | inr (next, went) ↦
        Read-cons c arg rest o next o' d.0 went
          (read_options-Read rest next o' d.1 (rw (went, read_options) at e))
  ]

  read_by_main :
      (args : List (ℕ × Text)) (has_program : Bool) (can_write : Text → Bool → Bool) (o : Options)
      → main atoi args has_program can_write ≡ proceed o
      → read_options atoi args get_defaults ≡ proceed o
  unfolding main
  read_by_main args has_program can_write o e =
      elim (Step-cases (read_options atoi args get_defaults)) [
        | inl (n, left) ↦ absurd (leave≢proceed (rw (left, main) at e))
        | inr (next, went) ↦
            went ∙ ap proceed (checked has_program can_write next o (rw (went, main) at e))
      ]

  -- If `getopt_long` returns nothing but the declared letters, a run of `main` that gets as far as
  -- tracing has the option to wait for daemons off, whatever the command line says, and its list of
  -- signals to forward is SIGINT and then the signals of the options `-s`, in their order.
  pub main-forwarding_signals :
      (args : List (ℕ × Text)) (has_program : Bool) (can_write : Text → Bool → Bool) (o : Options)
      → AllDeclared args
      → main atoi args has_program can_write ≡ proceed o
      → (o.wait_daemons ≡ false) × (o.forwarding_signals ≡ sigint ∷ signals_of atoi args)
  unfolding get_defaults
  main-forwarding_signals args has_program can_write o d e =
      let r =
        read_options-Read args get_defaults o d (read_by_main args has_program can_write o e) in
      (r.wait_daemons, r.forwarding_signals)
