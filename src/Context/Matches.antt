-- ===== src/Context/Matches.antt =====
-- What the copying loop of `RegisterExec` and `RegisterProcess` copies.
use optrace.Prelude.{
  ℕ, zero, suc, ◌<◌, ◌≤◌, ◌≡◌, refl, ap, ◌∙◌, inl, inr, Bool, true, false, Option, none, some, List,
  [], ◌∷◌, ◌++◌, length, get_elem?, arith, Bool-cases, length-append, get_elem?-append_left,
  get_elem?-append_length, get_elem?-lt,
}
use native.Mathlib.Nat.{le_refl}
use optrace.Host.{Host}
use optrace.FileState.{FileState, copy_file_state}
use optrace.Context.{Context, Outcome, done, and_then, pure}
use optrace.Context.Objects.{slot, allocate_file}
use optrace.Context.Lifecycle.{copy_slots}
use optrace.Context.Vanish.{lookup_file}
use optrace.Context.Steps.{and_then-done}
use optrace.Context.Copies.{AreValid}

module _ (h : Host) (keeps : FileState → Bool) where
  -- The new pointers against the old ones: a file that is kept has a copy of its own, with the length
  -- that it has now; every other pointer is empty; and the old files stay.
  pub record Matches (c : Context) (old : List (Option ℕ)) (o : Outcome (List (Option ℕ)))
      : Type 0 where
    pub fds : List (Option ℕ)
    pub files : List FileState
    pub run : o ≡ done fds (record c { files = files })
    pub stay : (r : ℕ) (s : FileState) → get_elem? c.files r ≡ some s → get_elem? files r ≡ some s
    pub closed : (j : ℕ) → slot old j ≡ none → slot fds j ≡ none
    pub dropped :
        (j r : ℕ) (s : FileState)
        → slot old j ≡ some r
        → get_elem? c.files r ≡ some s
        → keeps s ≡ false
        → slot fds j ≡ none
    pub copied :
        (j r : ℕ) (s : FileState)
        → slot old j ≡ some r
        → get_elem? c.files r ≡ some s
        → keeps s ≡ true
        → (q : ℕ) × (slot fds j ≡ some q)
          × (get_elem? files q ≡ some (copy_file_state (h.stat s.filename) s))
    pub above : (j q : ℕ) → slot fds j ≡ some q → length c.files ≤ q
    pub own : (i j q : ℕ) → slot fds i ≡ some q → slot fds j ≡ some q → i ≡ j

  -- The first pointer.
  record Head (c : Context) (files : List FileState) (o p : Option ℕ) : Type 0 where
    stay : (r : ℕ) (s : FileState) → get_elem? c.files r ≡ some s → get_elem? files r ≡ some s
    grown : length c.files ≤ length files
    closed : o ≡ none → p ≡ none
    dropped :
        (r : ℕ) (s : FileState)
        → o ≡ some r
        → get_elem? c.files r ≡ some s
        → keeps s ≡ false
        → p ≡ none
    copied :
        (r : ℕ) (s : FileState)
        → o ≡ some r
        → get_elem? c.files r ≡ some s
        → keeps s ≡ true
        → (q : ℕ) × (p ≡ some q)
          × (get_elem? files q ≡ some (copy_file_state (h.stat s.filename) s))
    between : (q : ℕ) → p ≡ some q → (length c.files ≤ q) × (q < length files)

  Matches-cons :
      (o p : Option ℕ) (old : List (Option ℕ)) (c : Context) (files : List FileState)
      (out : Outcome (List (Option ℕ)))
      → Head c files o p
      → Matches (record c { files = files }) old out
      → Matches c (o ∷ old) (and_then out (λ rest. pure (p ∷ rest)))
  Matches-cons o p old c files out a k = record {
    fds = p ∷ k.fds;
    files = k.files;
    run = and_then-done out _ k.run;
    stay = λ r s e. k.stay r s (a.stay r s e);
    closed = closed;
    dropped = dropped;
    copied = copied;
    above = above;
    own = own;
  }
    where
      closed : (j : ℕ) → slot (o ∷ old) j ≡ none → slot (p ∷ k.fds) j ≡ none
      closed zero e = a.closed e
      closed (suc j) e = k.closed j e

      dropped :
          (j r : ℕ) (s : FileState)
          → slot (o ∷ old) j ≡ some r
          → get_elem? c.files r ≡ some s
          → keeps s ≡ false
          → slot (p ∷ k.fds) j ≡ none
      dropped zero r s e at drops = a.dropped r s e at drops
      dropped (suc j) r s e at drops = k.dropped j r s e (a.stay r s at) drops

      copied :
          (j r : ℕ) (s : FileState)
          → slot (o ∷ old) j ≡ some r
          → get_elem? c.files r ≡ some s
          → keeps s ≡ true
          → (q : ℕ) × (slot (p ∷ k.fds) j ≡ some q)
            × (get_elem? k.files q ≡ some (copy_file_state (h.stat s.filename) s))
      copied zero r s e at keep =
          let (q, here, file) = a.copied r s e at keep in (q, here, k.stay q _ file)
      copied (suc j) r s e at keep = k.copied j r s e (a.stay r s at) keep

      above : (j q : ℕ) → slot (p ∷ k.fds) j ≡ some q → length c.files ≤ q
      above zero q e = (a.between q e).0
      above (suc j) q e = omega (arith, k.above j q e, a.grown)

      own : (i j q : ℕ) → slot (p ∷ k.fds) i ≡ some q → slot (p ∷ k.fds) j ≡ some q → i ≡ j
      own zero zero q e f = refl
      own zero (suc j) q e f = absurd (omega (arith, (a.between q e).1, k.above j q f))
      own (suc i) zero q e f = absurd (omega (arith, (a.between q f).1, k.above i q e))
      own (suc i) (suc j) q e f = ap suc (k.own i j q e f)

  same_files : (c : Context) → Head c c.files none none
  same_files c = record {
    stay = λ r s e. e;
    grown = le_refl _;
    closed = λ e. refl;
    dropped = λ r s e at drops. refl;
    copied = λ r s e at keep. absurd (ground arith);
    between = λ q e. absurd (ground arith);
  }

  -- An open slot whose file is not kept.
  emptied :
      (c : Context) (r : ℕ) (s : FileState)
      → get_elem? c.files r ≡ some s
      → keeps s ≡ false
      → Head c c.files (some r) none
  emptied c r s at drops = record {
    stay = λ r s e. e;
    grown = le_refl _;
    closed = λ e. refl;
    dropped = λ r s e at drops. refl;
    copied = λ r' s' e at' keep. absurd (ground (arith, at, at', e, keep, drops));
    between = λ q e. absurd (ground arith);
  }

  -- An open slot whose file gets a copy.
  duplicated :
      (c : Context) (r : ℕ) (s : FileState)
      → get_elem? c.files r ≡ some s
      → keeps s ≡ true
      → Head c
          (c.files ++ copy_file_state (h.stat s.filename) s ∷ [])
          (some r)
          (some (length c.files))
  duplicated c r s at keep = record {
    stay = λ r s e. get_elem?-append_left c.files _ r (get_elem?-lt c.files r s e) ∙ e;
    grown = omega (arith, length-append c.files (copy_file_state (h.stat s.filename) s ∷ []));
    closed = λ e. absurd (ground arith);
    dropped = λ r' s' e at' drops. absurd (ground (arith, at, at', e, keep, drops));
    copied = λ r' s' e at' keep'. (
      length c.files,
      refl,
      get_elem?-append_length c.files (copy_file_state (h.stat s.filename) s)
          ∙ ap (λ t. some (copy_file_state (h.stat t.filename) t)) (ground (arith, at, at', e)),
    );
    between = λ q e.
        ground (arith, e, length-append c.files (copy_file_state (h.stat s.filename) s ∷ []));
  }

  -- The loop that copies the descriptors, on pointers that lead to files, returns: every open slot whose file
  -- is kept gets a new file state of its own, a copy of the old with the length that the file has now,
  -- even where two slots shared one; all other slots are empty; and the old files stay.
  pub copy_slots-Matches :
      (fds : List (Option ℕ)) (c : Context)
      → AreValid fds c.files
      → Matches c fds (copy_slots h keeps fds c)
  unfolding copy_slots allocate_file
  copy_slots-Matches [] c v = record {
    fds = [];
    files = c.files;
    run = refl;
    stay = λ r s e. e;
    closed = λ j e. refl;
    dropped = λ j r s e at drops. refl;
    copied = λ j r s e at keep. absurd (ground arith);
    above = λ j q e. absurd (ground arith);
    own = λ i j q e f. absurd (ground arith);
  }
  copy_slots-Matches (none ∷ fds) c v =
      Matches-cons none none fds c c.files (copy_slots h keeps fds c) (same_files c)
        (copy_slots-Matches fds c (λ j q e. v (suc j) q e))
  copy_slots-Matches (some r ∷ fds) c v =
      let (s, at) = lookup_file c.files r (v zero r refl) in
      elim (Bool-cases (keeps s)) [
        | inr drops ↦
            rw (at, drops)
              (Matches-cons (some r) none fds c c.files (copy_slots h keeps fds c)
                (emptied c r s at drops) (copy_slots-Matches fds c (λ j q e. v (suc j) q e)))
        | inl keep ↦
            rw (at, keep)
              (let copy = copy_file_state (h.stat s.filename) s in
                let d : Context = record c { files = c.files ++ copy ∷ [] } in
                Matches-cons (some r) (some (length c.files)) fds c d.files
                  (copy_slots h keeps fds d) (duplicated c r s at keep)
                  (copy_slots-Matches fds d
                    (λ j q e. omega (arith, length-append c.files (copy ∷ []), v (suc j) q e))))
      ]
