-- ===== src/Context/Live.antt =====
-- What the operations on descriptors need and keep, and how a call may end.
use optrace.Prelude.{
  ℕ, ◌<◌, ◌≡◌, sym, ap, subst, ◌∙◌, ◌⊎◌, inl, inr, true, false, Option, some, List, [], ◌∷◌, ◌++◌,
  length, ◌==◌, arith, Bool-cases, eq_of_==, length-append,
}
use optrace.Prelude.Int.{is_zero}
use optrace.Prelude.Maps.{find, member}
use optrace.FileState.{FileState}
use optrace.Context.{Context, Cmd, Outcome, done, aborted, exited, undefined, and_then}
use optrace.Context.Objects.{
  fds_of, slot, update_fds, modify_at, modify_fds, modify_file, is_mapped,
}
use optrace.Context.Vanish.{HasFiles, Closed}
use optrace.Context.WellFormed.{IsEmpty, HasLeader, IsWellFormed, is_mapped_of_find}
use optrace.Context.PostProcess.{Closed-IsWellFormed}
use optrace.Context.Slots.{length-modify_at, fds_of-modify_other, fds_of-modify_self}

-- The thread `pid` is known, its data is at `a`, and the leader of its group is known too.
pub record IsLive (pid a : ℕ) (c : Context) : Type 0 where
  pub well_formed : IsWellFormed c
  pub known : find pid c.proc_map ≡ some a
  pub leader : HasLeader a c
  pub counted : is_zero c.file_storage.capacity ≡ false

-- A call returns with what `Q` says, or ends the tracer with a status for which `E` says why; it does
-- not abort, and it does not leave what the language defines.
abbrev pub Ends {ℓ} : {A : Type ℓ} → (ℕ → Type 0) → (A → Context → Type 0) → Outcome A → Type 0
Ends E Q (done x c) = Q x c
Ends E Q aborted = ⊥
Ends E Q (exited n) = E n
Ends E Q undefined = ⊥

pub Ends-and_then {ℓ κ} :
    {A : Type ℓ} {B : Type κ} (E : ℕ → Type 0) (P : A → Context → Type 0) (Q : B → Context → Type 0)
    (o : Outcome A) (k : A → Cmd B)
    → Ends E P o
    → ((x : A) (c : Context) → P x c → Ends E Q (k x c))
    → Ends E Q (and_then o k)
Ends-and_then E P Q (done x c) k h next = next x c h
Ends-and_then E P Q aborted k h next = elim h [ ]
Ends-and_then E P Q (exited n) k h next = h
Ends-and_then E P Q undefined k h next = elim h [ ]

module _ (pid a : ℕ) (c : Context) (live : IsLive pid a c) where
  pub is_mapped-IsLive : is_mapped a c.proc_map ≡ true
  is_mapped-IsLive = is_mapped_of_find pid a c.proc_map live.known

  pub modify_file-IsLive : (r : ℕ) (f : FileState → FileState) → IsLive pid a (modify_file r f c)
  unfolding modify_file
  modify_file-IsLive r f = record {
    well_formed = record {
      files =
          λ b fd q e. omega (arith, live.well_formed.files b fd q e, length-modify_at c.files r f);
      procs = live.well_formed.procs;
      led = live.well_formed.led;
      leaders = live.well_formed.leaders;
    };
    known = live.known;
    leader = live.leader;
    counted = live.counted;
  }

  pub add_file-IsLive : (s : FileState) → IsLive pid a (record c { files = c.files ++ s ∷ [] })
  add_file-IsLive s = record {
    well_formed = record {
      files = λ b fd q e.
          omega (arith, live.well_formed.files b fd q e, length-append c.files (s ∷ []));
      procs = live.well_formed.procs;
      led = live.well_formed.led;
      leaders = live.well_formed.leaders;
    };
    known = live.known;
    leader = live.leader;
    counted = live.counted;
  }

  pub Closed-IsLive : (lo hi : ℕ) (c' : Context) → Closed a lo hi c c' → IsLive pid a c'
  Closed-IsLive lo hi c' k = record {
    well_formed = Closed-IsWellFormed a lo hi c c' k live.well_formed;
    known = ap (find pid) k.maps.proc_map ∙ live.known;
    leader =
        let (l, leads, e) = live.leader in
        (l, ap (member l) k.maps.group_leaders ∙ leads, ap (find l) k.maps.proc_map ∙ e);
    counted = ap is_zero k.maps.capacity ∙ live.counted;
  }

  -- An assignment to the vector whose pointers lead to files.
  module _ (f : List (Option ℕ) → List (Option ℕ))
      (valid : (j q : ℕ) → slot (f (fds_of a c.procs)) j ≡ some q → q < length c.files) where
    pub fds_of-assigned : fds_of a (modify_fds a f c).procs ≡ f (fds_of a c.procs)
    unfolding modify_fds
    fds_of-assigned = fds_of-modify_self c.procs a f (live.well_formed.procs a is_mapped-IsLive)

    HasFiles-assigned : HasFiles (modify_fds a f c)
    unfolding modify_fds
    HasFiles-assigned b j q e = elim (Bool-cases (a == b)) [
      | inl same ↦ valid j q (
          sym (ap (λ fds. slot fds j) fds_of-assigned)
          ∙ ap (λ n. slot (fds_of n (modify_at c.procs a (update_fds f))) j) (eq_of_== a b same)
          ∙ e)
      | inr other ↦
          live.well_formed.files b j q
            (sym (ap (λ fds. slot fds j) (fds_of-modify_other c.procs a b f other)) ∙ e)
    ]

    assigned-led :
        (b : ℕ)
        → is_mapped b c.proc_map ≡ true
        → HasLeader b (modify_fds a f c) ⊎ IsEmpty b (modify_fds a f c)
    unfolding modify_fds
    assigned-led b m = elim (Bool-cases (a == b)) [
      | inl same ↦ inl (subst (λ n. HasLeader n c) (eq_of_== a b same) live.leader)
      | inr other ↦ elim (live.well_formed.led b m) [
        | inl l ↦ inl l
        | inr empty ↦
            inr (λ j. ap (λ fds. slot fds j) (fds_of-modify_other c.procs a b f other) ∙ empty j)
      ]
    ]

    pub assigned-IsLive : IsLive pid a (modify_fds a f c)
    unfolding modify_fds
    assigned-IsLive = record {
      well_formed = record {
        files = HasFiles-assigned;
        procs = λ b m.
            omega (arith, live.well_formed.procs b m, length-modify_at c.procs a (update_fds f));
        led = assigned-led;
        leaders = live.well_formed.leaders;
      };
      known = live.known;
      leader = live.leader;
      counted = live.counted;
    }
