-- ===== src/Context/Enrol.antt =====
-- A new process in the table: what `RegisterProcess` and `RegisterThread` keep.
use optrace.Prelude.{
  ℕ, zero, suc, ◌<◌, ◌≤◌, ◌≡◌, refl, ap, subst, ◌⊎◌, inl, inr, true, false, none, some, List, [],
  ◌∷◌, ◌++◌, length, ◌==◌, if◌then◌else◌, arith, Bool-cases, eq_of_==, length-append,
}
use optrace.Prelude.Maps.{find, insert, emplace, find-insert, member-emplace}
use optrace.FileState.{FileState}
use optrace.Types.{ProcState}
use optrace.Context.{Context}
use optrace.Context.Objects.{fds_of, slot, modify_at, is_mapped}
use optrace.Context.WellFormed.{IsEmpty, HasLeader, IsWellFormed}

pub fds_of-append :
    (procs : List ProcState) (p : ProcState) (b : ℕ)
    → fds_of b (procs ++ p ∷ []) ≡ (if b == length procs then p.fds else fds_of b procs)
fds_of-append [] p zero = refl
fds_of-append [] p (suc b) = ground arith
fds_of-append (q ∷ ps) p zero = ground arith
fds_of-append (q ∷ ps) p (suc b) = ground (arith, fds_of-append ps p b)

pub modify_last :
    (procs : List ProcState) (p : ProcState) (f : ProcState → ProcState)
    → modify_at (procs ++ p ∷ []) (length procs) f ≡ procs ++ f p ∷ []
modify_last [] p f = refl
modify_last (q ∷ ps) p f = ap (◌∷◌ q) (modify_last ps p f)

pub is_mapped-insert :
    (b k v : ℕ) (m : List (ℕ × ℕ))
    → is_mapped b (insert k v m) ≡ true
    → (v ≡ b) ⊎ (is_mapped b m ≡ true)
is_mapped-insert b k v [] h = inl (ground arith)
is_mapped-insert b k v ((j, w) ∷ m) h = elim (Bool-cases (j == k)) [
  | inl same ↦ elim (Bool-cases (v == b)) [
    | inl e ↦ inl (eq_of_== v b e)
    | inr n ↦ inr (ground arith)
  ]
  | inr other ↦ elim (Bool-cases (w == b)) [
    | inl e ↦ inr (ground arith)
    | inr n ↦ elim (is_mapped-insert b k v m (ground arith)) [
      | inl e ↦ inl e
      | inr t ↦ inr (ground arith)
    ]
  ]
]

-- A new process's data, to which nothing points yet.
module _ (c : Context) (wf : IsWellFormed c) (p : ProcState) (files : List FileState)
    (grown : length c.files ≤ length files)
    (valid : (j q : ℕ) → slot p.fds j ≡ some q → q < length files) where
  abbrev pub stored : Context
  stored = record c { procs = c.procs ++ p ∷ []; files = files }

  still-IsEmpty : (b : ℕ) → b < length c.procs → IsEmpty b c → IsEmpty b stored
  still-IsEmpty b below h j =
      let other : (b == length c.procs) ≡ false = ground arith in
      rw (fds_of-append c.procs p b, other) (h j)

  pub stored-IsWellFormed : IsWellFormed stored
  stored-IsWellFormed = record {
    files = λ b j q e. elim (Bool-cases (b == length c.procs)) [
      | inl new ↦ valid j q (rw (fds_of-append c.procs p b, new) at e)
      | inr old ↦ omega (arith, wf.files b j q (rw (fds_of-append c.procs p b, old) at e))
    ];
    procs = λ b m. omega (arith, length-append c.procs (p ∷ []), wf.procs b m);
    led = λ b m. elim (wf.led b m) [
      | inl leader ↦ inl leader
      | inr empty ↦ inr (still-IsEmpty b (wf.procs b m) empty)
    ];
    leaders = wf.leaders;
  }

-- The data at `n` gets an entry in the table, under a key that is not there, and a leader.
module _ (c : Context) (wf : IsWellFormed c) (child n : ℕ) (fresh : find child c.proc_map ≡ none)
    (below : n < length c.procs) where
  abbrev pub enrolled : Context
  enrolled = record c {
    group_leaders = emplace child c.group_leaders;
    proc_map = insert child n c.proc_map;
  }

  old_leader : (b : ℕ) → HasLeader b c → HasLeader b enrolled
  old_leader b h =
      let (l, leads, e) = h in
      (
        l,
        ground (arith, member-emplace child l c.group_leaders),
        ground (arith, find-insert child l n c.proc_map, not_child l b e),
      )
    where
      not_child : (l b : ℕ) → find l c.proc_map ≡ some b → (child == l) ≡ false
      not_child l b e = elim (Bool-cases (child == l)) [
        | inr m ↦ m
        | inl same ↦ absurd (ground (arith, ap (λ k. find k c.proc_map) (eq_of_== child l same)))
      ]

  pub enrolled-HasLeader : HasLeader n enrolled
  enrolled-HasLeader = (
    child,
    ground (arith, member-emplace child child c.group_leaders),
    ground (arith, find-insert child child n c.proc_map),
  )

  pub enrolled-IsWellFormed : IsWellFormed enrolled
  enrolled-IsWellFormed = record {
    files = wf.files;
    procs = λ b m. elim (is_mapped-insert b child n c.proc_map m) [
      | inl new ↦ subst (λ k. k < length c.procs) new below
      | inr old ↦ wf.procs b old
    ];
    led = λ b m. elim (is_mapped-insert b child n c.proc_map m) [
      | inl new ↦ inl (subst (λ k. HasLeader k enrolled) new enrolled-HasLeader)
      | inr old ↦ elim (wf.led b old) [
        | inl leader ↦ inl (old_leader b leader)
        | inr empty ↦ inr empty
      ]
    ];
    leaders = λ l m. ground (
      arith,
      member-emplace child l c.group_leaders,
      find-insert child l n c.proc_map,
      wf.leaders l,
    );
  }
