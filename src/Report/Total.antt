-- ===== src/Report/Total.antt =====
-- When the text of `PrintReport` is defined.
use mathlib.Core.List.{Mem, Perm}
use mathlib.Core.List.Perm
use optrace.Prelude.{
  ℕ, ◌≡◌, refl, ap, ◌∙◌, true, false, Option, none, some, List, [], ◌∷◌, ◌++◌, map, Text, text, All,
  if◌then◌else◌, Bool-cases, inl, inr, ◌⊎◌,
}
use optrace.Prelude.Perms.{All-of_mem}
use optrace.Options.{Options}
use optrace.Types.{ProcInfoPtr, OutputFile}
use optrace.Storage.{Storage}
use optrace.Storage.Queue.{PriorityQueue}
use optrace.Storage.Drain.{Descending, get_largest_files-Descending}
use optrace.Sizes.{Libc, human_readable_size}
use optrace.Utils.{decimal}
use optrace.Report.{
  ◌<<◌, setw, size_column, file_line, file_lines, padding, total_line, dereference, report_of,
  print_report, report_header, legend, proc_info_set,
}

dereference-map : (fs : List OutputFile) → dereference (map some fs) ≡ some fs
unfolding dereference
dereference-map [] = refl
dereference-map (f ∷ fs) = rw (dereference-map fs) refl

-- A piece that is defined.
abbrev pub Printed : Option Text → Type 0
Printed o = (t : Text) × (o ≡ some t)

Printed-both : (o p : Option Text) → Printed o → Printed p → Printed (o << p)
Printed-both o p (t, e) (u, f) = (t ++ u, rw (e, f) refl)

module _ (c : Libc) (opts : Options) where
  -- A size can be printed: with `-h` its text is defined.
  abbrev pub CanPrint : ℕ → Type 0
  CanPrint n = opts.human_readable_sizes ≡ true → Printed (human_readable_size c n)

  size_column-Printed : (width n : ℕ) → CanPrint n → Printed (size_column c opts width n)
  unfolding size_column
  size_column-Printed width n can = elim (Bool-cases opts.human_readable_sizes) [
    | inl human ↦ let (t, e) = can human in (setw width t, rw (human, e) refl)
    | inr bytes ↦ (setw width (decimal n) ++ text "b", rw bytes refl)
  ]

  file_lines-Printed :
      (width : ℕ) (fs : List OutputFile)
      → All (λ f. CanPrint f.size) fs
      → Printed (file_lines c opts width fs)
  unfolding file_lines file_line
  file_lines-Printed width [] h = ([], refl)
  file_lines-Printed width (f ∷ fs) h =
      Printed-both _ _ (Printed-both _ _ (size_column-Printed width f.size h.0) (_, refl))
        (file_lines-Printed width fs h.1)

  total_line-Printed : (n : ℕ) → CanPrint n → Printed (total_line c opts n)
  unfolding total_line
  total_line-Printed n can =
      Printed-both (some (text "Total output: ")) _ (_, refl)
        (Printed-both _ _ (size (Bool-cases opts.human_readable_sizes)) (_, refl))
    where
      size :
          ((opts.human_readable_sizes ≡ true) ⊎ (opts.human_readable_sizes ≡ false))
          → Printed (
              if opts.human_readable_sizes
              then human_readable_size c n
              else some (decimal n ++ text "b"))
      size (inl human) = rw human (can human)
      size (inr bytes) = rw bytes (_, refl)

  module _ (iteration : List ProcInfoPtr → List ProcInfoPtr) (pq : PriorityQueue)
      (s : Storage pq) where
    -- `PrintReport` prints: the pointers of `GetLargestFiles` are not null, and it is the report of the
    -- files that the storage keeps, each once and the largest first. This is if, with `-h`, the text of
    -- each of their sizes and of the total is defined.
    pub print_report-Printed :
        ((f : OutputFile) → Mem f (pq.items s.queue) → CanPrint f.size)
        → CanPrint s.output_size
        → (fs : List OutputFile) × (t : Text) × Perm fs (pq.items s.queue)
          × Descending fs
          × (print_report c iteration opts pq s ≡ some t)
          × (report_of c iteration opts fs s.output_size ≡ some t)
    unfolding print_report report_of
    print_report-Printed files_fit total_fits =
        let (fs, run, kept, descending) = get_largest_files-Descending pq s in
        let fit : All (λ f. CanPrint f.size) fs =
          All-of_mem fs (λ f m. files_fit f ((Perm.mem_iff kept).0 m)) in
        let (t, e) =
          Printed-both (some (report_header opts fs)) _ (_, refl)
            (Printed-both _ _ (file_lines-Printed (padding c opts fs) fs fit) (
              Printed-both (some (legend opts (iteration (proc_info_set fs [])))) _ (_, refl)
                (total_line-Printed s.output_size total_fits))) in
        (fs, t, kept, descending, ap (printed_of) run ∙ rw (dereference-map fs) e, e)
      where
        printed_of : List (Option OutputFile) → Option Text
        printed_of files = elim (dereference files) [
          | none ↦ none
          | some gs ↦ report_of c iteration opts gs s.output_size
        ]
