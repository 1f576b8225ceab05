-- ===== src/Report.antt =====
-- `PrintReport` of src/context.cpp: the text of the report.
pub mod Columns
pub mod Total
use optrace.Prelude.{
  ℕ, zero, suc, ◌+◌, ◌-◌, Bool, true, false, not, ◌&&◌, ◌||◌, Option, none, some, List, [], ◌∷◌,
  ◌++◌, Text, text, length, replicate, ltb, ◌==◌, if◌then◌else◌,
}
use optrace.Prelude.Int.{ℤ, pos, negsuc, is_zero, is_negative, pos_part}
use optrace.Utils.{decimal}
use optrace.Options.{Options}
use optrace.Types.{ProcInfoPtr, OutputFile}
use optrace.Storage.{Storage, get_largest_files}
use optrace.Storage.Queue.{PriorityQueue, list_queue}
use optrace.Context.{Context}
use optrace.Sizes.{Libc, human_readable_size}

-- Where the report goes.
pub data Destination : Type 0 where
  to_stderr : Destination
  to_file : (name : Text) (append : Bool) → Destination

-- `Options.Output`, if it can be opened; `opens` says whether it can.
unfoldable pub destination : (opens : Text → Bool → Bool) → Options → Destination
destination opens opts = elim opts.output as (λ _. Destination) [
  | [] ↦ to_stderr
  | c ∷ cs ↦
      if opens (c ∷ cs) opts.append_output then to_file (c ∷ cs) opts.append_output else to_stderr
]

-- `std::endl`.
abbrev pub endl : Text
endl = 0x0a ∷ []

-- `std::setw(width)` before a text.
unfoldable pub setw : ℕ → Text → Text
setw width t = replicate (width - length t) 0x20 ++ t

-- The two pieces one after the other, unless one is undefined.
infixr 40 ◌<<◌
abbrev pub ◌<<◌ : Option Text → Option Text → Option Text
none << o = none
some t << none = none
some t << some u = some (t ++ u)

-- The head of a report that has files.
unfoldable pub report_header : Options → List OutputFile → Text
unfolding decimal
report_header opts [] = []
report_header opts (f ∷ fs) =
    text "Output tracer summary report"
    ++ ((if not (is_negative opts.files_in_report) && not (is_zero opts.files_in_report)
          then text " (limit: " ++ (decimal (pos_part opts.files_in_report) ++ text ")")
          else [])
        ++ endl)

-- The first loop: the largest size.
unfoldable pub max_size : List OutputFile → ℕ
max_size [] = 0
max_size (f ∷ fs) = let m = max_size fs in if ltb m f.size then f.size else m

-- The width of the sizes.
unfoldable pub padding : Libc → Options → List OutputFile → ℕ
unfolding max_size
padding c opts files =
    if opts.human_readable_sizes || (max_size files == 0) then 9 else c.log10 (max_size files) + 3

-- The size of a file in its column.
unfoldable pub size_column : Libc → Options → (width : ℕ) → ℕ → Option Text
unfolding setw
size_column c opts width size =
    if opts.human_readable_sizes
    then elim (human_readable_size c size) [ none ↦ none | some t ↦ some (setw width t) ]
    else some (setw width (decimal size) ++ text "b")

-- The pid and the address of the data of a process.
unfoldable pub proc_mark : ProcInfoPtr → Text
proc_mark p = decimal p.info.pid ++ (text "|" ++ decimal p.address)

-- `Options.CommandLengthLimit != 0`.
abbrev pub dump_proc_legend : Options → Bool
dump_proc_legend opts = not (is_zero opts.command_length_limit)

-- A round of the second loop.
unfoldable pub file_line : Libc → Options → (width : ℕ) → OutputFile → Option Text
unfolding size_column proc_mark
file_line c opts width entry =
    size_column c opts width entry.size
    << some (
        text " "
        ++ (entry.filename
            ++ ((if dump_proc_legend opts
                  then text " (pid:" ++ (proc_mark entry.proc_info ++ text ")")
                  else [])
                ++ endl)))

unfoldable pub file_lines : Libc → Options → (width : ℕ) → List OutputFile → Option Text
unfolding file_line
file_lines c opts width [] = some []
file_lines c opts width (f ∷ fs) = file_line c opts width f << file_lines c opts width fs

-- `procInfoSet.emplace`: a pointer that is in the set is not put in again.
abbrev pub has_address : ℕ → List ProcInfoPtr → Bool
has_address a [] = false
has_address a (p ∷ ps) = (p.address == a) || has_address a ps

unfoldable pub emplace : ProcInfoPtr → List ProcInfoPtr → List ProcInfoPtr
emplace p set = if has_address p.address set then set else p ∷ set

-- The set after the second loop.
unfoldable pub proc_info_set : List OutputFile → List ProcInfoPtr → List ProcInfoPtr
unfolding emplace
proc_info_set [] set = set
proc_info_set (f ∷ fs) set = proc_info_set fs (emplace f.proc_info set)

-- The third loop, over the processes in the order in which the set hands them out.
unfoldable pub legend_lines : List ProcInfoPtr → Text
unfolding proc_mark
legend_lines [] = []
legend_lines (p ∷ ps) =
    text "  "
    ++ (proc_mark p
        ++ (text " (ppid:"
            ++ (decimal p.info.ppid
                ++ (text ") " ++ (p.info.command_line ++ (endl ++ legend_lines ps))))))

unfoldable pub legend : Options → List ProcInfoPtr → Text
unfolding legend_lines
legend opts [] = []
legend opts (p ∷ ps) =
    if dump_proc_legend opts then text "Proc legend:" ++ (endl ++ legend_lines (p ∷ ps)) else []

-- The total.
unfoldable pub total_line : Libc → Options → ℕ → Option Text
total_line c opts size =
    some (text "Total output: ")
    << (if opts.human_readable_sizes
        then human_readable_size c size
        else some (decimal size ++ text "b"))
    << some endl

-- The files behind the pointers of `GetLargestFiles`; a null pointer is followed.
unfoldable pub dereference : List (Option OutputFile) → Option (List OutputFile)
dereference [] = some []
dereference (none ∷ fs) = none
dereference (some f ∷ fs) = elim (dereference fs) [ none ↦ none | some gs ↦ some (f ∷ gs) ]

-- The report of the files; `iteration` is the order in which `std::unordered_set` hands its elements out.
unfoldable pub report_of :
    Libc
    → (iteration : List ProcInfoPtr → List ProcInfoPtr) → Options
    → List OutputFile
    → ℕ
    → Option Text
unfolding report_header file_lines proc_info_set legend total_line padding
report_of c iteration opts files output_size =
    some (report_header opts files)
    << file_lines c opts (padding c opts files) files
    << some (legend opts (iteration (proc_info_set files [])))
    << total_line c opts output_size

-- `PrintReport`; `none` is undefined behaviour.
unfoldable pub print_report :
    Libc
    → (iteration : List ProcInfoPtr → List ProcInfoPtr) → Options
    → (pq : PriorityQueue) → Storage pq
    → Option Text
unfolding dereference report_of get_largest_files
print_report c iteration opts pq s = elim (dereference (get_largest_files pq s)) [
  | none ↦ none
  | some files ↦ report_of c iteration opts files s.output_size
]

-- The C library, and the order in which `std::unordered_set` hands the processes out.
pub record Printer : Type 0 where
  pub libc : Libc
  pub iteration : List ProcInfoPtr → List ProcInfoPtr

-- The last test of `PostProcess`, and what is printed.
unfoldable pub final_report : Printer → Context → Option Text
unfolding print_report
final_report p ctx =
    if is_zero ctx.options.files_in_report
    then some []
    else print_report p.libc p.iteration ctx.options list_queue ctx.file_storage
