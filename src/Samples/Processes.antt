-- ===== src/Samples/Processes.antt =====
-- Processes that share files.
use optrace.Prelude.{
  ℕ, zero, suc, ◌≡◌, refl, true, false, none, some, [], ◌∷◌, text, arith, word, ◌⊎◌, ◌<◌, inl,
}
use optrace.Prelude.Int.{pos, negsuc}
use optrace.FileState.{FileState, get_output_size}
use optrace.Storage.{new_storage}
use optrace.Storage.Queue.{list_queue}
use optrace.Context.{Context, done}
use optrace.Context.Objects.{fds_of, slot, is_mapped, use_count, torn_down}
use optrace.Context.Balance.{balance, owed, torn_down-balance}
use optrace.Context.WellFormed.{HasLeader, IsEmpty, IsWellFormed}
use optrace.Context.Live.{IsLive}
use optrace.Prelude.Maps.{find}
use optrace.Context.Lifecycle.{vanish_process}
use optrace.Context.PostProcess.{
  PostProcessed, Vanished, vanish_process-Vanished, post_process-total,
}
use optrace.Context.Lifecycle.{copy_slots, survives_exec}
use optrace.Context.Matches.{Matches, copy_slots-Matches}
use optrace.Samples.Files.{host, options, info, printer}

abbrev log_file : FileState
log_file = record {
  max_pos = 12;
  curr_pos = 12;
  flags = 1;
  init_size = 0;
  filename = text "/t/log";
}

abbrev out_file : FileState
out_file = record {
  max_pos = 30;
  curr_pos = 30;
  flags = 1;
  init_size = 5;
  filename = text "/t/out";
}

-- Process 7 with its thread 8: descriptors 1 and 2 share one file, 3 is another.
abbrev pub shell : Context
unfolding new_storage
shell = record {
  options = options;
  group_leaders = 7 ∷ [];
  proc_map = (7, 0) ∷ (8, 0) ∷ [];
  file_storage = new_storage list_queue (negsuc 0) false;
  procs = record { fds = none ∷ some 0 ∷ some 0 ∷ some 1 ∷ []; proc_info = info } ∷ [];
  files = log_file ∷ out_file ∷ [];
  kills = [];
}

shell_files : (a fd r : ℕ) → slot (fds_of a shell.procs) fd ≡ some r → r < 2
unfolding shell
shell_files zero zero r e = absurd (ground arith)
shell_files zero (suc zero) r e = ground arith
shell_files zero (suc (suc zero)) r e = ground arith
shell_files zero (suc (suc (suc zero))) r e = ground arith
shell_files zero (suc (suc (suc (suc fd)))) r e = absurd (ground arith)
shell_files (suc a) fd r e = absurd (ground arith)

shell_led : (a : ℕ) → is_mapped a shell.proc_map ≡ true → HasLeader a shell ⊎ IsEmpty a shell
unfolding shell
shell_led zero m = inl (7, refl, refl)
shell_led (suc a) m = absurd (ground arith)

pub shell-IsWellFormed : IsWellFormed shell
unfolding shell
shell-IsWellFormed = record {
  files = shell_files;
  procs = λ a m. ground arith;
  led = shell_led;
  leaders = λ pid m. ground arith;
}

pub shell-IsLive : IsLive 8 0 shell
unfolding shell
shell-IsLive = record {
  well_formed = shell-IsWellFormed;
  known = refl;
  leader = (7, refl, refl);
  counted = refl;
}

pub shell_known : find 7 shell.proc_map ≡ some 0
unfolding shell
shell_known = refl

pub shell_fresh : find 9 shell.proc_map ≡ none
unfolding shell
shell_fresh = refl

-- Both files are reported once, with 12 and 25 bytes.
post_process-total_example :
    (c' : Context) × PostProcessed printer (pos 0) shell c'
    × (c'.proc_map ≡ [])
    × (word c'.file_storage.output_size ≡ 37)
unfolding shell owed use_count get_output_size optrace.Context.Objects.count_refs
post_process-total_example = post_process-total printer (pos 0) shell shell-IsWellFormed refl

vanish_process-Vanished_example :
    (c' : Context) × (vanish_process 7 shell ≡ done tt c') × Vanished 7 shell c'
unfolding shell
vanish_process-Vanished_example = vanish_process-Vanished 7 0 shell shell-IsWellFormed refl refl

torn_down-balance_example : balance (torn_down 0 2 0 info shell) ≡ balance shell
unfolding shell
torn_down-balance_example = torn_down-balance 0 2 0 log_file shell refl refl refl info refl

-- An exec of the shell; its descriptors 1 and 2 do not share a file any more.
copy_slots-Matches_example :
    Matches host survives_exec shell
      (none ∷ some 0 ∷ some 0 ∷ some 1 ∷ [])
      (copy_slots host survives_exec (none ∷ some 0 ∷ some 0 ∷ some 1 ∷ []) shell)
unfolding shell
copy_slots-Matches_example =
    copy_slots-Matches host survives_exec (none ∷ some 0 ∷ some 0 ∷ some 1 ∷ []) shell
      (shell_files 0)
