-- ===== src/Samples/Texts.antt =====
-- Strings and paths.
use optrace.Cores.{resolve_mask}
use optrace.Cores.Masks.{Piece, plain, command, process_id, resolve_mask-mask_of}
use optrace.Utils.{decimal, digits_fuel, told, not_defined, fd_size_of}
use optrace.Utils.Status.{fd_size_of-decimal}
use optrace.Prelude.{List, [], arith, ◌≡◌, refl, none, some, ◌∷◌, ◌++◌, Text, text, replicate}
use optrace.Utils.{rfind_slash, get_dir_name, get_base_name}
use optrace.Utils.Strings.{get_dir_name-get_base_name}

abbrev core_path : Text
core_path = text "/var/crash/core.%p"

core_path-slash : rfind_slash core_path ≡ some 10
unfolding rfind_slash
core_path-slash = refl

get_dir_name-get_base_name_example :
    (get_dir_name core_path ++ 0x2f ∷ get_base_name core_path ≡ core_path)
    × (rfind_slash (get_base_name core_path) ≡ none)
get_dir_name-get_base_name_example = get_dir_name-get_base_name core_path 10 core_path-slash

-- `%e.%p`.
abbrev pieces : List Piece
pieces = command ∷ plain b'.' refl ∷ process_id ∷ []

resolve_mask-mask_of_example :
    (resolve_mask 7 (text "sh") 11 (text "%e.%p") ≡ some (text "sh.7"))
    × (resolve_mask 7 (text "sh") 11 (text "%e.%p%") ≡ none)
unfolding decimal digits_fuel
resolve_mask-mask_of_example = resolve_mask-mask_of 7 (text "sh") 11 pieces

-- What follows the entry in the status.
abbrev lines : Text
lines = replicate 500 0x0a

fd_size_of-decimal_example :
    (fd_size_of (text "Pid:\t7\n" ++ (text "FDSize:" ++ (text "\t" ++ (decimal 256 ++ lines))))
      ≡ told 256)
    × (fd_size_of (text "FDSize:\t256") ≡ not_defined)
unfolding decimal digits_fuel
fd_size_of-decimal_example =
    fd_size_of-decimal (text "Pid:\t7\n") (text "\t") 256 lines
      (refl, (refl, (refl, (refl, (refl, (refl, (refl, tt))))))) (refl, tt) refl (omega arith)
      (omega arith) (omega arith) (text "FDSize:\t256") (omega arith) (omega arith)
