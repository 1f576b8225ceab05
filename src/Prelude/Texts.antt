-- ===== src/Prelude/Texts.antt =====
-- Equality of byte strings.
use optrace.Prelude.{Bool, true, false, ◌&&◌, [], ◌∷◌, Text, ◌==◌}

-- `==` of `std::string`.
abbrev pub text_eq : Text → Text → Bool
text_eq [] [] = true
text_eq [] (d ∷ ds) = false
text_eq (c ∷ cs) [] = false
text_eq (c ∷ cs) (d ∷ ds) = (c == d) && text_eq cs ds
