-- ===== src/Cores/Masks.antt =====
-- `ResolveMask`, against a mask as a sequence of characters and of specifiers.
use mathlib.Core.List.{append-nil, append_assoc}
use optrace.Prelude.{
  ◌∙◌, sym, ℕ, ◌≡◌, refl, ap, Bool, false, ◌||◌, Option, none, some, List, [], ◌∷◌, ◌++◌, Text,
  ◌==◌, arith,
}
use optrace.Utils.{decimal}
use optrace.Cores.{specifier, prepend, resolve_mask}

-- The specifiers that are known, with `%%`; 0 ends the mask for the code.
abbrev pub is_known : ℕ → Bool
is_known c = (c == 0) || (c == b'%') || (c == b'p') || (c == b'e') || (c == b's')

-- A character that stands for itself, or a specifier: `%%`, `%p`, `%e`, `%s`, or another one.
pub data Piece : Type 0 where
  plain : (c : ℕ) → (c == b'%') ≡ false → Piece
  percent : Piece
  process_id : Piece
  command : Piece
  signal_number : Piece
  unknown : (c : ℕ) → is_known c ≡ false → Piece

-- The mask that the pieces make up, with what follows.
abbrev pub mask_of : List Piece → Text → Text
mask_of [] end = end
mask_of (plain c e ∷ ps) end = c ∷ mask_of ps end
mask_of (percent ∷ ps) end = b'%' ∷ b'%' ∷ mask_of ps end
mask_of (process_id ∷ ps) end = b'%' ∷ b'p' ∷ mask_of ps end
mask_of (command ∷ ps) end = b'%' ∷ b'e' ∷ mask_of ps end
mask_of (signal_number ∷ ps) end = b'%' ∷ b's' ∷ mask_of ps end
mask_of (unknown c e ∷ ps) end = b'%' ∷ c ∷ mask_of ps end

module _ (pid : ℕ) (comm : Text) (term_sig : ℕ) where
  -- What the pieces stand for.
  abbrev pub meaning : List Piece → Text
  meaning [] = []
  meaning (plain c e ∷ ps) = c ∷ meaning ps
  meaning (percent ∷ ps) = b'%' ∷ meaning ps
  meaning (process_id ∷ ps) = decimal pid ++ meaning ps
  meaning (command ∷ ps) = comm ++ meaning ps
  meaning (signal_number ∷ ps) = decimal term_sig ++ meaning ps
  meaning (unknown c e ∷ ps) = b'*' ∷ meaning ps

  prepend_nil : (o : Option Text) → prepend [] o ≡ o
  prepend_nil none = refl
  prepend_nil (some t) = refl

  prepend_append : (s t : Text) (o : Option Text) → prepend s (prepend t o) ≡ prepend (s ++ t) o
  prepend_append s t none = refl
  prepend_append s t (some u) = ap some (sym (append_assoc s t u))

  resolve_plain :
      (c : ℕ) (rest : Text)
      → (c == b'%') ≡ false
      → resolve_mask pid comm term_sig (c ∷ rest)
        ≡ prepend (c ∷ []) (resolve_mask pid comm term_sig rest)
  unfolding resolve_mask
  resolve_plain c [] e = rw e refl
  resolve_plain c (d ∷ ds) e = rw e refl

  after_percent :
      (c : ℕ) (ps : List Piece) (end meant : Text)
      → specifier pid comm term_sig c ≡ meant
      → resolve_mask pid comm term_sig (mask_of ps end)
        ≡ prepend (meaning ps) (resolve_mask pid comm term_sig end)
      → resolve_mask pid comm term_sig (b'%' ∷ c ∷ mask_of ps end)
        ≡ prepend (meant ++ meaning ps) (resolve_mask pid comm term_sig end)
  unfolding resolve_mask
  after_percent c ps end meant e rest =
      ap (λ t. prepend t (resolve_mask pid comm term_sig (mask_of ps end))) e
      ∙ ap (prepend meant) rest
      ∙ prepend_append meant (meaning ps) (resolve_mask pid comm term_sig end)

  resolve_pieces :
      (ps : List Piece) (end : Text)
      → resolve_mask pid comm term_sig (mask_of ps end)
        ≡ prepend (meaning ps) (resolve_mask pid comm term_sig end)
  unfolding resolve_mask specifier
  resolve_pieces [] end = sym (prepend_nil _)
  resolve_pieces (plain c e ∷ ps) end =
      resolve_plain c (mask_of ps end) e
      ∙ ap (prepend (c ∷ [])) (resolve_pieces ps end)
      ∙ prepend_append (c ∷ []) (meaning ps) (resolve_mask pid comm term_sig end)
  resolve_pieces (percent ∷ ps) end =
      after_percent b'%' ps end (b'%' ∷ []) refl (resolve_pieces ps end)
  resolve_pieces (process_id ∷ ps) end =
      after_percent b'p' ps end (decimal pid) refl (resolve_pieces ps end)
  resolve_pieces (command ∷ ps) end = after_percent b'e' ps end comm refl (resolve_pieces ps end)
  resolve_pieces (signal_number ∷ ps) end =
      after_percent b's' ps end (decimal term_sig) refl (resolve_pieces ps end)
  resolve_pieces (unknown c e ∷ ps) end =
      after_percent c ps end (b'*' ∷ []) (ground (arith, e)) (resolve_pieces ps end)

  -- `ResolveMask` puts the process id for each `%p` of a mask, the command's name for `%e`, the number of
  -- the signal for `%s`, `%` for `%%` and `*` for any other specifier, and keeps all else; but a `%` at
  -- the end of the mask is undefined behaviour.
  pub resolve_mask-mask_of :
      (ps : List Piece)
      → (resolve_mask pid comm term_sig (mask_of ps []) ≡ some (meaning ps))
        × (resolve_mask pid comm term_sig (mask_of ps (b'%' ∷ [])) ≡ none)
  unfolding resolve_mask
  resolve_mask-mask_of ps =
      (resolve_pieces ps [] ∙ ap some (append-nil (meaning ps)), resolve_pieces ps (b'%' ∷ []))
