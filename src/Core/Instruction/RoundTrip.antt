-- ===== src/Core/Instruction/RoundTrip.antt =====
-- Atoms rendered and parsed again.
use putup.Prelude.{
  ◌≡◌, refl, ap, sym, subst, ◌∙◌, true, false, not, List, [], ◌∷◌, ◌++◌, append-nil, append_assoc,
  ok, Bytes, is_nil, All, cut, if-true, if-false, if_cases, arith, is_nil→eq,
}
use putup.Core.Instruction.{
  Atom, Builder, is_literal, empty_builder, flush, add_literal, push_atom, take_atoms,
  render_instruction, done, parse_turn, parse_instruction,
}
use putup.Core.Instruction.Spec.{
  Fits, literal_fits, group_ref_fits, flag_fits, nth_fits, IsSpaced, IsInstruction,
}
use putup.Core.Instruction.Building.{text_atom, builder}
use putup.Core.Instruction.Turns.{Reads, ends_here, Reads-parse_instruction}
use putup.Core.Instruction.Rendered.{add_atoms, flag_shape, nth_shape, Reads-render}

flush-nil : (b : Builder) → is_nil b.pending ≡ true → flush b ≡ b
unfolding flush
flush-nil b h = if-true _ _ h

add_literal-nil :
    (t : Bytes) (b : Builder)
    → is_nil t ≡ false
    → is_nil b.pending ≡ true
    → add_literal t b ≡ builder t b.atoms
unfolding add_literal
add_literal-nil t b h n =
    if-false b _ h ∙ ap (λ p. builder (p ++ t) b.atoms) (is_nil→eq b.pending n)

flush-text :
    (t : Bytes) (atoms : List Atom)
    → is_nil t ≡ false
    → (flush (builder t atoms)).atoms ≡ atoms ++ text_atom t ∷ []
unfolding flush
flush-text t atoms h = ap (λ (c : Builder). c.atoms) (if-false _ _ h)

pushed_atoms :
    (atom : Atom) (b : Builder) → (flush (push_atom atom b)).atoms ≡ (flush b).atoms ++ atom ∷ []
unfolding push_atom flush
pushed_atoms atom b = ap (λ (c : Builder). c.atoms) (flush-nil (push_atom atom b) (flushed b))
  where
    flushed : (b : Builder) → is_nil (flush b).pending ≡ true
    flushed b =
        if_cases (λ (c : Builder). is_nil c.pending ≡ true) (is_nil b.pending) b _ (λ e. e)
          (λ _. refl)

pushed_pending : (atom : Atom) (b : Builder) → is_nil (push_atom atom b).pending ≡ true
unfolding push_atom flush
pushed_pending atom b =
    if_cases {A = Builder} (λ c. is_nil c.pending ≡ true) (is_nil b.pending) b _ (λ e. e)
      (λ _. refl)

take_pushed :
    (atom : Atom) (atoms : List Atom) (b : Builder)
    → is_literal atom.kind ≡ false
    → take_atoms (add_atoms atoms (push_atom atom b)) ≡ take_atoms (push_atom atom b) ++ atoms
    → take_atoms (add_atoms (atom ∷ atoms) b) ≡ take_atoms b ++ atom ∷ atoms
unfolding take_atoms
take_pushed atom atoms b plain h =
    ap (λ c. take_atoms (add_atoms atoms c))
      (if-false (add_literal atom.text b) (push_atom atom b) plain)
    ∙ h
    ∙ ap (λ l. l ++ atoms) (pushed_atoms atom b)
    ∙ append_assoc (flush b).atoms (atom ∷ []) atoms

pushed-IsSpaced :
    (atom : Atom) (atoms : List Atom) (b : Builder)
    → is_literal atom.kind ≡ false
    → IsSpaced (is_literal atom.kind) atoms
    → IsSpaced (not (is_nil (push_atom atom b).pending)) atoms
pushed-IsSpaced atom atoms b plain s =
    subst (λ x. IsSpaced x atoms) (plain ∙ ap not (sym (pushed_pending atom b))) s

add_atoms-take :
    (atoms : List Atom) (b : Builder)
    → All Fits atoms
    → IsSpaced (not (is_nil b.pending)) atoms
    → take_atoms (add_atoms atoms b) ≡ take_atoms b ++ atoms
unfolding take_atoms
add_atoms-take [] b f s = sym (append-nil (flush b).atoms)
add_atoms-take (_ ∷ atoms) b (literal_fits {t} h, f) (e, s) =
    let clear : is_nil b.pending ≡ true = ground arith in
    let now = add_literal-nil t b h clear in
    ap (λ c. take_atoms (add_atoms atoms c)) now
    ∙ add_atoms-take atoms (builder t b.atoms) f (subst (λ x. IsSpaced (not x) atoms) (sym h) s)
    ∙ ap (λ l. l ++ atoms) (flush-text t b.atoms h)
    ∙ append_assoc b.atoms (text_atom t ∷ []) atoms
    ∙ ap (λ (c : Builder). c.atoms ++ text_atom t ∷ atoms) (sym (flush-nil b clear))
add_atoms-take (atom ∷ atoms) b (group_ref_fits h, f) (e, s) =
    take_pushed atom atoms b refl
      (add_atoms-take atoms (push_atom atom b) f (pushed-IsSpaced atom atoms b refl s))
add_atoms-take (atom ∷ atoms) b (flag_fits h, f) (e, s) =
    let plain = (flag_shape atom.kind h).0 in
    take_pushed atom atoms b plain
      (add_atoms-take atoms (push_atom atom b) f (pushed-IsSpaced atom atoms b plain s))
add_atoms-take (atom ∷ atoms) b (nth_fits h lo hi, f) (e, s) =
    let plain = (nth_shape atom.kind h).0 in
    take_pushed atom atoms b plain
      (add_atoms-take atoms (push_atom atom b) f (pushed-IsSpaced atom atoms b plain s))

parse_turn-end : (b : Builder) → parse_turn [] b ≡ done b
unfolding parse_turn cut add_literal
parse_turn-end b = refl

empty_taken : take_atoms empty_builder ≡ []
unfolding take_atoms flush
empty_taken = refl

-- Rendered atoms that a builder can make are parsed as the same atoms.
pub parse_instruction-render_instruction :
    (atoms : List Atom)
    → IsInstruction atoms
    → parse_instruction (render_instruction atoms) ≡ ok atoms
parse_instruction-render_instruction atoms h = Reads-parse_instruction (render_instruction atoms) (
    subst (λ s. Reads s empty_builder (ok atoms)) (append-nil (render_instruction atoms))
      (Reads-render atoms [] empty_builder h.fits (
        subst (λ l. Reads [] (add_atoms atoms empty_builder) (ok l))
          (add_atoms-take atoms empty_builder h.fits h.spaced ∙ ap (λ l. l ++ atoms) empty_taken)
          (ends_here (parse_turn-end (add_atoms atoms empty_builder))))))
