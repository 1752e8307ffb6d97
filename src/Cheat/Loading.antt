-- ===== src/Cheat/Loading.antt =====
-- LoadProgram of dmnt/source/cheat/impl/dmnt_cheat_vm.cpp against the concatenation of the enabled
-- cheats.
use nx_sysmodules.Base.{
  ℕ, ◌+◌, ◌≤◌, ◌<◌, ◌≡◌, inl, inr, refl, ap, true, false, List, [], ◌∷◌, ◌++◌, arith, ltb, leb,
  if◌then◌else◌, length, length-append, Bool-cases,
}
use nx_sysmodules.Cheat.Vm.{Vm, CheatEntry, maximum_program_opcode_count, load_cheats, load_program}

-- The words of the enabled cheats, in order.
unfoldable pub enabled_opcodes : List CheatEntry → List ℕ
enabled_opcodes [] = []
enabled_opcodes (c ∷ cs) =
    let rest = enabled_opcodes cs in if c.enabled then c.opcodes ++ rest else rest

append_nil : (xs : List ℕ) → xs ++ [] ≡ xs
append_nil [] = refl
append_nil (x ∷ xs) = ap (λ r. x ∷ r) (append_nil xs)

append_assoc : (xs ys zs : List ℕ) → (xs ++ ys) ++ zs ≡ xs ++ (ys ++ zs)
append_assoc [] ys zs = refl
append_assoc (x ∷ xs) ys zs = ap (λ r. x ∷ r) (append_assoc xs ys zs)

load_cheats-fits :
    (cs : List CheatEntry) (loaded : List ℕ)
    → length loaded + length (enabled_opcodes cs) ≤ maximum_program_opcode_count
    → load_cheats cs loaded ≡ (loaded ++ enabled_opcodes cs, true)
unfolding load_cheats enabled_opcodes
load_cheats-fits [] loaded h = rw (append_nil loaded) refl
load_cheats-fits (c ∷ cs) loaded h = elim (Bool-cases c.enabled) [
  | inl e ↦
      let grown = load_cheats-fits cs (loaded ++ c.opcodes) (
        ground (
          arith,
          h,
          length-append c.opcodes (enabled_opcodes cs),
          length-append loaded c.opcodes,
        )) in
      ground (
        arith,
        grown,
        append_assoc loaded c.opcodes (enabled_opcodes cs),
        h,
        length-append c.opcodes (enabled_opcodes cs),
      )
  | inr e ↦ let rest = load_cheats-fits cs loaded (ground (arith, h)) in ground (arith, rest)
]

load_cheats-overflows :
    (cs : List CheatEntry) (loaded : List ℕ)
    → length loaded ≤ maximum_program_opcode_count
    → maximum_program_opcode_count < length loaded + length (enabled_opcodes cs)
    → load_cheats cs loaded ≡ ([], false)
unfolding load_cheats enabled_opcodes
load_cheats-overflows [] loaded l h = absurd (omega (arith, l, h))
load_cheats-overflows (c ∷ cs) loaded l h = elim (Bool-cases c.enabled) [
  | inr e ↦ let rest = load_cheats-overflows cs loaded l (ground (arith, h)) in ground (arith, rest)
  | inl e ↦
      elim (Bool-cases (ltb maximum_program_opcode_count (length c.opcodes + length loaded))) [
        | inl big ↦ ground arith
        | inr small ↦
            let grown =
              load_cheats-overflows cs (loaded ++ c.opcodes)
                (ground (arith, length-append loaded c.opcodes))
                (ground (
                  arith,
                  h,
                  length-append loaded c.opcodes,
                  length-append c.opcodes (enabled_opcodes cs),
                )) in
            ground (arith, grown)
      ]
]

-- LoadProgram loads the words of the enabled cheats, in order, where they fit the program; where they
-- do not, it fails and leaves an empty program.
pub load_program_lem :
    (cheats : List CheatEntry) (vm : Vm)
    → load_program cheats vm ≡ (
        if leb (length (enabled_opcodes cheats)) maximum_program_opcode_count
        then (record vm { program = enabled_opcodes cheats }, true)
        else (record vm { program = [] }, false))
unfolding load_program
load_program_lem cheats vm =
    elim (Bool-cases (leb (length (enabled_opcodes cheats)) maximum_program_opcode_count)) [
      | inl e ↦ let fits = load_cheats-fits cheats [] (ground arith) in ground (arith, fits)
      | inr e ↦
          let over = load_cheats-overflows cheats [] (omega arith) (ground arith) in
          ground (arith, over)
    ]
