-- ===== src/Ffi/Registry/Lookup.antt =====
-- crates/sg-ffi/src/lib.rs: the targets of the registry under their ids.
use server_glass.Base.{
  ◌⊎◌, some, none, Option, ◌≡◌, refl, Text, get, get-insert, insert, get-remove, text_eq,
  text_eq_iff, inl, inr, arith, if◌then◌else◌, Option-cases,
}
use server_glass.Base.Float.{FloatOps}
use server_glass.Ffi.Registry.{
  ServerGlass, SgError, unknown_target, target, remove_target, stop_target, stop,
}

-- The error of a lookup that failed.
abbrev pub refusal : {A : Type 0} → SgError ⊎ A → Option SgError
refusal (inl e) = some e
refusal (inr a) = none

module _ {F : Type 0} ⦃fl : FloatOps F⦄ (to_lowercase : Text → Text) where
  -- After a target is removed, its id is unknown and every other id finds what it found before; what
  -- is reported is the error of looking the id up, if there is one.
  pub remove_target-target :
      (sg : ServerGlass F) (id other : Text)
      → (target (remove_target to_lowercase sg id).0 other
          ≡ (if text_eq id other then inl (unknown_target other) else target sg other))
        × ((remove_target to_lowercase sg id).1 ≡ refusal (target sg id))
  unfolding remove_target stop target
  remove_target-target sg id other = elim (Option-cases (get id sg.targets)) [
    | inl e ↦ (ground (arith, e, text_eq_iff id other), rw (remove_target, stop, target, e) refl)
    | inr (t, e) ↦
        let kept = insert id (stop_target to_lowercase t) sg.targets in
        (
          ground (
            arith,
            e,
            text_eq_iff id other,
            get-remove id other kept,
            get-insert id other (stop_target to_lowercase t) sg.targets,
          ),
          rw (remove_target, stop, target, e) refl,
        )
  ]
