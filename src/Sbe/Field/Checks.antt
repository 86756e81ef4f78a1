-- ===== src/Sbe/Field/Checks.antt =====
-- The checks of the RangeCheck methods, against the conditions that they test.
use zbc_go.Common.{
  ℕ, ◌≤◌, ◌≡◌, ◌↔◌, refl, arith, Bool, true, false, ◌||◌, List, [], ◌∷◌, All, ltb, if◌then◌else◌,
}
use zbc_go.Wire.{Error, Outcome, ok, err, panic, out_of_range, unknown_value}
use zbc_go.Sbe.Field.{FieldSpec, EnumSpec, has_value, all_checks, check_field, check_enum}
use zbc_go.Sbe.Field.Streams.{in_acting_version_zero}

-- A check that finds nothing.
abbrev pub Passes : Outcome (Unit {0}) → Type 0
Passes x = x ≡ ok tt

pub all_checks-Passes : (cs : List (Outcome (Unit {0}))) → Passes (all_checks cs) ↔ All Passes cs
all_checks-Passes [] = (λ h. tt, λ h. refl)
all_checks-Passes (ok u ∷ cs) =
    let (to, from) = all_checks-Passes cs in (λ h. (refl, to h), λ h. from h.1)
all_checks-Passes (err e ∷ cs) = (λ h. cc, λ h. h.0)
all_checks-Passes (panic p ∷ cs) = (λ h. cc, λ h. h.0)

pub within_iff : (lo hi x : ℕ) → ((ltb x lo || ltb hi x) ≡ false) ↔ ((lo ≤ x) × (x ≤ hi))
within_iff lo hi x = ground arith

refuse-Passes : (b : Bool) (e : Error) → Passes (if b then err e else ok tt) ↔ (b ≡ false)
refuse-Passes true e = ground arith
refuse-Passes false e = ground arith

pub accept-Passes : (b : Bool) (e : Error) → Passes (if b then ok tt else err e) ↔ (b ≡ true)
accept-Passes true e = ground arith
accept-Passes false e = ground arith

pub check_field-Passes :
    (f : FieldSpec) (acting x : ℕ)
    → f.since_version ≡ 0
    → Passes (check_field f acting x) ↔ ((f.min_value ≤ x) × (x ≤ f.max_value))
unfolding check_field
check_field-Passes f acting x e =
    let (to, from) =
      refuse-Passes (ltb x f.min_value || ltb f.max_value x)
        (out_of_range f.name f.min_value x f.max_value) in
    let (within, beyond) = within_iff f.min_value f.max_value x in
    rw (in_acting_version_zero f.since_version acting e) (λ h. within (to h), λ h. from (beyond h))

-- At the version of its schema an enumeration is checked.
pub check_enum-Passes :
    (s : EnumSpec) (x : ℕ) → Passes (check_enum s 1 1 x) ↔ (has_value s.values x ≡ true)
unfolding check_enum
check_enum-Passes s x = accept-Passes (has_value s.values x) (unknown_value s.name x)
