-- ===== src/Wire/Outcomes.antt =====
-- `do` blocks of outcomes, for code that keeps no stream.
use zbc_go.Common.{Option, none, some}
use zbc_go.Wire.{Bytes, Outcome, ok, err, panic, Stream, nil_pointer}

infixl 5 ◌>>=◌
abbrev pub ◌>>=◌ {ℓ κ} : {A : Type ℓ} {B : Type κ} → Outcome A → (A → Outcome B) → Outcome B
◌>>=◌ m f = elim m [ ok a ↦ f a | err e ↦ err e | panic p ↦ panic p ]

-- The result of a computation on a byte slice, whose rest is dropped.
unfoldable pub decode_from : {A : Type 0} → Stream A → Bytes → Outcome A
decode_from m bs = elim (m bs) [ ok (a, _) ↦ ok a | err e ↦ err e | panic p ↦ panic p ]

-- A dereference of a pointer that may be nil.
abbrev pub deref : {A : Type 0} → Option A → Outcome A
deref none = panic nil_pointer
deref (some a) = ok a
