-- ===== src/Cmd/Printing.antt =====
-- What a command prints, and how it ends.
use zbc_go.Common.{String, List, [], ◌∷◌, ◌++◌, Option, none, some}
use zbc_go.Wire.{Error, Outcome, ok, err, panic, fatal_exit}
use zbc_go.Request.Values.{Data, Value}

-- A line of the log; an event goes to the standard output.
pub data Output (X : Type 0) : Type 0 where
  line : String → Output X
  error_line : Error → Output X
  data_line : Data X → Output X
  value_line : Value X → Output X
  event_line : Data X → Output X

abbrev pub Run : Type 0 → Type 0 → Type 0
Run X A = List (Output X) × Outcome A

abbrev pub after : {X A : Type 0} → List (Output X) → Run X A → Run X A
after printed (more, result) = (printed ++ more, result)

infixl 5 ◌>>=◌ ◌>>◌
abbrev pub ◌>>=◌ : {X A B : Type 0} → Run X A → (A → Run X B) → Run X B
(printed, ok a) >>= f = after printed (f a)
(printed, err e) >>= f = (printed, err e)
(printed, panic p) >>= f = (printed, panic p)

abbrev pub ◌>>◌ : {X B : Type 0} → Run X (Unit {0}) → Run X B → Run X B
m >> k = m >>= λ _. k

abbrev pub return : {X A : Type 0} → A → Run X A
return a = ([], ok a)

abbrev pub print : {X : Type 0} → Output X → Run X (Unit {0})
print o = (o ∷ [], ok tt)

-- A call that prints nothing.
abbrev pub lift : {X A : Type 0} → Outcome A → Run X A
lift r = ([], r)

-- A call whose error the code looks at, beside a result that is nil with it.
unfoldable pub try : {X A : Type 0} → Outcome A → Run X (Option A × Option Error)
try (ok a) = return (some a, none)
try (err e) = return (none, some e)
try (panic p) = lift (panic p)

-- isFatal
unfoldable pub is_fatal : {X : Type 0} → Option Error → Run X (Unit {0})
is_fatal none = return tt
is_fatal (some e) = (error_line e ∷ [], panic fatal_exit)
