-- ===== src/Wire/Prefixes.antt =====
-- Equations of streams: equal results, input that is cut short, and slices that are read as a whole.
use zbc_go.Common.{◌≢◌, ◌∷◌}
use zbc_go.Common.{ℕ, ◌^◌, ◌<◌, ◌≡◌, sym, ap, ◌∙◌, arith}
use zbc_go.Common.{[], ◌++◌, append-nil, length}
use zbc_go.Wire.{parse, read_struct}
use zbc_go.Wire.{Bytes, Outcome, ok, Stream}
use zbc_go.Wire.{ByteOrder, uint_bytes}
use zbc_go.Wire.{read_uint}
use zbc_go.Wire.Streams.{Reads, IsLocal, >>=-Reads_last, read_full-Reads, read_uint-Reads}

pub ok-injective {ℓ} : {A : Type ℓ} {a b : Unit {0} × A} → ok a ≡ ok b → a.1 ≡ b.1
ok-injective h = ground arith

ap_rest {ℓ} : {A : Type ℓ} {a b : A × Bytes} → ok a ≡ ok b → a.1 ≡ b.1
ap_rest h = ground arith

append-ne-nil : (xs : Bytes) (y : ℕ) (ys : Bytes) → xs ++ y ∷ ys ≢ []
append-ne-nil [] y ys h = cc
append-ne-nil (x ∷ xs) y ys h = cc

-- A computation that does not look past what it takes fails on a proper prefix of what it takes.
pub cut_short :
    {A : Type 0} (m : Stream A) {bs : Bytes} {a : A}
    → IsLocal m
    → Reads m bs a
    → (front back : Bytes) (x : ℕ) → bs ≡ front ++ x ∷ back
    → (b : A) (rest : Bytes) → m front ≢ ok (b, rest)
cut_short m {bs} {a} local reads front back x split b rest h =
    let whole : m (front ++ x ∷ back) ≡ ok (a, []) = rw (append-nil, split) at (reads.apply []) in
    let longer : m (front ++ x ∷ back) ≡ ok (b, rest ++ x ∷ back) =
      local front (x ∷ back) b rest h in
    append-ne-nil rest x back (ap_rest (sym longer ∙ whole))

-- Equal streams that begin with an integer of the same width begin with the same integer.
pub uint_bytes_cancel :
    (order : ByteOrder) (w a b : ℕ) (s t : Bytes)
    → a < 256 ^ w
    → b < 256 ^ w
    → uint_bytes order w a ++ s ≡ uint_bytes order w b ++ t
    → (a ≡ b) × (s ≡ t)
uint_bytes_cancel order w a b s t ha hb e = read_once (
    sym ((read_uint-Reads order w a ha).apply s)
    ∙ ap (read_uint order w) e
    ∙ (read_uint-Reads order w b hb).apply t)
  where
    read_once : ◌≡◌ {A = Outcome (ℕ × Bytes)} (ok (a, s)) (ok (b, t)) → (a ≡ b) × (s ≡ t)
    read_once h = ground arith

pub parse-Reads :
    {A : Type 0} {m : Stream A} (bs : Bytes) {a : A} → Reads m bs a → Reads (parse bs m) [] a
unfolding parse
parse-Reads bs h = record { apply = λ rest. rw (rw append-nil at (h.apply []), parse) }

pub read_struct-Reads :
    {A : Type 0} {m : Stream A} {bs : Bytes} {a : A} (n : ℕ)
    → length bs ≡ n
    → Reads m bs a
    → Reads (read_struct n m) bs a
unfolding read_struct
read_struct-Reads {bs} n size h = >>=-Reads_last _ (read_full-Reads n bs size) (parse-Reads bs h)
