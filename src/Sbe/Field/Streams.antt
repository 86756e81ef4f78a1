-- ===== src/Sbe/Field/Streams.antt =====
-- The calculus of Wire/Streams for the steps of Sbe/Field.
use zbc_go.Common.{ℕ, ◌-◌, ◌%◌, ◌^◌, ◌<◌, ◌≡◌, refl, arith}
use zbc_go.Common.{[], ◌∷◌, ◌++◌, append-nil, length, All, ltb}
use zbc_go.Common.{drop-append, inl, inr, Bool-cases, ◌&&◌}
use zbc_go.Common.{Bool, true, if◌then◌else◌}
use zbc_go.Wire.{Bytes, IsByte, Outcome, ok, err, panic, return, check}
use zbc_go.Wire.{ByteOrder, uint_bytes, read_uint, discard}
use zbc_go.Wire.Streams.{
  Reads, Writes, IsLocal, Takes, >>=-Reads, >>=-IsLocal, >>=-Takes, >>-Writes,
}
use zbc_go.Wire.Streams.{return-IsLocal, return-Takes, read_uint-Reads, read_uint-IsLocal}
use zbc_go.Wire.Streams.{read_uint-Takes, read_full-Reads, read_full-IsLocal, read_full-Takes}
use zbc_go.Wire.Streams.{write_uint-Writes, write_bytes-Writes}
use zbc_go.Sbe.Field.{FieldSpec, EnumFieldSpec, VarFieldSpec, MessageSpec, in_acting_version}
use zbc_go.Sbe.Field.{read_field, read_enum_field, read_var, read_var_field, write_var, extension}
use zbc_go.Sbe.Field.{skip_extension, check_if}

-- Variable data as it stands on the wire.
abbrev pub var_bytes : ByteOrder → Bytes → Bytes
var_bytes order bs = uint_bytes order 2 (length bs) ++ bs

pub in_acting_version_zero : (since v : ℕ) → since ≡ 0 → in_acting_version since v ≡ true
unfolding in_acting_version
in_acting_version_zero since v e = ground arith

module _ (f : FieldSpec) (order : ByteOrder) (w acting : ℕ) where
  read_field-eq : f.since_version ≡ 0 → read_field f order w acting ≡ read_uint order w
  unfolding read_field
  read_field-eq e = rw (in_acting_version_zero f.since_version acting e)

  pub read_field-Reads :
      (v : ℕ)
      → f.since_version ≡ 0
      → v < 256 ^ w
      → Reads (read_field f order w acting) (uint_bytes order w v) v
  read_field-Reads v e h = rw (read_field-eq e) (read_uint-Reads order w v h)

  pub read_field-IsLocal : f.since_version ≡ 0 → IsLocal (read_field f order w acting)
  read_field-IsLocal e = rw (read_field-eq e) (read_uint-IsLocal order w)

  pub read_field-Takes :
      f.since_version ≡ 0
      → Takes (read_field f order w acting) (λ v xs. (xs ≡ uint_bytes order w v) × (v < 256 ^ w))
  read_field-Takes e = rw (read_field-eq e) (read_uint-Takes order w)

module _ (f : EnumFieldSpec) (order : ByteOrder) (acting old : ℕ) where
  read_enum_field-eq : f.since_version ≡ 0 → read_enum_field f order acting old ≡ read_uint order 1
  unfolding read_enum_field
  read_enum_field-eq e = rw (in_acting_version_zero f.since_version acting e)

  pub read_enum_field-Reads :
      (v : ℕ)
      → f.since_version ≡ 0
      → v < 256
      → Reads (read_enum_field f order acting old) (uint_bytes order 1 v) v
  read_enum_field-Reads v e h = rw (read_enum_field-eq e) (read_uint-Reads order 1 v h)

  pub read_enum_field-IsLocal : f.since_version ≡ 0 → IsLocal (read_enum_field f order acting old)
  read_enum_field-IsLocal e = rw (read_enum_field-eq e) (read_uint-IsLocal order 1)

  pub read_enum_field-Takes :
      f.since_version ≡ 0
      → Takes (read_enum_field f order acting old) (λ v xs. (xs ≡ uint_bytes order 1 v) × (v < 256))
  read_enum_field-Takes e = rw (read_enum_field-eq e) (read_uint-Takes order 1)

module _ (order : ByteOrder) where
  read_var-Reads :
      (bs : Bytes) → length bs < 2 ^ 16 → Reads (read_var order) (var_bytes order bs) bs
  unfolding read_var
  read_var-Reads bs h =
      >>=-Reads _ (read_uint-Reads order 2 (length bs) h) (read_full-Reads (length bs) bs refl)

  read_var-IsLocal : IsLocal (read_var order)
  unfolding read_var
  read_var-IsLocal = >>=-IsLocal (read_uint order 2) _ (read_uint-IsLocal order 2) read_full-IsLocal

  read_var-Takes :
      Takes (read_var order) (λ a xs. (xs ≡ var_bytes order a) × (length a < 2 ^ 16) × All IsByte a)
  unfolding read_var
  read_var-Takes =
      >>=-Takes (read_uint order 2) _ _ _ (read_uint-Takes order 2)
        λ n xs (same, bound) s a rest hs h.
          let (ys, split, hrest, (value, size, bytes)) = read_full-Takes n s a rest hs h in
          (ys, split, hrest, ((cc), rw (value, size) bound, rw value bytes))

  pub write_var-Writes :
      (bs : Bytes) → length bs < 2 ^ 16 → Writes (write_var order bs) (var_bytes order bs)
  unfolding write_var
  write_var-Writes bs h =
      let fits : length bs % 2 ^ 16 ≡ length bs = omega arith in
      >>-Writes _ _ (uint_bytes order 2 (length bs)) bs
        (rw fits (write_uint-Writes order 2 (length bs))) (write_bytes-Writes bs)

module _ (f : VarFieldSpec) (order : ByteOrder) (acting : ℕ) (old : Bytes) where
  read_var_field-eq : f.since_version ≡ 0 → read_var_field f order acting old ≡ read_var order
  unfolding read_var_field
  read_var_field-eq e = rw (in_acting_version_zero f.since_version acting e)

  pub read_var_field-Reads :
      (bs : Bytes)
      → f.since_version ≡ 0
      → length bs < 2 ^ 16
      → Reads (read_var_field f order acting old) (var_bytes order bs) bs
  read_var_field-Reads bs e h = rw (read_var_field-eq e) (read_var-Reads order bs h)

  pub read_var_field-IsLocal : f.since_version ≡ 0 → IsLocal (read_var_field f order acting old)
  read_var_field-IsLocal e = rw (read_var_field-eq e) (read_var-IsLocal order)

  pub read_var_field-Takes :
      f.since_version ≡ 0
      → Takes
          (read_var_field f order acting old)
          (λ a xs. (xs ≡ var_bytes order a) × (length a < 2 ^ 16) × All IsByte a)
  read_var_field-Takes e = rw (read_var_field-eq e) (read_var-Takes order)

eq-nil_of_length : (xs : Bytes) → length xs ≡ 0 → xs ≡ []
eq-nil_of_length [] h = refl
eq-nil_of_length (x ∷ xs) h = absurd (omega arith)

-- At the version of its own schema a message has no extension.
pub extension-same : (m : MessageSpec) (block : ℕ) → m.schema_version ≡ 1 → extension m 1 block ≡ 0
unfolding extension
extension-same m block e = rw e

module _ (m : MessageSpec) (acting block : ℕ) where
  pub skip_extension-Reads :
      (xs : Bytes)
      → length xs ≡ extension m acting block
      → Reads (skip_extension m acting block) xs tt
  unfolding skip_extension extension discard
  skip_extension-Reads xs e = record { apply = skip }
    where
      skip : (rest : Bytes) → skip_extension m acting block (xs ++ rest) ≡ ok (tt, rest)
      skip rest = elim (Bool-cases (ltb m.schema_version acting && ltb m.block_length block)) [
        | inl newer ↦
            let size : length xs ≡ block - m.block_length = rw newer at e in
            rw (newer, ← size, drop-append)
        | inr known ↦ rw (known, eq-nil_of_length xs (rw known at e))
      ]

  -- Where the writer's schema is not newer, nothing is skipped.
  skip_extension-eq :
      extension m acting block ≡ 0 → (s : Bytes) → skip_extension m acting block s ≡ ok (tt, s)
  unfolding skip_extension extension discard
  skip_extension-eq e s =
      elim (Bool-cases (ltb m.schema_version acting && ltb m.block_length block)) [
        | inl newer ↦ let size : block - m.block_length ≡ 0 = rw newer at e in rw (newer, size)
        | inr known ↦ rw known
      ]

  pub skip_extension-IsLocal :
      extension m acting block ≡ 0 → IsLocal (skip_extension m acting block)
  skip_extension-IsLocal e s more a rest h =
      let h' : return tt s ≡ ok (a, rest) = rw (skip_extension-eq e) at h in
      rw (skip_extension-eq e) (return-IsLocal tt s more a rest h')

  pub skip_extension-Takes :
      extension m acting block ≡ 0 → Takes (skip_extension m acting block) (λ _ xs. xs ≡ [])
  skip_extension-Takes e s a rest hs h =
      return-Takes tt (λ _ xs. xs ≡ []) refl s a rest hs (rw (skip_extension-eq e) at h)

check-eq-ok :
    (c : Outcome (Unit {0})) (s : Bytes) (a : Unit {0}) (rest : Bytes)
    → check c s ≡ ok (a, rest)
    → (c ≡ ok tt) × (s ≡ rest)
check-eq-ok (ok _) s a rest h = (refl, ground arith)
check-eq-ok (err e) s a rest h = cc
check-eq-ok (panic p) s a rest h = cc

module _ (b : Bool) (c : Outcome (Unit {0})) where
  check_if-eq : (b ≡ true → c ≡ ok tt) → (s : Bytes) → check_if b c s ≡ ok (tt, s)
  check_if-eq e s = elim (Bool-cases b) [ inl on ↦ rw (on, e on) | inr off ↦ rw off ]

  pub check_if-Reads : (b ≡ true → c ≡ ok tt) → Reads (check_if b c) [] tt
  check_if-Reads e = record { apply = check_if-eq e }

  pub check_if-Writes : (b ≡ true → c ≡ ok tt) → Writes (check_if b c) []
  check_if-Writes e s = rw append-nil (check_if-eq e s)

  pub check_if-IsLocal : IsLocal (check_if b c)
  check_if-IsLocal s more a rest h =
      let (passed, same) = check-eq-ok (if b then c else ok tt) s a rest h in rw (passed, same)

  pub check_if-Takes : Takes (check_if b c) (λ _ xs. (xs ≡ []) × (b ≡ true → c ≡ ok tt))
  check_if-Takes s a rest hs h =
      let (passed, same) = check-eq-ok (if b then c else ok tt) s a rest h in
      ([], same, rw (← same) hs, (refl, λ on. rw on at passed))
