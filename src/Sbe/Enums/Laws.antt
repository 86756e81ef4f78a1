-- ===== src/Sbe/Enums/Laws.antt =====
-- The four enumeration types through Encode, Decode and RangeCheck.
use mathlib.Core.List.{Mem, map, not-mem-nil, mem-cons_self, mem-cons_of_mem, mem_of_ne_of_mem}
use zbc_go.Common.{
  Bool-cases, inl, inr, le→ltb, ==_iff, eq→==, ◌^◌, ℕ, ◌≤◌, ◌<◌, ◌≡◌, ◌↔◌, refl, arith, true,
  String, List, [], ◌∷◌, ◌++◌, All, length, ◌==◌,
}
use zbc_go.Wire.{Bytes, ok, unknown_value, ByteOrder, uint_bytes}
use zbc_go.Wire.Streams.{read_uint-Reads, write_uint-Writes}
use zbc_go.Wire.Integers.{length-uint_bytes}
use zbc_go.Sbe.Field.{EnumSpec, has_value, check_enum}
use zbc_go.Sbe.Field.Streams.{in_acting_version_zero}
use zbc_go.Sbe.Field.Checks.{accept-Passes}
use zbc_go.Sbe.Enums.{
  event_type_constants, subscription_type_constants, control_message_type_constants,
  error_code_constants,
}
use zbc_go.Sbe.Enums.{
  constant_in_acting_version, ConstantSpec, EnumMethods, methods, encode, decode, range_check,
}
use zbc_go.Sbe.Enums.{event_type_methods, error_code_methods}
use zbc_go.Sbe.Enums.{subscription_type_methods, control_message_type_methods}

-- The numbers of the constants, `NullValue` included.
abbrev numbers : EnumSpec → List ℕ
numbers s = map (λ v. v.1) s.values

has_value_iff :
    (vs : List (String × ℕ)) (e : ℕ) → (has_value vs e ≡ true) ↔ Mem e (map (λ v. v.1) vs)
unfolding has_value
has_value_iff [] e = (λ h. ground arith, λ h. absurd (not-mem-nil h))
has_value_iff ((name, x) ∷ vs) e =
    let (to, from) = has_value_iff vs e in
    elim (Bool-cases (e == x)) [
      | inl same ↦ rw (same, (==_iff e x).0 same) (λ h. mem-cons_self, λ h. refl)
      | inr other ↦ rw other (
        λ h. mem-cons_of_mem x (to h),
        λ h. from (mem_of_ne_of_mem (λ same. ground (arith, eq→== e x same)) h),
      )
    ]

-- What the methods do with one value.
pub record IsCodec (m : EnumMethods) (order : ByteOrder) (acting schema e : ℕ) (rest : Bytes)
    : Type 0 where
  pub round_trip :
      (bs : Bytes) × (m.encode order e [] ≡ ok (tt, bs))
      × (length bs ≡ m.encoded_length)
      × (m.decode order acting (bs ++ rest) ≡ ok (e, rest))
  pub checked : (m.range_check acting schema e ≡ ok tt) ↔ Mem e (numbers m.spec)
  pub available : All (λ c. constant_in_acting_version c acting ≡ true) m.constants

round_trip_lem :
    (order : ByteOrder) (acting e : ℕ) (rest : Bytes)
    → e < 2 ^ 8
    → (bs : Bytes) × (encode order e [] ≡ ok (tt, bs))
      × (length bs ≡ 1)
      × (decode order acting (bs ++ rest) ≡ ok (e, rest))
unfolding encode decode
round_trip_lem order acting e rest fits = (
  uint_bytes order 1 e,
  write_uint-Writes order 1 e [],
  length-uint_bytes order 1 e,
  (read_uint-Reads order 1 e fits).apply rest,
)

range_check_iff :
    (s : EnumSpec) (acting schema e : ℕ)
    → acting ≤ schema
    → (range_check s acting schema e ≡ ok tt) ↔ Mem e (numbers s)
unfolding range_check check_enum
range_check_iff s acting schema e known =
    let (to, from) = accept-Passes (has_value s.values e) (unknown_value s.name e) in
    let (mem, value) = has_value_iff s.values e in
    rw (le→ltb schema acting known) (λ h. mem (to h), λ h. from (value h))

methods-IsCodec :
    (s : EnumSpec) (constants : List ConstantSpec) (order : ByteOrder) (acting schema e : ℕ)
    (rest : Bytes)
    → e < 2 ^ 8
    → acting ≤ schema
    → All (λ c. constant_in_acting_version c acting ≡ true) constants
    → IsCodec (methods s constants) order acting schema e rest
methods-IsCodec s constants order acting schema e rest fits known available = record {
  round_trip = round_trip_lem order acting e rest fits;
  checked = range_check_iff s acting schema e known;
  available = available;
}

available_always :
    (cs : List ConstantSpec) (acting : ℕ)
    → All (λ c. c.since_version ≡ 0) cs
    → All (λ c. constant_in_acting_version c acting ≡ true) cs
unfolding constant_in_acting_version
available_always [] acting h = tt
available_always (c ∷ cs) acting h =
    (in_acting_version_zero c.since_version acting h.0, available_always cs acting h.1)

abbrev pub enumerations : List EnumMethods
enumerations =
    event_type_methods ∷ subscription_type_methods ∷ control_message_type_methods
    ∷ error_code_methods ∷ []

-- Of each of the four enumeration types, Encode writes a uint8 as EncodedLength bytes, Decode reads
-- these as that value, whatever follows them, in both byte orders and at any version, and RangeCheck,
-- at a version that the schema knows, accepts the value exactly if it is a constant of the type,
-- the null value included; each constant that has accessors is in every acting version.
pub enumerations-IsCodec :
    (order : ByteOrder) (acting schema e : ℕ) (rest : Bytes)
    → e < 2 ^ 8
    → acting ≤ schema
    → All (λ m. IsCodec m order acting schema e rest) enumerations
enumerations-IsCodec order acting schema e rest fits known = (
  methods-IsCodec _ _ order acting schema e rest fits known (
      available_always event_type_constants acting
        (refl, (refl, (refl, (refl, (refl, (refl, (refl, tt)))))))),
  (
    methods-IsCodec _ _ order acting schema e rest fits known
        (available_always subscription_type_constants acting (refl, (refl, tt))),
    (
      methods-IsCodec _ _ order acting schema e rest fits known (
          available_always control_message_type_constants acting
            (refl, (refl, (refl, (refl, tt))))),
      (
        methods-IsCodec _ _ order acting schema e rest fits known (
            available_always error_code_constants acting
              (refl, (refl, (refl, (refl, (refl, (refl, tt))))))),
        tt,
      ),
    ),
  ),
)
