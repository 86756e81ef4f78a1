-- ===== src/Sbe/SubscribedEvent/Range.antt =====
-- SubscribedEvent.RangeCheck against the ranges of the fields.
use zbc_go.Common.{ℕ, ◌-◌, ◌^◌, ◌≤◌, ◌≡◌, ◌↔◌, ◌⊎◌, refl, arith, true, List, [], ◌∷◌}
use zbc_go.Wire.{Outcome, ok}
use zbc_go.Sbe.Field.{has_value, check_field, check_enum}
use zbc_go.Sbe.Field.Checks.{all_checks-Passes, check_field-Passes, check_enum-Passes}
use zbc_go.Sbe.Enums.{subscription_type, event_type}
use zbc_go.Sbe.SubscribedEvent.{
  SubscribedEvent, range_check, partition_id_field, position_field, key_field, subscriber_key_field,
}

-- No field holds its null value, which Position lacks, and the enumerations hold a value that has a
-- name, their null value included.
pub record InRange (s : SubscribedEvent) : Type 0 where
  pub partition_id_known : s.partition_id ≤ 2 ^ 16 - 2
  pub position_known : s.position ≤ 2 ^ 64 - 1
  pub key_known : s.key ≤ 2 ^ 64 - 2
  pub subscriber_key_known : s.subscriber_key ≤ 2 ^ 64 - 2
  pub subscription_type_known : (s.subscription_type ≤ 1) ⊎ (s.subscription_type ≡ 255)
  pub event_type_known : (s.event_type ≤ 8) ⊎ (s.event_type ≡ 255)

subscription_type_iff :
    (x : ℕ) → (has_value subscription_type.values x ≡ true) ↔ ((x ≤ 1) ⊎ (x ≡ 255))
unfolding has_value
subscription_type_iff x = ground arith

event_type_iff : (x : ℕ) → (has_value event_type.values x ≡ true) ↔ ((x ≤ 8) ⊎ (x ≡ 255))
unfolding has_value
event_type_iff x = ground arith

abbrev checks : SubscribedEvent → List (Outcome (Unit {0}))
checks s =
    check_field partition_id_field 1 s.partition_id
    ∷ check_field position_field 1 s.position
    ∷ check_field key_field 1 s.key
    ∷ check_field subscriber_key_field 1 s.subscriber_key
    ∷ check_enum subscription_type 1 1 s.subscription_type
    ∷ check_enum event_type 1 1 s.event_type
    ∷ []

-- RangeCheck at the version of the schema accepts exactly the messages whose fields are in range.
pub SubscribedEvent-range_check_iff :
    (s : SubscribedEvent) → (range_check s 1 1 ≡ ok tt) ↔ InRange s
unfolding range_check
SubscribedEvent-range_check_iff s = (
  λ h.
      let (h1, (h2, (h3, (h4, (h5, (h6, _)))))) = (all_checks-Passes (checks s)).0 h in
      record {
        partition_id_known = ((check_field-Passes partition_id_field 1 s.partition_id refl).0 h1).1;
        position_known = ((check_field-Passes position_field 1 s.position refl).0 h2).1;
        key_known = ((check_field-Passes key_field 1 s.key refl).0 h3).1;
        subscriber_key_known =
            ((check_field-Passes subscriber_key_field 1 s.subscriber_key refl).0 h4).1;
        subscription_type_known =
            (subscription_type_iff s.subscription_type).0
              ((check_enum-Passes subscription_type s.subscription_type).0 h5);
        event_type_known =
            (event_type_iff s.event_type).0 ((check_enum-Passes event_type s.event_type).0 h6);
      },
  λ h. (all_checks-Passes (checks s)).1 (
    (check_field-Passes partition_id_field 1 s.partition_id refl).1
        (omega arith, h.partition_id_known),
    (
      (check_field-Passes position_field 1 s.position refl).1 (omega arith, h.position_known),
      (
        (check_field-Passes key_field 1 s.key refl).1 (omega arith, h.key_known),
        (
          (check_field-Passes subscriber_key_field 1 s.subscriber_key refl).1
              (omega arith, h.subscriber_key_known),
          (
            (check_enum-Passes subscription_type s.subscription_type).1
                ((subscription_type_iff s.subscription_type).1 h.subscription_type_known),
            (
              (check_enum-Passes event_type s.event_type).1
                  ((event_type_iff s.event_type).1 h.event_type_known),
              tt,
            ),
          ),
        ),
      ),
    ),
  ),
)
