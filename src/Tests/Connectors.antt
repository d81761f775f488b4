-- ===== src/Tests/Connectors.antt =====
-- Connectors, run and witnessed.
use workforce_platform.Base.{◌≡◌, refl}
use workforce_platform.Base.Int.{◌+ℤ◌, ◌-ℤ◌}
use workforce_platform.Errors.{ok, err, err_invalid}
use workforce_platform.Connectors.Payloads.{
  get_field, set_field, listed, parse, parse_members, integer, max_safe,
}
use workforce_platform.Connectors.Manifests.{check}
use workforce_platform.Connectors.{
  Record, inventory, prepare, prep, adjust, adjust_by, add_quantity,
}
use workforce_platform.Connectors.Inventory.{IsAdjustment, prepare-IsAdjustment}
use workforce_platform.Tests.Samples.{stock, three_more}

abbrev shelf : Record
shelf = record { id = 30; version = 1; fields = stock 5 }

abbrev fuller_shelf : Record
fuller_shelf = record { id = 30; version = 2; fields = stock 8 }

adjusts : prepare inventory shelf three_more ≡ ok fuller_shelf
unfolding prepare prep check listed adjust parse parse_members adjust_by integer get_field set_field
    add_quantity ◌+ℤ◌ ◌-ℤ◌
adjusts = refl

abbrev full_shelf : Record
full_shelf = record { id = 30; version = 1; fields = stock max_safe }

refuses_overflow : prepare inventory full_shelf three_more ≡ err err_invalid
unfolding prepare prep check listed adjust parse parse_members adjust_by integer get_field set_field
    add_quantity ◌+ℤ◌ ◌-ℤ◌
refuses_overflow = refl

prepare-IsAdjustment_example : IsAdjustment three_more.payload (stock 5) (stock 8)
prepare-IsAdjustment_example = prepare-IsAdjustment shelf fuller_shelf three_more adjusts
