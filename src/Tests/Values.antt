-- ===== src/Tests/Values.antt =====
-- Words, bits, features and profiles.
use hh_modbus.Base.{◌≡◌, refl, true, false, [], ◌∷◌, none, some, elem}
use hh_modbus.Select.{SelectOption, bit_matches, option_bits}
use hh_modbus.Select.Choice.{bit_matches-option_bits}
use hh_modbus.Profile.{
  EntityDef, GroupDef, extreme, full, registers_declared_by, select_groups, feature_allows,
  group_in_poll_profile,
}
use hh_modbus.Profile.Selection.{select_groups_mono}

abbrev battery_group : GroupDef
battery_group = record {
  feature_requirement = [];
  essential = false;
  extreme = true;
  extreme_battery = false;
  extreme_smart_port = false;
  entities = record { registers = 33139 ∷ [] } ∷ [];
}

abbrev power_factor : EntityDef
power_factor = record { registers = 33139 ∷ 90001 ∷ [] }

polled :
    elem 33139 (registers_declared_by (select_groups [] extreme false false (battery_group ∷ [])))
    ≡ true
unfolding registers_declared_by select_groups feature_allows group_in_poll_profile
polled = refl

select_groups_mono_example :
    (elem 33139 (registers_declared_by (select_groups [] extreme true true (battery_group ∷ [])))
      ≡ true)
    × (elem 33139 (registers_declared_by (select_groups [] full false false (battery_group ∷ [])))
        ≡ true)
select_groups_mono_example =
    select_groups_mono [] extreme false false (battery_group ∷ []) 33139 polled

-- Bit 1 of register 43110, with bit 0, and without bits 6 and 11.
abbrev timed_charge : SelectOption
timed_charge = record {
  name = 1;
  on_value = none;
  bit_position = some 1;
  conflicts_with = 6 ∷ 11 ∷ [];
  requires = 0 ∷ [];
}

bit_matches-option_bits_example :
    bit_matches true timed_charge 1 (option_bits timed_charge 1 2113) ≡ true
bit_matches-option_bits_example = bit_matches-option_bits timed_charge 1 2113 true
