-- ===== src/Tables/SunsynkInput150.antt =====
-- sensor_data/sunsynk_single_phase.py: input registers of the Sunsynk inverters.
use hh_modbus.Base.{List, [], ◌∷◌, ◌++◌, true, some}
use hh_modbus.Base.Int.{negsuc}
use hh_modbus.Inverter.{DataType, PollSpeed}
use hh_modbus.Groups.{RegisterType}
use hh_modbus.Sensors.{Entry, entry, dec, percentage, watt, other}
use hh_modbus.Tables.{GroupTable, group}

abbrev pub sunsynk_input_entries_150 : List Entry
sunsynk_input_entries_150 =
    record (entry "sunsynk_grid_voltage" 150 []) { multiplier = dec 1 1; unit = some other }
    ∷ record (entry "sunsynk_reserve_151" 151 []) { multiplier = dec 0 0; hidden = true }
    ∷ record (entry "sunsynk_reserve_152" 152 []) { multiplier = dec 0 0; hidden = true }
    ∷ record (entry "sunsynk_reserve_153" 153 []) { multiplier = dec 0 0; hidden = true }
    ∷ record (entry "sunsynk_inverter_voltage" 154 []) { multiplier = dec 1 1; unit = some other }
    ∷ record (entry "sunsynk_reserve_155" 155 []) { multiplier = dec 0 0; hidden = true }
    ∷ record (entry "sunsynk_reserve_156" 156 []) { multiplier = dec 0 0; hidden = true }
    ∷ record (entry "sunsynk_reserve_157" 157 []) { multiplier = dec 0 0; hidden = true }
    ∷ record (entry "sunsynk_reserve_158" 158 []) { multiplier = dec 0 0; hidden = true }
    ∷ record (entry "sunsynk_reserve_159" 159 []) { multiplier = dec 0 0; hidden = true }
    ∷ record (entry "sunsynk_grid_current_l1" 160 []) { multiplier = dec 1 2; unit = some other }
    ∷ record (entry "sunsynk_grid_current_l2" 161 []) { multiplier = dec 1 2; unit = some other }
    ∷ record (entry "sunsynk_reserve_162" 162 []) { multiplier = dec 0 0; hidden = true }
    ∷ record (entry "sunsynk_reserve_163" 163 []) { multiplier = dec 0 0; hidden = true }
    ∷ record (entry "sunsynk_inverter_current" 164 []) { multiplier = dec 1 2; unit = some other }
    ∷ record (entry "sunsynk_reserve_165" 165 []) { multiplier = dec 0 0; hidden = true }
    ∷ record (entry "sunsynk_aux_power" 166 []) {
      multiplier = record { mantissa = negsuc 0; exponent = 0 };
      unit = some watt;
    }
    ∷ record (entry "sunsynk_grid_ld_power" 167 []) {
      multiplier = record { mantissa = negsuc 0; exponent = 0 };
      unit = some watt;
    }
    ∷ []

abbrev pub sunsynk_input_entries_168 : List Entry
sunsynk_input_entries_168 =
    record (entry "sunsynk_grid_l2_power" 168 []) {
      multiplier = record { mantissa = negsuc 0; exponent = 0 };
      unit = some watt;
    }
    ∷ record (entry "sunsynk_grid_power" 169 []) {
      multiplier = record { mantissa = negsuc 0; exponent = 0 };
      unit = some watt;
    }
    ∷ record (entry "sunsynk_reserve_170" 170 []) { multiplier = dec 0 0; hidden = true }
    ∷ record (entry "sunsynk_reserve_171" 171 []) { multiplier = dec 0 0; hidden = true }
    ∷ record (entry "sunsynk_grid_ct_power" 172 []) {
      multiplier = record { mantissa = negsuc 0; exponent = 0 };
      unit = some watt;
    }
    ∷ record (entry "sunsynk_reserve_173" 173 []) { multiplier = dec 0 0; hidden = true }
    ∷ record (entry "sunsynk_reserve_174" 174 []) { multiplier = dec 0 0; hidden = true }
    ∷ record (entry "sunsynk_inverter_power" 175 []) {
      multiplier = record { mantissa = negsuc 0; exponent = 0 };
      unit = some watt;
    }
    ∷ record (entry "sunsynk_load_l1_power" 176 []) {
      multiplier = record { mantissa = negsuc 0; exponent = 0 };
      unit = some watt;
    }
    ∷ record (entry "sunsynk_load_l2_power" 177 []) {
      multiplier = record { mantissa = negsuc 0; exponent = 0 };
      unit = some watt;
    }
    ∷ record (entry "sunsynk_load_power" 178 []) {
      multiplier = record { mantissa = negsuc 0; exponent = 0 };
      unit = some watt;
    }
    ∷ record (entry "sunsynk_reserve_179" 179 []) { multiplier = dec 0 0; hidden = true }
    ∷ record (entry "sunsynk_reserve_180" 180 []) { multiplier = dec 0 0; hidden = true }
    ∷ record (entry "sunsynk_aux_voltage" 181 []) { multiplier = dec 1 1; unit = some other }
    ∷ record (entry "sunsynk_battery_temperature" 182 []) {
      multiplier = dec 1 1;
      unit = some other;
    }
    ∷ record (entry "sunsynk_battery_voltage" 183 []) { multiplier = dec 1 2; unit = some other }
    ∷ []

abbrev pub sunsynk_input_entries_184 : List Entry
sunsynk_input_entries_184 =
    record (entry "sunsynk_battery_soc" 184 []) { multiplier = dec 1 0; unit = some percentage }
    ∷ record (entry "sunsynk_reserve_185" 185 []) { multiplier = dec 0 0; hidden = true }
    ∷ record (entry "sunsynk_pv1_power" 186 []) {
      multiplier = record { mantissa = negsuc 0; exponent = 0 };
      unit = some watt;
    }
    ∷ record (entry "sunsynk_pv2_power" 187 []) {
      multiplier = record { mantissa = negsuc 0; exponent = 0 };
      unit = some watt;
    }
    ∷ record (entry "sunsynk_pv3_power" 188 []) {
      multiplier = record { mantissa = negsuc 0; exponent = 0 };
      unit = some watt;
    }
    ∷ record (entry "sunsynk_reserve_189" 189 []) { multiplier = dec 0 0; hidden = true }
    ∷ record (entry "sunsynk_battery_power" 190 []) {
      multiplier = record { mantissa = negsuc 0; exponent = 0 };
      data_type = some DataType.s16;
      unit = some watt;
    }
    ∷ record (entry "sunsynk_battery_current" 191 []) {
      multiplier = record { mantissa = negsuc 0; exponent = 2 };
      data_type = some DataType.s16;
      unit = some other;
    }
    ∷ record (entry "sunsynk_load_frequency" 192 []) { multiplier = dec 1 2; unit = some other }
    ∷ record (entry "sunsynk_inverter_frequency" 193 []) { multiplier = dec 1 2; unit = some other }
    ∷ record (entry "sunsynk_grid_connected" 194 []) { multiplier = dec 0 0 }
    ∷ record (entry "sunsynk_reserve_195" 195 []) { multiplier = dec 0 0; hidden = true }
    ∷ record (entry "sunsynk_aux_frequency" 196 []) { multiplier = dec 1 1; unit = some other }
    ∷ []

abbrev pub sunsynk_input_150 : GroupTable
sunsynk_input_150 = record (group 150) {
  poll_speed = some PollSpeed.fast;
  register_type = some RegisterType.input;
  entities = sunsynk_input_entries_150 ++ sunsynk_input_entries_168 ++ sunsynk_input_entries_184;
}

abbrev pub sunsynk_input_314 : GroupTable
sunsynk_input_314 = record (group 314) {
  poll_speed = some PollSpeed.slow;
  register_type = some RegisterType.input;
  entities =
      record (entry "sunsynk_battery_charge_limit_current" 314 []) {
        multiplier = record { mantissa = negsuc 0; exponent = 0 };
        unit = some other;
      }
      ∷ record (entry "sunsynk_battery_discharge_limit_current" 315 []) {
        multiplier = record { mantissa = negsuc 0; exponent = 0 };
        unit = some other;
      }
      ∷ [];
}
