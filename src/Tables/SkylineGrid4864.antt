-- ===== src/Tables/SkylineGrid4864.antt =====
-- sensor_data/skyline_sensors.py: groups of the Skyline inverters.
use hh_modbus.Base.{List, [], ◌∷◌, ◌++◌, true, some}
use hh_modbus.Inverter.{DataType, PollSpeed}
use hh_modbus.Groups.{RegisterType}
use hh_modbus.Sensors.{Entry, entry, dec, kilo_watt, other}
use hh_modbus.Tables.{GroupTable, group}

abbrev pub skyline_grid_entries_4864 : List Entry
skyline_grid_entries_4864 =
    record (entry "skyline_grid_load" 4864 (4865 ∷ [])) {
      multiplier = dec 1 4;
      data_type = some DataType.s32;
      unit = some kilo_watt;
    }
    ∷ record (entry "skyline_reserve_4866" 4866 []) { multiplier = dec 0 0; hidden = true }
    ∷ record (entry "skyline_reserve_4867" 4867 []) { multiplier = dec 0 0; hidden = true }
    ∷ record (entry "skyline_reserve_4868" 4868 []) { multiplier = dec 0 0; hidden = true }
    ∷ record (entry "skyline_reserve_4869" 4869 []) { multiplier = dec 0 0; hidden = true }
    ∷ record (entry "skyline_grid_energy_in_total" 4870 (4871 ∷ [])) {
      multiplier = dec 1 2;
      unit = some other;
    }
    ∷ record (entry "skyline_grid_energy_out_total" 4872 (4873 ∷ [])) {
      multiplier = dec 1 2;
      unit = some other;
    }
    ∷ record (entry "skyline_grid_tied_load" 4874 (4875 ∷ [])) {
      multiplier = dec 1 4;
      data_type = some DataType.s32;
      unit = some kilo_watt;
    }
    ∷ record (entry "skyline_reserve_4876" 4876 []) { multiplier = dec 0 0; hidden = true }
    ∷ record (entry "skyline_reserve_4877" 4877 []) { multiplier = dec 0 0; hidden = true }
    ∷ record (entry "skyline_reserve_4878" 4878 []) { multiplier = dec 0 0; hidden = true }
    ∷ record (entry "skyline_reserve_4879" 4879 []) { multiplier = dec 0 0; hidden = true }
    ∷ record (entry "skyline_reserve_4880" 4880 []) { multiplier = dec 0 0; hidden = true }
    ∷ record (entry "skyline_reserve_4881" 4881 []) { multiplier = dec 0 0; hidden = true }
    ∷ record (entry "skyline_reserve_4882" 4882 []) { multiplier = dec 0 0; hidden = true }
    ∷ record (entry "skyline_reserve_4883" 4883 []) { multiplier = dec 0 0; hidden = true }
    ∷ record (entry "skyline_reserve_4884" 4884 []) { multiplier = dec 0 0; hidden = true }
    ∷ record (entry "skyline_reserve_4885" 4885 []) { multiplier = dec 0 0; hidden = true }
    ∷ []

abbrev pub skyline_grid_entries_4886 : List Entry
skyline_grid_entries_4886 =
    record (entry "skyline_reserve_4886" 4886 []) { multiplier = dec 0 0; hidden = true }
    ∷ record (entry "skyline_reserve_4887" 4887 []) { multiplier = dec 0 0; hidden = true }
    ∷ record (entry "skyline_reserve_4888" 4888 []) { multiplier = dec 0 0; hidden = true }
    ∷ record (entry "skyline_reserve_4889" 4889 []) { multiplier = dec 0 0; hidden = true }
    ∷ record (entry "skyline_grid_voltage" 4890 []) { multiplier = dec 1 1; unit = some other }
    ∷ record (entry "skyline_reserve_4891" 4891 []) { multiplier = dec 0 0; hidden = true }
    ∷ record (entry "skyline_reserve_4892" 4892 []) { multiplier = dec 0 0; hidden = true }
    ∷ record (entry "skyline_grid_current" 4893 (4894 ∷ [])) {
      multiplier = dec 1 2;
      data_type = some DataType.s32;
      unit = some other;
    }
    ∷ record (entry "skyline_reserve_4895" 4895 []) { multiplier = dec 0 0; hidden = true }
    ∷ record (entry "skyline_reserve_4896" 4896 []) { multiplier = dec 0 0; hidden = true }
    ∷ record (entry "skyline_reserve_4897" 4897 []) { multiplier = dec 0 0; hidden = true }
    ∷ record (entry "skyline_reserve_4898" 4898 []) { multiplier = dec 0 0; hidden = true }
    ∷ record (entry "skyline_reserve_4899" 4899 []) { multiplier = dec 0 0; hidden = true }
    ∷ record (entry "skyline_reserve_4900" 4900 []) { multiplier = dec 0 0; hidden = true }
    ∷ record (entry "skyline_reserve_4901" 4901 []) { multiplier = dec 0 0; hidden = true }
    ∷ record (entry "skyline_reserve_4902" 4902 []) { multiplier = dec 0 0; hidden = true }
    ∷ record (entry "skyline_reserve_4903" 4903 []) { multiplier = dec 0 0; hidden = true }
    ∷ record (entry "skyline_reserve_4904" 4904 []) { multiplier = dec 0 0; hidden = true }
    ∷ record (entry "skyline_reserve_4905" 4905 []) { multiplier = dec 0 0; hidden = true }
    ∷ []

abbrev pub skyline_grid_entries_4906 : List Entry
skyline_grid_entries_4906 =
    record (entry "skyline_reserve_4906" 4906 []) { multiplier = dec 0 0; hidden = true }
    ∷ record (entry "skyline_reserve_4907" 4907 []) { multiplier = dec 0 0; hidden = true }
    ∷ record (entry "skyline_reserve_4908" 4908 []) { multiplier = dec 0 0; hidden = true }
    ∷ record (entry "skyline_reserve_4909" 4909 []) { multiplier = dec 0 0; hidden = true }
    ∷ record (entry "skyline_reserve_4910" 4910 []) { multiplier = dec 0 0; hidden = true }
    ∷ record (entry "skyline_reserve_4911" 4911 []) { multiplier = dec 0 0; hidden = true }
    ∷ record (entry "skyline_reserve_4912" 4912 []) { multiplier = dec 0 0; hidden = true }
    ∷ record (entry "skyline_reserve_4913" 4913 []) { multiplier = dec 0 0; hidden = true }
    ∷ record (entry "skyline_grid_energy_in_today" 4914 (4915 ∷ [])) {
      multiplier = dec 1 2;
      unit = some other;
    }
    ∷ record (entry "skyline_grid_energy_out_today" 4916 (4917 ∷ [])) {
      multiplier = dec 1 2;
      unit = some other;
    }
    ∷ []

abbrev pub skyline_grid_4864 : GroupTable
skyline_grid_4864 = record (group 4864) {
  poll_speed = some PollSpeed.fast;
  register_type = some RegisterType.holding;
  entities = skyline_grid_entries_4864 ++ skyline_grid_entries_4886 ++ skyline_grid_entries_4906;
}
