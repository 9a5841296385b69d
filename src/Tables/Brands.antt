-- ===== src/Tables/Brands.antt =====
-- sensor_data and __init__.py: the register tables as the setup uses them.
use hh_modbus.Base.{Bool, true, false, List, [], ◌∷◌, ◌++◌}
use hh_modbus.Inverter.{InverterType}
use hh_modbus.Sensors.{Entry}
use hh_modbus.Tables.{GroupTable}
use hh_modbus.Tables.GivEnergyHolding0.{givenergy_holding_0}
use hh_modbus.Tables.GivEnergyInput0.{givenergy_input_0}
use hh_modbus.Tables.Hybrid33000.{
  hybrid_33000, hybrid_35000, hybrid_33022, hybrid_33029, hybrid_33041, hybrid_33049,
}
use hh_modbus.Tables.Hybrid33070.{hybrid_33070, hybrid_33116, hybrid_33126}
use hh_modbus.Tables.Hybrid33147.{hybrid_33132, hybrid_33161, hybrid_33243, hybrid_34243}
use hh_modbus.Tables.Hybrid33300.{hybrid_33300, hybrid_33316, hybrid_33512, hybrid_33530}
use hh_modbus.Tables.Hybrid33580.{hybrid_33580, hybrid_34445, hybrid_34496}
use hh_modbus.Tables.Hybrid34328.{hybrid_34328, hybrid_34391, hybrid_33251, hybrid_33289}
use hh_modbus.Tables.Hybrid34504.{
  hybrid_34504, hybrid_44100, hybrid_43070, hybrid_43081, hybrid_44280,
}
use hh_modbus.Tables.Hybrid43019.{hybrid_43007, hybrid_43073, hybrid_43195, hybrid_43128}
use hh_modbus.Tables.Hybrid43141.{hybrid_43141, hybrid_43173}
use hh_modbus.Tables.Hybrid43361.{hybrid_43361}
use hh_modbus.Tables.Hybrid43483.{
  hybrid_43483, hybrid_43487, hybrid_43249, hybrid_43291, hybrid_43302, hybrid_43110, hybrid_43117,
  hybrid_43282, hybrid_33200, hybrid_34502,
}
use hh_modbus.Tables.Hybrid43731.{hybrid_43707}
use hh_modbus.Tables.Hybrid43762.{hybrid_43750, hybrid_43815, hybrid_43340}
use hh_modbus.Tables.Sigenergy30000.{sigenergy_30000, sigenergy_30015}
use hh_modbus.Tables.Sigenergy30086.{sigenergy_30064, sigenergy_30200}
use hh_modbus.Tables.SkylineBattery8192.{skyline_battery_8192}
use hh_modbus.Tables.SkylineDcdc6684.{skyline_dcdc_6684}
use hh_modbus.Tables.SkylineGrid4864.{skyline_grid_4864}
use hh_modbus.Tables.SkylineIdentity6656.{skyline_identity_6656, skyline_identity_6672}
use hh_modbus.Tables.SkylinePower4097.{skyline_power_4097}
use hh_modbus.Tables.SkylineVersion6694.{skyline_version_6694, skyline_version_6752}
use hh_modbus.Tables.SolarEdge40071.{solaredge_40071}
use hh_modbus.Tables.SolarEdgeInfo40004.{solaredge_info_40004}
use hh_modbus.Tables.String2999.{string_2999, string_3033, string_3089, string_3179}
use hh_modbus.Tables.String3250.{
  string_3250, string_3280, string_36013, string_36022, string_36028, string_36050,
}
use hh_modbus.Tables.SunsynkHolding16.{
  sunsynk_holding_16, sunsynk_holding_43, sunsynk_holding_53, sunsynk_holding_200,
  sunsynk_holding_217,
}
use hh_modbus.Tables.SunsynkHolding243.{
  sunsynk_holding_243, sunsynk_holding_250, sunsynk_holding_256, sunsynk_holding_262,
}
use hh_modbus.Tables.SunsynkHolding268.{
  sunsynk_holding_268, sunsynk_holding_312, sunsynk_holding_325,
}
use hh_modbus.Tables.SunsynkInput0.{
  sunsynk_input_0, sunsynk_input_59, sunsynk_input_79, sunsynk_input_80, sunsynk_input_109,
}
use hh_modbus.Tables.SunsynkInput150.{sunsynk_input_150, sunsynk_input_314}
use hh_modbus.Tables.HybridDerived.{hybrid_sensors_derived}
use hh_modbus.Tables.StringDerived.{string_sensors_derived}

abbrev pub hybrid_sensors : List GroupTable
hybrid_sensors =
    hybrid_33000 ∷ hybrid_35000 ∷ hybrid_33022 ∷ hybrid_33029 ∷ hybrid_33041 ∷ hybrid_33049
    ∷ hybrid_33070 ∷ hybrid_33116 ∷ hybrid_33126 ∷ hybrid_33132 ∷ hybrid_33161 ∷ hybrid_33243
    ∷ hybrid_34243 ∷ hybrid_34328 ∷ hybrid_34391 ∷ hybrid_33251 ∷ hybrid_33289 ∷ hybrid_33300
    ∷ hybrid_33316 ∷ hybrid_33512 ∷ hybrid_33530 ∷ hybrid_33580 ∷ hybrid_34445 ∷ hybrid_34496
    ∷ hybrid_43007 ∷ hybrid_43073 ∷ hybrid_43195 ∷ hybrid_43128 ∷ hybrid_43141 ∷ hybrid_43173
    ∷ hybrid_43361 ∷ hybrid_43707 ∷ hybrid_43750 ∷ hybrid_43815 ∷ hybrid_43340 ∷ hybrid_43483
    ∷ hybrid_43487 ∷ hybrid_43249 ∷ hybrid_43291 ∷ hybrid_43302 ∷ hybrid_43110 ∷ hybrid_43117
    ∷ hybrid_43282 ∷ hybrid_33200 ∷ hybrid_34502 ∷ hybrid_34504 ∷ hybrid_44100 ∷ hybrid_43070
    ∷ hybrid_43081 ∷ hybrid_44280 ∷ []

abbrev pub string_sensors : List GroupTable
string_sensors =
    string_2999 ∷ string_3033 ∷ string_3089 ∷ string_3179 ∷ string_3250 ∷ string_3280 ∷ string_36013
    ∷ string_36022 ∷ string_36028 ∷ string_36050 ∷ []

abbrev pub sunsynk_input_sensors : List GroupTable
sunsynk_input_sensors =
    sunsynk_input_0 ∷ sunsynk_input_59 ∷ sunsynk_input_79 ∷ sunsynk_input_80 ∷ sunsynk_input_109
    ∷ sunsynk_input_150 ∷ sunsynk_input_314 ∷ []

abbrev pub sunsynk_holding_sensors : List GroupTable
sunsynk_holding_sensors =
    sunsynk_holding_16 ∷ sunsynk_holding_43 ∷ sunsynk_holding_53 ∷ sunsynk_holding_200
    ∷ sunsynk_holding_217 ∷ sunsynk_holding_243 ∷ sunsynk_holding_250 ∷ sunsynk_holding_256
    ∷ sunsynk_holding_262 ∷ sunsynk_holding_268 ∷ sunsynk_holding_312 ∷ sunsynk_holding_325 ∷ []

abbrev pub skyline_identity_sensors : List GroupTable
skyline_identity_sensors = skyline_identity_6656 ∷ skyline_identity_6672 ∷ []

abbrev pub skyline_version_sensors : List GroupTable
skyline_version_sensors = skyline_version_6694 ∷ skyline_version_6752 ∷ []

abbrev pub skyline_dcdc_version_sensors : List GroupTable
skyline_dcdc_version_sensors = skyline_dcdc_6684 ∷ []

abbrev pub skyline_inverter_power_sensors : List GroupTable
skyline_inverter_power_sensors = skyline_power_4097 ∷ []

abbrev pub skyline_grid_sensors : List GroupTable
skyline_grid_sensors = skyline_grid_4864 ∷ []

abbrev pub skyline_battery_sensors : List GroupTable
skyline_battery_sensors = skyline_battery_8192 ∷ []

abbrev pub sigenergy_plant_sensors : List GroupTable
sigenergy_plant_sensors = sigenergy_30000 ∷ sigenergy_30015 ∷ sigenergy_30064 ∷ sigenergy_30200 ∷ []

abbrev pub solaredge_info_sensors : List GroupTable
solaredge_info_sensors = solaredge_info_40004 ∷ []

abbrev pub solaredge_inverter_sensors : List GroupTable
solaredge_inverter_sensors = solaredge_40071 ∷ []

abbrev pub givenergy_input_sensors : List GroupTable
givenergy_input_sensors = givenergy_input_0 ∷ []

abbrev pub givenergy_holding_sensors : List GroupTable
givenergy_holding_sensors = givenergy_holding_0 ∷ []

abbrev pub sunsynk_single_phase_sensors : List GroupTable
sunsynk_single_phase_sensors = sunsynk_input_sensors ++ sunsynk_holding_sensors

abbrev pub skyline_sensors : List GroupTable
skyline_sensors =
    skyline_identity_sensors ++ skyline_version_sensors ++ skyline_dcdc_version_sensors
    ++ skyline_inverter_power_sensors ++ skyline_grid_sensors ++ skyline_battery_sensors

abbrev pub duracell_g3_sensors : List GroupTable
duracell_g3_sensors =
    skyline_identity_sensors ++ skyline_version_sensors ++ skyline_inverter_power_sensors
    ++ skyline_grid_sensors ++ skyline_battery_sensors

abbrev pub solaredge_sensors : List GroupTable
solaredge_sensors = solaredge_info_sensors ++ solaredge_inverter_sensors

abbrev pub givenergy_sensors : List GroupTable
givenergy_sensors = givenergy_input_sensors ++ givenergy_holding_sensors

-- `InverterBrand`
pub data InverterBrand : Type 0 where
  solis sunsynk givenergy sigenergy solaredge skyline duracell : InverterBrand

-- The tables of `_setup_solis_entry`, by the inverter's type.
unfoldable pub solis_sensors : InverterType → List GroupTable
solis_sensors InverterType.string = string_sensors
solis_sensors InverterType.grid = string_sensors
solis_sensors _ = hybrid_sensors

unfoldable pub solis_sensors_derived : InverterType → List Entry
solis_sensors_derived InverterType.string = string_sensors_derived
solis_sensors_derived InverterType.grid = string_sensors_derived
solis_sensors_derived _ = hybrid_sensors_derived

-- The table that a brand's setup imports.
unfoldable pub brand_sensors : InverterBrand → InverterType → List GroupTable
unfolding solis_sensors
brand_sensors solis t = solis_sensors t
brand_sensors sunsynk t = sunsynk_single_phase_sensors
brand_sensors givenergy t = givenergy_sensors
brand_sensors sigenergy t = sigenergy_plant_sensors
brand_sensors solaredge t = solaredge_sensors
brand_sensors skyline t = skyline_sensors
brand_sensors duracell t = duracell_g3_sensors

abbrev pub is_sunsynk : InverterBrand → Bool
is_sunsynk sunsynk = true
is_sunsynk _ = false
