-- ===== src/Lib.antt =====
-- HH Modbus Control: the Home Assistant integration of custom_components/hh_modbus_control, which
-- reads and writes the registers of a solar inverter over Modbus.
--
-- The program's parts and how they meet. A `DataRetrieval` polls one inverter: its watchdog keeps the
-- link up, and its batches read the inverter's sensor groups block by block through the
-- `ModbusController`, filter spikes, and put the values in the register cache, from which the
-- entities read. A block that the inverter refuses is bisected for the bad register, and its group is
-- split. Entities and services write through the controller's queue. Controllers on the same link
-- share a client of `ModbusClientManager`, which also spaces the frames.
--
-- Base          lists, options, tests on numbers and integers, for all modules.
-- Words         helpers.py: words and bits (hex_to_ascii, split_s32, combine_u32, combine_u32_le,
--               split_s32_le, set_bit, get_bit_bool), and _s32_words of __init__.py.
-- Inverter      data/enums.py and data/solis_config.py: models, options and features.
-- Profile       helpers.py and _setup_solis_entry of __init__.py: which groups and derived sensors a
--               poll profile keeps.
-- Groups        sensors/solis_base_sensor.py: SolisSensorGroup and
--               cluster_sensors_by_contiguous_registers.
-- Cache         helpers.py: register_cache_key, cache_save, cache_get.
-- Controller    modbus_controller.py: connect, reads, writes, the write queue (Controller.Queue, a
--               relation of steps) and replace_sensor_group.
-- Retrieval     data_retrieval.py: spike_filtering and the application of a block; in its children
--               the bisection (Bisect), the recovery of a group (Recovery) and the batches (Batch).
-- Watchdog      data_retrieval.py: check_connection and its repair issues, and what async_stop does to
--               them.
-- Manager       client_manager.py: reference counts and frame spacing.
-- Dispatch      __init__.py: the dispatch, schedule, stop and force services, the resolution of
--               their target, and the services that write one register and read some (Registers).
-- Switch        sensors/solis_binary_sensor.py: SolisBinaryEntity.
-- Select        sensors/solis_select_entity.py: the current option and the choice of one.
-- Sensors       sensors/solis_base_sensor.py: SolisBaseSensor and the entries of the register tables;
--               in its children the sensor that an entry becomes (Build), the decoding (Values),
--               solis_sensor.py (Entity), solis_number_sensor.py (Number), clock_drift_test of
--               helpers.py (Clock), and computed values of solis_derived_sensor.py (Derived, Flows).
-- Tables        sensor_data: the groups of every brand's sensors as data, group by group, and the table
--               that the setup of a brand uses (Brands).
-- TimeSlot      time.py: SolisTimeEntity; __init__.py: the service that sets one (Service).
-- Migration     __init__.py: async_migrate_entry, _migrate_essential_only_to_poll_profile, and one key of
--               async_migrate_dict_unique_ids (Duplicates).
-- Tests         each result at a concrete input.
--
-- The state of a component is a record with the fields of the Python object that its operations read
-- or write, passed from step to step. The pymodbus client is the record `Client` of functions: an
-- answer may be anything, may depend on all that was sent before, and says what else has happened by
-- then (the link lost, the controller closed, the time). Log lines are left out, except for one that
-- raises. A Modbus register is a natural number below 2 ^ 16; Python's integers are unbounded, and
-- those that may be negative are ℤ.
--
-- Fuel and bounds. The bisection has the count of registers as fuel, which bounds its depth, since
-- each half is smaller. The recovery has the 25 levels that the source allows. The retry loop of the
-- watchdog runs as long as the link is down: its fuel is the number of rounds.
--
-- Numbers that are floats in Python, the multipliers, bounds and setpoints of sensors, are exact decimal
-- fractions (`Amount`); the rounding of float arithmetic is not modelled, so that an equality test of
-- two floats may go otherwise in Python. Python's `datetime` is a
-- parameter of the clock test.
--
-- Not modelled: of a derived sensor the power factor, the status text and the device registry; the
-- migration of entity ids to serial numbers, which Migration records as a step; the setup of
-- platforms; config flow, diagnostics and the serial proxy, which hand data to Home Assistant or to
-- another library; the tables of switches, selects and times; of the sensor tables what only the
-- presentation reads. custom_components/solis_modbus and "Other Addons" are copies of other projects.
-- The float `pv_limit_percent` of a dispatch call is modelled from its rounded value on, and
-- `strptime` by the times that it returns.
pub mod Base
pub mod Words
pub mod Inverter
pub mod Profile
pub mod Groups
pub mod Cache
pub mod Controller
pub mod Retrieval
pub mod Manager
pub mod Migration
pub mod Dispatch
pub mod Switch
pub mod Select
pub mod Sensors
pub mod Tables
pub mod TimeSlot
pub mod Watchdog
pub mod Tests
