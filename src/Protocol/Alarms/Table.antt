-- ===== src/Protocol/Alarms/Table.antt =====
-- The alarm table `ALARMS` of src/spinev_ble/protocol.py, in its order.
use Prim.Native.String.{String}
use spinev_ble.Base.{ℕ, Option, none, some, List, [], ◌∷◌}
use spinev_ble.Models.{AlarmDef, AlarmSeverity, critical, major, minor, warning}

-- The constructor of an `AlarmDef` with its arguments in the order of the class.
abbrev pub alarm_def :
    ℕ → ℕ → String → Option String → Option AlarmSeverity → Option String → AlarmDef
alarm_def bank bit name code severity constant = record {
  bank = bank;
  bit = bit;
  name = name;
  code = code;
  severity = severity;
  constant = constant;
}

unfoldable pub alarms : List AlarmDef
alarms =
    alarm_def 1 0 "Mains Fail" none none (some "MAINS_FAIL")
    ∷ alarm_def 1 1 "Mains Low" none none (some "MAINS_LOW")
    ∷ alarm_def 1 2 "Mains High" none none (some "MAINS_HIGH")
    ∷ alarm_def 1 3 "Mains Output Current High" none none (some "MAINS_OP_CURRENT_HIGH")
    ∷ alarm_def 1 4 "Earth Wire Open" (some "301") (some major) (some "EARTH_DETECT")
    ∷ alarm_def 1 5 "DC Fault/Internal RCD" (some "103") (some critical) (some "EARTH_LEAKAGE")
    ∷ alarm_def 1 6 "Vehicle CP Fault" (some "201") (some major) (some "PWM_FAULT")
    ∷ alarm_def 1 7 "EM Comm Fault" (some "401") none (some "EM_COMM_FAULT")
    ∷ alarm_def 1 8 "RFID Fault" (some "403") (some warning) (some "RFID_COMM_FAULT")
    ∷ alarm_def 1 9 "WiFi Fault" (some "402") (some warning) (some "WIFI_BLE_COMM_FAULT")
    ∷ alarm_def 1 10 "LCD Board Comm Fault" none none none
    ∷ alarm_def 1 11 "LED Board Comm Fault" none none none
    ∷ alarm_def 1 12 "NE High Voltage" (some "301") (some major) (some "NE_VOLT_HIGH")
    ∷ alarm_def 1 13 "Output Current Very High" (some "302") none (some "OUTPUT_CURRENT_VERY_HIGH")
    ∷ alarm_def 1 14 "Emergency Pressed" (some "101") (some critical) (some "EMERGENCY_DETECT")
    ∷ alarm_def 1 15 "SPD Fail" none none none
    ∷ alarm_def 1 16 "Mains Very High" (some "303") none (some "MAINS_VERY_HIGH")
    ∷ alarm_def 1 17 "High Temperature" (some "104") (some major) (some "TEMPERATURE_HIGH")
    ∷ alarm_def 2 0 "L1 Phase Failure" (some "303") (some major) (some "MAINS_RPH_FAIL")
    ∷ alarm_def 2 1 "L1 Voltage Low" (some "303") (some major) (some "MAINS_RPH_LOW")
    ∷ alarm_def 2 2 "L1 Voltage High" (some "303") (some major) (some "MAINS_RPH_HIGH")
    ∷ alarm_def 2 3 "L2 Phase Failure" (some "303") (some major) (some "MAINS_YPH_FAIL")
    ∷ alarm_def 2 4 "L2 Voltage Low" (some "303") (some major) (some "MAINS_YPH_LOW")
    ∷ alarm_def 2 5 "L2 Voltage High" (some "303") (some major) (some "MAINS_YPH_HIGH")
    ∷ alarm_def 2 6 "L3 Phase Failure" (some "303") (some major) (some "MAINS_BPH_FAIL")
    ∷ alarm_def 2 7 "L3 Voltage Low" (some "303") (some major) (some "MAINS_BPH_LOW")
    ∷ alarm_def 2 8 "L3 Voltage High" (some "303") (some major) (some "MAINS_BPH_HIGH")
    ∷ alarm_def 2 9 "L1 Overcurrent" (some "302") (some critical) (some "OP_CURRENT_R_HIGH")
    ∷ alarm_def 2 10 "L2 Overcurrent" (some "302") (some critical) (some "OP_CURRENT_Y_HIGH")
    ∷ alarm_def 2 11 "L3 Overcurrent" (some "302") (some critical) (some "OP_CURRENT_B_HIGH")
    ∷ alarm_def 2 12 "Energy Meter 1 Fault" (some "401") (some warning) (some "EM_IC_1")
    ∷ alarm_def 2 13 "Energy Meter 2 Fault" (some "401") (some warning) (some "EM_IC_2")
    ∷ alarm_def 2 14 "Lora Fault" none none none
    ∷ alarm_def 2 15 "Unexpected CP Voltage" (some "202") (some major) (some "PWM_GUN_2")
    ∷ alarm_def 2 16 "Media Failure" (some "101") (some major) (some "SD_CARD_FAULT")
    ∷ alarm_def 2 17 "Encryption IC Fault" none none none
    ∷ alarm_def 2 18 "EEPROM Fault" (some "101") (some minor) (some "EXT_EEP_COMM_FAULT")
    ∷ alarm_def 2 19 "Ext Energy Meter Fault" (some "101") (some minor)
        (some "EXT_RS485_COMM_FAULT")
    ∷ alarm_def 2 20 "Relay Stuck" (some "102") (some critical) (some "WELD_DETECTION_FAULT")
    ∷ alarm_def 2 21 "Servo Lock Fail" none none none
    ∷ alarm_def 2 22 "Grid Max Current Reached" none none none
    ∷ alarm_def 2 23 "Charger Min Current Reached" none none none
    ∷ alarm_def 2 24 "GSM Fault" (some "402") (some warning) (some "GSM_COMM_FAULT")
    ∷ alarm_def 2 25 "Charger Zero Current" none none none
    ∷ []
