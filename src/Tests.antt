-- ===== src/Tests.antt =====
-- Tests of the definitions on concrete inputs, and the properties' witnesses.
mod Key
mod Wifi
mod Bluetooth
mod Gps
mod Telephony
mod Cli
mod Sensor
mod Mic
