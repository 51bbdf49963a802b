-- ===== src/Bluetooth.antt =====
-- The Bluetooth test (bt_test/zib_bluetooth.c, bt_test/zib_bluetooth_test.c). Bluetooth/Console reads
-- the words of a command line, Bluetooth/Reading shows what it reads, Bluetooth/Address converts
-- addresses and numbers, Bluetooth/HexDump dumps bytes, Bluetooth/Adapter keeps the flags that the callbacks and commands change,
-- Bluetooth/Gatt the GATT client and server, Bluetooth/TestModes the HCI and LE test commands,
-- Bluetooth/Commands the command table and the console's loop, Bluetooth/Start the start of the console,
-- Bluetooth/Served and Bluetooth/Session what its runs keep, Bluetooth/Demands what they request,
-- Bluetooth/Callbacks the callback tables of GATT, Bluetooth/Told and Bluetooth/Serves what the client
-- and the server owe, Bluetooth/Search is the test that looks for a device.
pub mod Console
pub mod Reading
pub mod Address
pub mod HexDump
pub mod Adapter
pub mod Search
pub mod Demands
pub mod Gatt
pub mod Commands
pub mod TestModes
pub mod Start
pub mod Served
pub mod Session
pub mod Callbacks
pub mod Told
pub mod Serves
