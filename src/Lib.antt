-- ===== src/Lib.antt =====
-- A factory test tool for an Android phone module: a command-line program (main.cpp) that runs one hardware
-- test per call. The tests are separate parts that share nothing but the process; each drives a library
-- of the platform and judges what it answers.
--
-- * The key listener (key_app.cpp, includes/zib_key.h, tel_test/zb_dailtest_demo.cpp). Key holds the
--   events and the state of a press (`struct key_press_info`), Key/Machine the cases of
--   input_keys_analyse, Key/Protocol what the reports of a run follow, Key/Gestures the reports for each
--   gesture, Key/Devices the table of ev_init, ev_exit and ev_get, Key/Thread the loop of input_thread,
--   Key/Start key_test and tel_test. A clock reading is an argument of each call, the directory and the
--   poll results are lists.
-- * The wifi test (ls_wifi_test.c). Wifi holds the state shared by the functions: the flags, the table of
--   access points, the semaphore, the commands sent, and the state of wpa_supplicant, which is a
--   parameter: a function from its state and a command to a reply. Wifi/Line and Wifi/Results read the
--   scan table, Wifi/Layout and Wifi/RoundTrip print it and show that it is read back, Wifi/Command
--   sends commands, Wifi/Scan runs a scan, Wifi/Power opens and closes, Wifi/TestRun and Wifi/Verdict are the
--   test and what its verdict means, Wifi/Network adds a network, Wifi/Connect waits for the connection,
--   Wifi/Dhcp asks for an address (what snprintf does with an array that it reads and writes is a parameter), Wifi/Searches has two searches in strings that nothing calls, Wifi/Start is the thread of the test and the question for its
--   result. Wifi/Bounds, Wifi/Runs and Wifi/Steps follow the number of access points through all of these.
--   Wifi/Threads lets the scan thread, the test and the question for its result take turns, Wifi/Remains and
--   Wifi/Turns have what these keep, Wifi/Created the point where they start, Wifi/Interleaved and Wifi/Ending what they come to.
--   Wifi/Handshake steps through the wait of wifi_Connect_Network and the event loop, Wifi/Mutex, Wifi/Returned
--   and Wifi/Stalled say who holds their mutex, what the wait comes to and when the loop stands still.
-- * The GPS test (gps_test/android_gps.c, gps_test/gps_test.c). Gps/Provider holds the interface pointers and
--   the log of calls through them, the HAL being a parameter; Gps/Operations has the provider's functions,
--   Gps/Offered and Gps/Steps every sequence of them as a step relation, Gps/Session the thread that watches
--   the satellites and test_gps_start, Gps/Verdict what the caller learns, Gps/Files gps_Open with its directories
--   and the receiver's texts.
-- * The Bluetooth test (bt_test/zib_bluetooth.c). Bluetooth/Console has the readers of the command line,
--   Bluetooth/Reading what they read, Bluetooth/Address the conversions of addresses, UUIDs and numbers,
--   Bluetooth/HexDump the function hex_dump, HexDump/Parts and HexDump/Rows its rows,
--   Bluetooth/Adapter the flags that the HAL's callbacks set and the commands over them, Bluetooth/Gatt the
--   GATT callbacks and commands, Bluetooth/TestModes the HCI and LE test commands, Bluetooth/Commands the command table
--   with process_cmd, its jobs, the help and the console's loop, Bluetooth/Start the loading and eng_bt_scan_start,
--   Bluetooth/Served what the console needs to work, Bluetooth/Session one session of the GATT server,
--   Bluetooth/Demands what sequences of commands and callbacks of the adapter request, Bluetooth/Callbacks the two
--   tables of GATT callbacks, Bluetooth/Told and Bluetooth/Serves what sequences of them and of the commands come to,
--   Bluetooth/Search the loop of bluethood_test (bt_test/zib_bluetooth_test.c).
-- * Telephony (tel_test/ls_telephony_util.cpp, tel_test/AppClient.cpp, tel_test/zib_dial_test.cpp). Telephony/Memory has the caller's
--   memory, the static arrays and the reader of a Parcel, Telephony/Pdu smsc_to_pdu and Telephony/PduText what
--   it writes and Telephony/PduRoom the room it needs, Telephony/Sim and Telephony/Calls the replies on the card and on the calls, Telephony/Replies
--   RIL_onRequestComplete, Telephony/Client the object AppClient and its registration, Telephony/Lifetime its
--   life from registration to end, Telephony/Requests
--   sendRequest and the ls_api functions, Telephony/Silent what the caller learns, Telephony/Events the
--   events between the binder's threads and the process thread, whose queue is a parameter, as turns of the two,
--   Telephony/Answering the dial test's callbacks in these turns, Telephony/Accepts and Telephony/Answered what
--   they do to the client,
--   Telephony/Stale what the static arrays keep. Telephony/DialTest is the dial test over these functions
--   (tel_test/zib_dial_test.cpp), Telephony/Dialing what it comes to.
-- * The accelerometer test (gsensor_test.c). Sensor/Axes judges events, Sensor/Thread is the loop of
--   asensor_thread, Sensor/Evidence what its verdict rests on, Sensor/Order the order of events, Sensor/Start test_asensor_start and
--   zib_gsensor_test. Floating-point numbers are a parameter.
-- * The microphone test (mic_test/mic_test.cpp): Mic, with the file of the recording and the calls of the audio
--   library; Mic/Played is what is played.
-- * The command line (main.cpp): Cli, over a parameter that makes the calls of the tests and keeps their log;
--   Cli/Prompts puts wifi_test and zib_gsensor_test in its place.
-- * Prelude has what all share: numbers, bytes, C strings, char arrays, faults, strtol and strtoul of an ILP32
--   target, %d.
--
-- A byte is a natural number, a C string the list of its bytes up to its 0. Text behind the end of a
-- string is not read in the model; where the code reads or writes there, the model says so as a fault
-- (none, or a constructor of its own). Machine integers keep their wrap-around; signed overflow is a
-- fault. Loops over text recurse on it or on the distance to its end. The retry loops recurse on their
-- counts; the printer of decimal numbers has fuel n + 1 for the number n, which has at most as many
-- digits; the polls of bluethood_test are counted by an
-- argument, and its theorem says how many suffice; the GPS thread has 102 rounds, enough if each takes the
-- second that it sleeps; the accelerometer's thread has polls up to the first behind its time limit; the client looks for its service eleven times. Threads mostly meet at the semaphore or at a join, so each runs as
-- one step where it is waited for (Wifi/Interleaved shows this of the wifi test); the loops of input_thread and of the console run over the list of their
-- inputs. Interleavings are lists of turns: of the telephony events, and of the threads of the wifi test and of its wait for
-- a connection, where a turn is a try of the scan, a lock, a signal or one write.
--
-- Not modelled: what the callbacks that only log
-- or print say, in bt_test/zib_bluetooth.c, gps_test/gps_test.c and tel_test/zib_dial_test.cpp; the names of constants
-- that only make log text; the clearing of the pointer to the HAL at the end of a test and the
-- system calls on capabilities in bt_test/zib_bluetooth.c; the declarations and log macros of includes/.
-- Logging is left out everywhere but in hex_dump and in the reports of the dial test.
pub mod Prelude
pub mod Key
pub mod Wifi
pub mod Bluetooth
pub mod Gps
pub mod Telephony
pub mod Sensor
pub mod Mic
pub mod Cli
mod Tests
