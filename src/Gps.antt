-- ===== src/Gps.antt =====
-- The GPS test (gps_test/android_gps.c, gps_test/gps_test.c). Gps/Provider is the layer over the GPS
-- HAL with its static interface pointers, Gps/Operations its functions, Gps/Offered and Gps/Steps show
-- which interfaces it calls, Gps/Session is the test over it with the thread that judges the satellites,
-- Gps/Verdict what its caller learns, Gps/Files the directories of the log and the receiver's texts.
pub mod Provider
pub mod Operations
pub mod Offered
pub mod Steps
pub mod Session
pub mod Verdict
pub mod Files
