-- ===== src/Sensor.antt =====
-- The accelerometer test (gsensor_test.c). Sensor/Axes judges events, Sensor/Thread is the polling
-- thread, Sensor/Evidence what its pass needs, Sensor/Order the order of events, Sensor/Start loads the sensor and runs the thread, and
-- reads the device for the command line.
pub mod Axes
pub mod Thread
pub mod Evidence
pub mod Order
pub mod Start
