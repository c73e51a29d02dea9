-- ===== src/Pilot/Print.antt =====
-- Adapters, sensors and drivers of the print lane (print_adapters.py, print_sensors.py,
-- print_drivers.py).
pub mod Adapter
pub mod Sensor
pub mod Driver
