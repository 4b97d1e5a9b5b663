-- ===== src/Driver.antt =====
-- uart_wifi_driver: the Linux driver, a module per job.
pub mod Device
pub mod Info
pub mod Probe
pub mod Receive
pub mod Settings
pub mod Xmit
