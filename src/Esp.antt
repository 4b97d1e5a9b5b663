-- ===== src/Esp.antt =====
-- uart_wifi_passthrough/main: the firmware of the ESP8266, a module per job.
pub mod Uart
pub mod Config
pub mod Forward
pub mod Queue
pub mod Main
pub mod Send
