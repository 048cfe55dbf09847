-- ===== src/Firmware.antt =====
-- The firmware of the ESP8266 (src/esp8266/user, src/esp8266/espChatFabric, src/esp8266/shell). The
-- board's own calls are logged or parameters.
pub mod Outlets
pub mod Pins
pub mod Visits
pub mod Runs
pub mod Agreement
pub mod Settings
pub mod Shell
pub mod Globals
pub mod Wifi
pub mod Modes
