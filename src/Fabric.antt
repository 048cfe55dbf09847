-- ===== src/Fabric.antt =====
-- src/dpdChatFabric/dpdChatFabric.c without its state machine: connections, the answer to a datagram,
-- and the loops of a device and a controller, in the build without ESP8266.
pub mod Connection
pub mod Serve
pub mod Wire
pub mod Message
pub mod Converse
pub mod Loops
