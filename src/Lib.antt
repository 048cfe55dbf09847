-- ===== src/Lib.antt =====
-- dpdChatFabric pairs controllers with devices on a network and carries encrypted packets between them.
-- This library models its core in the build with HAVE_LOCAL_CRYPTO and without ESP8266, and proves
-- what makes it correct. Paths are from the repository's root.
--
-- The parts and how they interact. A packet (`chatPacket`, src/includes/cfstructs.h) is encoded and
-- decoded by src/dpdChatPacket/dpdChatPacket.c as a sequence of tagged fields, which
-- src/dpdChatFabric/cfTagEncoder.c writes one by one. `stateMachine` of src/dpdChatFabric/dpdChatFabric.c
-- answers a decoded packet and moves the pairing towards STATE_PAIRED. A pairing that becomes paired is
-- written by src/dpdChatFabric/cfPairConfig.c, and the configuration by src/dpdChatFabric/cfConfig.c,
-- with the same encoder; both files are read by a loop over tags.
--
-- The modules.
--   Prelude       Boolean tests, lists, 32-bit words, and memory: `Outcome` is a result, an access
--                 outside an object (`fault`), or a loop that the model cut off (`no_fuel`).
--   Types         the enumerations with their numbers and the structures of src/includes/cfstructs.h.
--   TagEncoder    `cfTagEncoder` as cf_tag_encoder, and sequences of its calls; TagEncoder.Fill says
--                 what they leave in a buffer.
--   TagReader     the loop of `_cfConfigRead` and `cfPairRead` over the cases of each, as tag_loop.
--   Crypto        src/crypto, other projects' code, as a parameter, and the laws that it keeps.
--   Packet        `chatPacket_calcNonce` (Packet.Nonce), `chatPacket_init0` and `chatPacket_init`
--                 (Packet.Init), the tables of names (Packet.Names), `chatPacket_encode`
--                 (Packet.Encode) and `chatPacket_decode` (Packet.Decode, its cases in
--                 Packet.Decode.Cases).
--   Config        `cfConfigInit` (Config.Init), `_createConfigString`, `_createKeyString`,
--                 `cfConfigWrite`, `_cfConfigRead`.
--   PairFile      `cfPairInit`, `cfPairWrite`, `cfPairRead`.
--   StateMachine  `stateMachine`, one function per group of commands (StateMachine.Commands), on the
--                 state in StateMachine.State, with `uuuid2_eq` and `uuuid2_copy` of
--                 src/uuid/uuuid2.c; Addressed, Steps, Paired and Handshake are about it.
--   Fabric        the rest of that file: `chatFabric_consetup` and what is sent and received
--                 (Fabric.Connection), the answer of `chatFabric_device` to a datagram (Fabric.Serve),
--                 and `chatFabric_device` and `chatFabric_controller` around it (Fabric.Loops). The
--                 calls of the system work on a world that is a parameter. Fabric.Wire and
--                 Fabric.Message put encoder, decoder and machine together, and Fabric.Converse two
--                 machines.
--   Generator     `uuuid2_gen` of src/uuid/uuuid2.c for the ESP8266.
--   Text          hexadecimal text, over `%02x` of the C library as a parameter: `uuuid2_to_str` and
--                 `uuuid2_from_str` of src/uuid/uuuid2.c (Text.Uuids), `util_bin2hex` and `hex2int` of
--                 src/util/util.c (Text.Dump).
--   Programs      `deviceCallBack` of src/bin/device.c (Programs.Device) and `controllerCallBack` of
--                 src/bin/controller.c (Programs.Controller), with both ends of a CMD_APP_LIST, and the
--                 options of src/util/args.c (Programs.Arguments), behind `getopt_long`.
--   Firmware      the controls of the ESP8266: src/esp8266/user/user_main.c (Firmware.Outlets, with the
--                 pins that are set as a log) and src/esp8266/espChatFabric/esp-cf-config.c
--                 (Firmware.Settings); the line buffer and the commands of src/esp8266/shell/shell.c
--                 (Firmware.Shell); the set-up and the events of the WiFi in
--                 src/esp8266/espChatFabric/esp-cf-wifi.c (Firmware.Wifi), and the mode and the clock of
--                 user_main.c, with what can happen after a boot as a step relation (Firmware.Modes). The
--                 globals are a record (Firmware.Globals), and calls of the SDK are logged in it. What a
--                 call does to the pins is a parameter with laws for 0 and 1 (Firmware.Pins).
--   Tests         sample data, and the theorems at it.
--
-- State is passed explicitly: a Machine holds what `stateMachine` is given by reference. Pointers are
-- the objects behind them, and an object is a list of bytes. Integers are natural numbers, with the
-- wrap-around of `uint32_t` written out where sums can reach it. Allocation is taken to succeed.
--
-- Bounds and fuel. The loops over the two files get one round more than the file has bytes, which is
-- enough because each round moves the index. `chatPacket_decode` takes a number that bounds its
-- rounds and the depth of its nested calls; theorems that it returns name how much is enough. The
-- handshake of two machines runs for ten deliveries. The loops that send and receive try three times,
-- as in the source, and the loop of `chatFabric_controller` takes a number of rounds, since it waits
-- for a peer that may never answer.
--
-- Not modelled: what is printed on the terminal; the main functions of the programs; the firmware's timers
-- as a schedule (their handlers are steps), its mDNS, its flash and its update over the air; the drivers
-- and the boot loader of the ESP8266; the tools and the retired code. These are input and output around
-- this core, or other projects' code.
pub mod Prelude
pub mod Types
pub mod TagEncoder
pub mod TagReader
pub mod Crypto
pub mod Packet
pub mod Config
pub mod PairFile
pub mod StateMachine
pub mod Fabric
pub mod Text
pub mod Generator
pub mod Programs
pub mod Firmware
pub mod Tests
