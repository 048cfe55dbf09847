-- ===== src/Programs/Arguments.antt =====
-- The command line of the programs, `chatFabric_args` of src/util/args.c, behind `getopt_long`.
pub mod Latest
use dpd_chat_fabric.Prelude.{ℕ, Option, none, some, List, [], ◌∷◌}
use dpd_chat_fabric.Types.Commands.{action_get, action_set, action_read}
use dpd_chat_fabric.Types.Structs.{Uuid, UuidTuple, Config}
use dpd_chat_fabric.Crypto.{Crypto}
use dpd_chat_fabric.Config.Init.{basepoint}
use dpd_chat_fabric.PairFile.{gen_nil}
use dpd_chat_fabric.Text.{Stdio}
use dpd_chat_fabric.Text.Uuids.{uuid_from_str}
use dpd_chat_fabric.Fabric.Connection.{SockType, sock_stream, sock_dgram}

-- What `getopt_long` returns, with `optarg`, the bytes that `arc4random_buf` delivers to `--genkeys`, and
-- the uuid that `uuuid2_gen` makes for `--genuuid1`. `other_option` is a question mark or h.
pub data Argument : Type 0 where
  set_option get_option send_option tcp_option udp_option debug_option other_option : Argument
  control_option value_option to0_option to1_option config_option ip_option port_option
        pairfile_option uuid0_option uuid1_option genkeys_option genuuid1_option writeconfig_option
        message_option :
      List ℕ → Argument

-- The fields of `chatFabricAction` and `chatFabricConfig` that the options set.
pub record Settings : Type 0 where
  pub action : ℕ
  pub action_control : ℕ
  pub action_value : ℕ
  pub type : SockType
  pub port : ℕ
  pub ip : Option (List ℕ)
  pub configfile : Option (List ℕ)
  pub newconfigfile : Option (List ℕ)
  pub pairfile : Option (List ℕ)
  pub writeconfig : ℕ
  pub msg : Option (List ℕ)
  pub config : Config

-- The libraries that the options call: `atoi`, with its `int` as a bit pattern, `sscanf` and the curve.
pub record Tools : Type 0 where
  pub atoi : List ℕ → ℕ
  pub stdio : Stdio
  pub crypto : Crypto

-- One option.
unfoldable pub take_argument : Tools → Argument → Settings → Settings
unfolding uuid_from_str gen_nil
take_argument t set_option s = record s { action = action_set }
take_argument t get_option s = record s { action = action_get }
take_argument t send_option s = record s { action = action_read }
take_argument t (control_option arg) s = record s { action_control = t.atoi arg }
take_argument t (value_option arg) s = record s { action_value = t.atoi arg }
take_argument t tcp_option s = record s { type = sock_stream }
take_argument t udp_option s = record s { type = sock_dgram }
take_argument t (to0_option arg) s = s
take_argument t (to1_option arg) s = s
take_argument t (config_option arg) s = record s { configfile = some arg }
take_argument t debug_option s = record s { config = record s.config { debug = 1 } }
take_argument t (ip_option arg) s = record s { ip = some arg }
take_argument t (port_option arg) s = record s { port = t.atoi arg }
take_argument t (pairfile_option arg) s = record s { pairfile = some arg }
take_argument t (uuid0_option arg) s =
    let read = uuid_from_str t.stdio ((s.config).uuid).u0 arg in
    record s { config = record s.config { uuid = record (s.config).uuid { u0 = read.0 } } }
take_argument t (uuid1_option arg) s =
    let read = uuid_from_str t.stdio ((s.config).uuid).u1 arg in
    record s { config = record s.config { uuid = record (s.config).uuid { u1 = read.0 } } }
take_argument t (genkeys_option random) s = record s {
  config = record s.config {
    privatekey = random;
    publickey = (t.crypto).curve25519_donna random basepoint;
  };
}
take_argument t (genuuid1_option made) s =
    let nil = gen_nil ((s.config).uuid).u0 in
    record s { config = record s.config { uuid = record { u0 = nil; u1 = made } } }
take_argument t (writeconfig_option arg) s = record s { newconfigfile = some arg; writeconfig = 1 }
take_argument t (message_option arg) s = record s { msg = some arg }
take_argument t other_option s = s

unfoldable pub take_arguments : Tools → List Argument → Settings → Settings
unfolding take_argument
take_arguments t [] s = s
take_arguments t (x ∷ xs) s = take_arguments t xs (take_argument t x s)

-- `chatFabric_args`.
unfoldable pub chat_fabric_args : Tools → List Argument → Settings → Settings
unfolding take_arguments
chat_fabric_args t xs s = take_arguments t xs (record s { port = 32000; type = sock_dgram })
