-- ===== src/Programs/Arguments/Latest.antt =====
-- Which option a setting comes from (src/util/args.c).
use dpd_chat_fabric.Prelude.{ℕ, ◌≡◌, refl, ap, ◌∙◌, Option, none, some, List, [], ◌∷◌, arith}
use dpd_chat_fabric.Types.Structs.{Uuid, Config}
use dpd_chat_fabric.Config.Init.{basepoint}
use dpd_chat_fabric.PairFile.{gen_nil}
use dpd_chat_fabric.Text.Uuids.{uuid_from_str}
use dpd_chat_fabric.Types.Commands.{action_get, action_set, action_read}
use dpd_chat_fabric.Fabric.Connection.{SockType, sock_stream, sock_dgram}
use dpd_chat_fabric.Programs.Arguments.{
  Argument, set_option, get_option, send_option, debug_option, genkeys_option, genuuid1_option,
  uuid0_option, uuid1_option, tcp_option, udp_option, control_option, value_option, config_option,
  ip_option, port_option, pairfile_option, writeconfig_option, message_option, Settings, Tools,
  take_argument, take_arguments, chat_fabric_args,
}

unfoldable pub or_else {ℓ} : {A : Type ℓ} → Option A → A → A
or_else none a = a
or_else (some b) a = b

-- The value that the last option with one gives.
unfoldable pub latest {ℓ} : {A : Type ℓ} → (Argument → Option A) → List Argument → A → A
unfolding or_else
latest value [] a = a
latest value (x ∷ xs) a = latest value xs (or_else (value x) a)

-- What an option asks for.
unfoldable pub action_asked : Argument → Option ℕ
action_asked set_option = some action_set
action_asked get_option = some action_get
action_asked send_option = some action_read
action_asked _ = none

unfoldable pub control_asked : Tools → Argument → Option ℕ
control_asked t (control_option arg) = some (t.atoi arg)
control_asked t _ = none

unfoldable pub value_asked : Tools → Argument → Option ℕ
value_asked t (value_option arg) = some (t.atoi arg)
value_asked t _ = none

unfoldable pub type_asked : Argument → Option SockType
type_asked tcp_option = some sock_stream
type_asked udp_option = some sock_dgram
type_asked _ = none

unfoldable pub port_asked : Tools → Argument → Option ℕ
port_asked t (port_option arg) = some (t.atoi arg)
port_asked t _ = none

unfoldable pub ip_asked : Argument → Option (Option (List ℕ))
ip_asked (ip_option arg) = some (some arg)
ip_asked _ = none

unfoldable pub configfile_asked : Argument → Option (Option (List ℕ))
configfile_asked (config_option arg) = some (some arg)
configfile_asked _ = none

unfoldable pub newconfigfile_asked : Argument → Option (Option (List ℕ))
newconfigfile_asked (writeconfig_option arg) = some (some arg)
newconfigfile_asked _ = none

unfoldable pub pairfile_asked : Argument → Option (Option (List ℕ))
pairfile_asked (pairfile_option arg) = some (some arg)
pairfile_asked _ = none

unfoldable pub msg_asked : Argument → Option (Option (List ℕ))
msg_asked (message_option arg) = some (some arg)
msg_asked _ = none

unfoldable pub writeconfig_asked : Argument → Option ℕ
writeconfig_asked (writeconfig_option arg) = some 1
writeconfig_asked _ = none

unfoldable pub debug_asked : Argument → Option ℕ
debug_asked debug_option = some 1
debug_asked _ = none

unfoldable pub privatekey_asked : Argument → Option (List ℕ)
privatekey_asked (genkeys_option random) = some random
privatekey_asked _ = none

unfoldable pub publickey_asked : Tools → Argument → Option (List ℕ)
publickey_asked t (genkeys_option random) = some ((t.crypto).curve25519_donna random basepoint)
publickey_asked t _ = none

-- A uuid is read over the one before, of which a text that is no uuid leaves something.
unfoldable pub read_uuid0 : Tools → Argument → Uuid → Uuid
read_uuid0 t (uuid0_option arg) u = (uuid_from_str t.stdio u arg).0
read_uuid0 t _ u = u

unfoldable pub read_uuid1 : Tools → Argument → Uuid → Uuid
read_uuid1 t (uuid1_option arg) u = (uuid_from_str t.stdio u arg).0
read_uuid1 t (genuuid1_option made) u = made
read_uuid1 t _ u = u

-- One option after the other.
unfoldable pub in_turn {ℓ} : {A : Type ℓ} → (Argument → A → A) → List Argument → A → A
in_turn step [] a = a
in_turn step (x ∷ xs) a = in_turn step xs (step x a)

-- A configuration without what options set.
abbrev pub without_options : Config → Config
without_options c = record c {
  debug = 0;
  privatekey = [];
  publickey = [];
  uuid = record { u0 = []; u1 = [] };
}

-- Every setting is the one that the last of its options asked for, or the one there was, the uuids are
-- what their options made of them, and the rest of the configuration is as before.
pub record HasLatest (t : Tools) (xs : List Argument) (s r : Settings) : Type 0 where
  pub latest_action : r.action ≡ latest action_asked xs s.action
  pub latest_action_control : r.action_control ≡ latest (control_asked t) xs s.action_control
  pub latest_action_value : r.action_value ≡ latest (value_asked t) xs s.action_value
  pub latest_type : r.type ≡ latest type_asked xs s.type
  pub latest_port : r.port ≡ latest (port_asked t) xs s.port
  pub latest_ip : r.ip ≡ latest ip_asked xs s.ip
  pub latest_configfile : r.configfile ≡ latest configfile_asked xs s.configfile
  pub latest_newconfigfile : r.newconfigfile ≡ latest newconfigfile_asked xs s.newconfigfile
  pub latest_pairfile : r.pairfile ≡ latest pairfile_asked xs s.pairfile
  pub latest_writeconfig : r.writeconfig ≡ latest writeconfig_asked xs s.writeconfig
  pub latest_msg : r.msg ≡ latest msg_asked xs s.msg
  pub latest_debug : (r.config).debug ≡ latest debug_asked xs (s.config).debug
  pub latest_privatekey : (r.config).privatekey ≡ latest privatekey_asked xs (s.config).privatekey
  pub latest_publickey : (r.config).publickey ≡ latest (publickey_asked t) xs (s.config).publickey
  pub turned_u0 : ((r.config).uuid).u0 ≡ in_turn (read_uuid0 t) xs ((s.config).uuid).u0
  pub turned_u1 : ((r.config).uuid).u1 ≡ in_turn (read_uuid1 t) xs ((s.config).uuid).u1
  pub other_config : without_options r.config ≡ without_options s.config

module _ (t : Tools) where
  field-in_turn {ℓ} :
      {A : Type ℓ} (field : Settings → A) (step : Argument → A → A)
      → ((x : Argument) (s : Settings) → field (take_argument t x s) ≡ step x (field s))
      → (xs : List Argument) (s : Settings)
      → field (take_arguments t xs s) ≡ in_turn step xs (field s)
  unfolding take_arguments in_turn
  field-in_turn field step one [] s = refl
  field-in_turn field step one (x ∷ xs) s =
      field-in_turn field step one xs (take_argument t x s) ∙ ap (in_turn step xs) (one x s)

  in_turn-latest {ℓ} :
      {A : Type ℓ} (value : Argument → Option A) (xs : List Argument) (a : A)
      → in_turn (λ x. or_else (value x)) xs a ≡ latest value xs a
  unfolding in_turn latest
  in_turn-latest value [] a = refl
  in_turn-latest value (x ∷ xs) a = in_turn-latest value xs (or_else (value x) a)

  field-latest {ℓ} :
      {A : Type ℓ} (field : Settings → A) (value : Argument → Option A)
      → ((x : Argument) (s : Settings) → field (take_argument t x s) ≡ or_else (value x) (field s))
      → (xs : List Argument) (s : Settings)
      → field (take_arguments t xs s) ≡ latest value xs (field s)
  field-latest field value one xs s =
      field-in_turn field (λ x. or_else (value x)) one xs s ∙ in_turn-latest value xs (field s)

  in_turn-same {ℓ} : {A : Type ℓ} (xs : List Argument) (a : A) → in_turn (λ x b. b) xs a ≡ a
  unfolding in_turn
  in_turn-same [] a = refl
  in_turn-same (x ∷ xs) a = in_turn-same xs a

  take_arguments-HasLatest :
      (xs : List Argument) (s : Settings) → HasLatest t xs s (take_arguments t xs s)
  unfolding take_argument or_else gen_nil read_uuid0 read_uuid1 action_asked control_asked
      value_asked type_asked port_asked ip_asked configfile_asked newconfigfile_asked pairfile_asked
      writeconfig_asked msg_asked debug_asked privatekey_asked publickey_asked
  take_arguments-HasLatest xs s = record {
    latest_action = field-latest (λ r. r.action) action_asked (λ x q. ground arith) xs s;
    latest_action_control =
        field-latest (λ r. r.action_control) (control_asked t) (λ x q. ground arith) xs s;
    latest_action_value =
        field-latest (λ r. r.action_value) (value_asked t) (λ x q. ground arith) xs s;
    latest_type = field-latest (λ r. r.type) type_asked (λ x q. ground arith) xs s;
    latest_port = field-latest (λ r. r.port) (port_asked t) (λ x q. ground arith) xs s;
    latest_ip = field-latest (λ r. r.ip) ip_asked (λ x q. ground arith) xs s;
    latest_configfile =
        field-latest (λ r. r.configfile) configfile_asked (λ x q. ground arith) xs s;
    latest_newconfigfile =
        field-latest (λ r. r.newconfigfile) newconfigfile_asked (λ x q. ground arith) xs s;
    latest_pairfile = field-latest (λ r. r.pairfile) pairfile_asked (λ x q. ground arith) xs s;
    latest_writeconfig =
        field-latest (λ r. r.writeconfig) writeconfig_asked (λ x q. ground arith) xs s;
    latest_msg = field-latest (λ r. r.msg) msg_asked (λ x q. ground arith) xs s;
    latest_debug = field-latest (λ r. (r.config).debug) debug_asked (λ x q. ground arith) xs s;
    latest_privatekey =
        field-latest (λ r. (r.config).privatekey) privatekey_asked (λ x q. ground arith) xs s;
    latest_publickey =
        field-latest (λ r. (r.config).publickey) (publickey_asked t) (λ x q. ground arith) xs s;
    turned_u0 = field-in_turn (λ r. ((r.config).uuid).u0) (read_uuid0 t) (λ x q. ground arith) xs s;
    turned_u1 = field-in_turn (λ r. ((r.config).uuid).u1) (read_uuid1 t) (λ x q. ground arith) xs s;
    other_config =
        field-in_turn (λ r. without_options r.config) (λ x b. b) (λ x q. ground arith) xs s
        ∙ in_turn-same xs (without_options s.config);
  }

-- After chat_fabric_args, every setting is what the last option that sets it asked for, and without one
-- the port is 32000, the socket is for datagrams, and the others are as before. The uuids are what their
-- options make of them one after the other, and no option changes the rest of the configuration.
pub chat_fabric_args-HasLatest :
    (t : Tools) (xs : List Argument) (s : Settings)
    → HasLatest t xs (record s { port = 32000; type = sock_dgram }) (chat_fabric_args t xs s)
unfolding chat_fabric_args
chat_fabric_args-HasLatest t xs s =
    take_arguments-HasLatest t xs (record s { port = 32000; type = sock_dgram })
