-- ===== src/Tests/Arguments.antt =====
-- A command line (src/util/args.c).
use dpd_chat_fabric.Prelude.{ℕ, ◌-◌, none, List, [], ◌∷◌}
use dpd_chat_fabric.Text.{Stdio}
use dpd_chat_fabric.Fabric.Connection.{sock_stream, sock_dgram}
use dpd_chat_fabric.Programs.Arguments.{
  Argument, set_option, get_option, tcp_option, control_option, message_option, Settings, Tools,
  chat_fabric_args,
}
use dpd_chat_fabric.Programs.Arguments.Latest.{HasLatest, chat_fabric_args-HasLatest}
use dpd_chat_fabric.Tests.Data.{open_crypto, config}

abbrev no_stdio : Stdio
no_stdio = record { print_hex = λ b. []; scan_hex = λ s. none }

abbrev first_digit : List ℕ → ℕ
first_digit [] = 0
first_digit (x ∷ xs) = x - 48

abbrev tools : Tools
tools = record { atoi = first_digit; stdio = no_stdio; crypto = open_crypto }

abbrev no_settings : Settings
no_settings = record {
  action = 0;
  action_control = 0;
  action_value = 0;
  type = sock_stream;
  port = 0;
  ip = none;
  configfile = none;
  newconfigfile = none;
  pairfile = none;
  writeconfig = 0;
  msg = none;
  config = config 0;
}

-- "--set --control 3 --get --tcp -m h".
abbrev command_line : List Argument
command_line =
    set_option
    ∷ control_option (b'3' ∷ [])
    ∷ get_option
    ∷ tcp_option
    ∷ message_option (b'h' ∷ [])
    ∷ []

chat_fabric_args-HasLatest_example :
    HasLatest tools command_line
      (record no_settings { port = 32000; type = sock_dgram })
      (chat_fabric_args tools command_line no_settings)
chat_fabric_args-HasLatest_example = chat_fabric_args-HasLatest tools command_line no_settings
