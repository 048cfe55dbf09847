-- ===== src/Fabric/Loops/Session.antt =====
-- What a call of `chatFabric_controller` of src/dpdChatFabric/dpdChatFabric.c is to be: a request and a
-- session.
use dpd_chat_fabric.Prelude.{ℕ, ◌≡◌, Option, none, some, List, ◌∷◌, ok}
use dpd_chat_fabric.Types.Commands.{error_ok, error_socket, state_paired, FabricError}
use dpd_chat_fabric.Types.Structs.{ChatPacket}
use dpd_chat_fabric.Packet.Init.{Dice}
use dpd_chat_fabric.Packet.Encode.{Encoded}
use dpd_chat_fabric.Fabric.Serve.{Node, Host, Served, serve}
use dpd_chat_fabric.Fabric.Loops.{Action, request_packet, encode_request, free_sent}
use dpd_chat_fabric.Fabric.Loops.Logged.{Copies}

-- The messages that have been written, the last first.
abbrev pub Log : Type 0
Log = List (List ℕ)

abbrev pub with_reply : Option (List ℕ) → Log → Log
with_reply none log = log
with_reply (some msg) log = msg ∷ log

abbrev pub listening : Node → Node
listening node = record node { inbox = record (node.inbox) { length = 0 } }

-- One call of `chatFabric_device`: there is no socket, or no datagram, or one is served and its reply, if
-- there is one, is written.
pub data Heard (host : Host) (node : Node) (log : Log) : Node → FabricError → Log → Type 0 where
  no_connection : Heard host node log (listening node) error_socket log
  silence : Heard host node log (listening node) error_ok log
  was_served :
      (d d' : Dice) (x : List ℕ) (s : Served)
      → serve host d d' x (listening node) ≡ ok s
      → Heard host node log s.node s.error (with_reply s.sent log)

-- Calls, of which each but the last ends without an error and leaves the pairing unpaired, and the last
-- with an error or a pairing that is paired.
pub data Session (host : Host) : Node → Log → Node → FabricError → Log → Type 0 where
  last :
      {node : Node} {log : Log} {n : Node} {e : FabricError} {l : Log}
      → Heard host node log n e l
      → (e ≡ error_ok → (n.pair).state ≡ state_paired)
      → Session host node log n e l
  more :
      {node : Node} {log : Log} {n n' : Node} {e : FabricError} {l l' : Log}
      → Heard host node log n error_ok l
      → ¬ (n.pair).state ≡ state_paired
      → Session host n l n' e l'
      → Session host node log n' e l'

-- How a call of `chatFabric_controller` without an error has gone: it made a packet of the action and the
-- message, encoded it, wrote it at most three times, and then held a session.
pub record IsSession (host : Host) (a : Action) (message : List ℕ) (node : Node) (log : Log)
    (n : Node) (l : Log) : Type 0 where
  pub dice : Dice
  pub request : ChatPacket
  pub encoded : Encoded
  pub between : Log
  pub made : request_packet dice node a message ≡ ok request
  pub sealed : encode_request host (free_sent a node) request ≡ ok encoded
  pub sent : Copies encoded.msg 3 log between
  pub session :
      Session host (record (free_sent a node) { pair = encoded.pair }) between n error_ok l
  pub paired : (n.pair).state ≡ state_paired

pub Session-paired :
    {host : Host} {node n : Node} {log l : Log} {e : FabricError}
    → Session host node log n e l
    → e ≡ error_ok
    → (n.pair).state ≡ state_paired
Session-paired (last h p) e = p e
Session-paired (more h u s) e = Session-paired s e
