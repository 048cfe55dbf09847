-- ===== src/Fabric/Loops/Ending.antt =====
-- The calls of `chatFabric_controller` beside sessions (src/dpdChatFabric/dpdChatFabric.c).
use dpd_chat_fabric.Prelude.{ℕ, ◌≡◌, List}
use dpd_chat_fabric.Types.Commands.{error_ok}
use dpd_chat_fabric.Fabric.Connection.{Connection, System}
use dpd_chat_fabric.Fabric.Serve.{Node, Host}
use dpd_chat_fabric.Fabric.Loops.{Action, Ended}
use dpd_chat_fabric.Fabric.Loops.Session.{Log, Heard, Session, IsSession}

module _ {W : Type 0} (system : System W) (host : Host) where
  Round : Node → Log → Ended (W × Log) → Type 0
  Round node log r = Heard host node log r.node r.error r.world.1

  Run : Node → Log → Ended (W × Log) → Type 0
  Run node log r = Session host node log r.node r.error r.world.1

module _ {W : Type 0} (system : System W) (host : Host) where
  Result : Action → List ℕ → Node → Log → Ended (W × Log) → Type 0
  Result a message node log r =
      r.error ≡ error_ok → IsSession host a message node log r.node r.world.1
