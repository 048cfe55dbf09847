-- ===== src/Fabric/Connection.antt =====
-- `chatFabric_consetup` of src/dpdChatFabric/dpdChatFabric.c, and the parts of `chatFabric_device` and
-- `chatFabric_controller` that receive and send. The calls of the operating system are parameters, on
-- a world that they may change; a call that gives -1 gives `none`.
use dpd_chat_fabric.Prelude.{
  ℕ, zero, suc, Bool, true, false, not, ◌&&◌, ◌||◌, Option, none, some, List, take, ◌==◌,
  if◌then◌else◌,
}
use dpd_chat_fabric.Packet.Init.{Dice}

-- SOCK_STREAM and SOCK_DGRAM.
pub data SockType : Type 0 where
  sock_stream sock_dgram : SockType

-- `chatFabricConnection`, less the address, which the calls are taken to know.
pub record Connection : Type 0 where
  pub socket : Option ℕ
  pub accepted_socket : Option ℕ
  pub type : SockType
  pub bind : ℕ

-- The calls on sockets, those of `read` and `recvfrom` with what they put into the buffer, and the
-- random numbers of a packet.
pub record System (W : Type 0) : Type 0 where
  pub socket : W → Option ℕ × W
  pub accept : ℕ → W → Option ℕ × W
  pub setsockopt : ℕ → W → W
  pub bind : ℕ → W → W
  pub listen : ℕ → W → W
  pub connect : ℕ → W → W
  pub close : ℕ → W → W
  pub read : ℕ → W → Option (List ℕ) × W
  pub write : ℕ → List ℕ → W → Option ℕ × W
  pub arc4random : W → Dice × W

abbrev pub is_stream : Connection → Bool
is_stream c = elim c.type [ sock_stream ↦ true | sock_dgram ↦ false ]

abbrev pub is_open_socket : Option ℕ → Bool
is_open_socket none = false
is_open_socket (some s) = true

-- The buffer of `chatFabric_device`.
abbrev pub buffersize : ℕ
buffersize = 1460

-- How the receiving loop ends: without a socket, with -1, or with what was read.
pub data Received : Type 0 where
  no_socket no_datagram : Received
  datagram : List ℕ → Received

-- The socket that is read and written.
abbrev pub channel : Connection → Option ℕ
channel c = if is_stream c && c.bind == 1 then c.accepted_socket else c.socket

module _ {W : Type 0} (system : System W) where
  abbrev pub accept_on : ℕ → Connection → W → Connection × W
  accept_on s c w = let r = system.accept s w in (record c { accepted_socket = r.0 }, r.1)

  -- From `socket` on.
  unfoldable pub open_socket : Connection → W → Connection × W
  open_socket c w =
      let r = system.socket w in
      elim r.0 [
        | none ↦ (record c { socket = none; accepted_socket = none }, r.1)
        | some s ↦
            let c' = record c { socket = some s; accepted_socket = none } in
            let w' = system.setsockopt s r.1 in
            if c.bind == 1
            then (if is_stream c
                then accept_on s c' (system.listen s (system.bind s w'))
                else (c', system.bind s w'))
            else (c', if is_stream c then system.connect s w' else w')
      ]

  unfoldable pub consetup : Connection → W → Connection × W
  unfolding open_socket
  consetup c w = elim c.socket [
    | none ↦ open_socket c w
    | some s ↦
        if is_stream c && not (is_open_socket c.accepted_socket) && c.bind == 1
        then accept_on s c w
        else (if (is_stream c && c.bind == 0) || not (is_stream c) then (c, w) else open_socket c w)
  ]

  -- After a failed call: the sockets are given up, and the connection is set up again.
  unfoldable pub reconnect : Connection → W → Connection × W
  unfolding consetup
  reconnect c w =
      let w' : W = elim c.socket [
        | none ↦ w
        | some s ↦ if is_stream c then system.close s w else w
      ] in
      consetup (record c { socket = none; accepted_socket = none }) w'

  abbrev pub read_channel : Connection → W → Option (List ℕ) × W
  read_channel c w = elim (channel c) [ none ↦ (none, w) | some s ↦ system.read s w ]

  abbrev pub write_channel : Connection → List ℕ → W → Option ℕ × W
  write_channel c msg w = elim (channel c) [ none ↦ (none, w) | some s ↦ system.write s msg w ]

  -- `do { ... } while(retry)` of `chatFabric_device`.
  unfoldable pub receive : ℕ → Connection → W → Received × (Connection × W)
  unfolding reconnect
  receive zero c w = (no_datagram, (c, w))
  receive (suc retry) c w =
      let r = read_channel c w in
      let again = reconnect c r.1 in
      let rest = receive retry again.0 again.1 in
      elim r.0 [
        | some x ↦ (datagram (take buffersize x), (c, r.1))
        | none ↦ if is_open_socket (again.0).socket then rest else (no_socket, again)
      ]

  -- `do { ... } while ( retry )` of `chatFabric_controller`: whether a socket is left.
  unfoldable pub send : ℕ → Connection → List ℕ → W → Bool × (Connection × W)
  unfolding reconnect
  send zero c msg w = (true, (c, w))
  send (suc retry) c msg w =
      let r = write_channel c msg w in
      let again = reconnect c r.1 in
      let rest = send retry again.0 msg again.1 in
      elim r.0 [
        | some n ↦ (true, (c, r.1))
        | none ↦ if is_open_socket (again.0).socket then rest else (false, again)
      ]

  -- The end of `chatFabric_device`: a stream is closed once the machines are paired.
  unfoldable pub close_stream : Connection → W → Connection × W
  close_stream c w =
      if is_stream c
      then elim c.accepted_socket [
        | some a ↦ (record c { accepted_socket = none }, system.close a w)
        | none ↦ elim c.socket [
          | some s ↦ (record c { socket = none; accepted_socket = none }, system.close s w)
          | none ↦ (c, w)
        ]
      ]
      else (c, w)
