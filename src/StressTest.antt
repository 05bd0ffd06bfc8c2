-- ===== src/StressTest.antt =====
-- A session of the stress client (src/exe-StressTest/Session.cpp): it answers each ping packet that
-- arrives with one of its own. Its rings (src/exe-StressTest/RingBuffer.hpp) have the operations of the
-- server's receive buffer, statement by statement, and are modelled by those. The children hold the loop over the
-- packets and what a send takes out, the rings themselves, and the thread that serves the sessions.
pub mod Echo
pub mod Replies
pub mod RingBuffer
pub mod PollThread
mod Tests
use my_server_project.Common.{
  ℕ, zero, suc, ◌+◌, ◌*◌, Bool, true, false, Option, none, some, List, [], ◌∷◌, ltb, ◌==◌,
  if◌then◌else◌, ◌>>=◌, take, length,
}
use my_server_project.RecvBuffer.{
  RecvBuffer, get_used_size, get_direct_read_size, peek, read, write, move_read_offset, reset,
}
use my_server_project.RecvBuffer.InPlace.{fill, front_block}

-- `sizeof(PacketHeader)` and `sizeof(PingPacket)`.
abbrev pub packet_header_size : ℕ
packet_header_size = 4

abbrev pub ping_payload_size : ℕ
ping_payload_size = 8

-- `mSize`, the first two bytes of a header on a little-endian machine.
unfoldable pub header_size : List ℕ → ℕ
header_size [] = 0
header_size (a ∷ []) = a
header_size (a ∷ b ∷ rest) = a + 256 * b

-- The rings, and how often the socket was closed.
pub record EchoSession : Type 0 where
  pub recv_buffer : RecvBuffer
  pub send_buffer : RecvBuffer
  pub closes : ℕ

-- The rings' constructor resets them; the session's then writes the first ping, whose tick is given.
unfoldable pub construct : RecvBuffer → RecvBuffer → List ℕ → Option EchoSession
unfolding reset write
construct raw_recv raw_send tick =
    write (reset raw_send) (12 ∷ 0 ∷ 0 ∷ 0 ∷ []) packet_header_size >>= λ (ok, d).
    write d tick ping_payload_size >>= λ (ok2, e).
    some (record { recv_buffer = reset raw_recv; send_buffer = e; closes = 0 })

-- The body of the loop after its tests: the packet is taken out, and a header and the bytes of the
-- current tick are written, whose success is not looked at. `none` is undefined behaviour. The
-- largest round trip time, which is only printed, is left out.
unfoldable pub respond : EchoSession → List ℕ → List ℕ → Option EchoSession
unfolding move_read_offset read write
respond s header tick =
    read (move_read_offset s.recv_buffer packet_header_size) ping_payload_size >>= λ (n, packet, b).
    write s.send_buffer header packet_header_size >>= λ (ok, d).
    write d tick ping_payload_size >>= λ (ok2, e).
    some (record s { recv_buffer = b; send_buffer = e })

-- One pass of the loop; the inner `none` is a `break`.
unfoldable pub pass : EchoSession → List ℕ → Option (Option EchoSession)
unfolding get_used_size peek respond header_size
pass s tick =
    let used = get_used_size s.recv_buffer in
    if ltb used packet_header_size
    then some none
    else (peek s.recv_buffer packet_header_size >>= λ (n, header).
        if ltb used (header_size header)
        then some none
        else (respond s header tick >>= λ t. some (some t)))

-- The loop, with the passes left and the ticks of the clock; `none` is undefined behaviour or a lack
-- of fuel.
unfoldable pub echo_loop : ℕ → (ℕ → List ℕ) → ℕ → EchoSession → Option EchoSession
unfolding pass
echo_loop zero clock i s = none
echo_loop (suc n) clock i s =
    pass s (clock i) >>= λ o. elim o [ none ↦ some s | some t ↦ echo_loop n clock (suc i) t ]

-- The result of `recv`: some bytes, 0, or an error.
pub data RecvResult : Type 0 where
  received : List ℕ → RecvResult
  closed failed : RecvResult

unfoldable pub reset_if_empty : RecvBuffer → RecvBuffer
unfolding get_used_size reset
reset_if_empty b = if get_used_size b == 0 then reset b else b

abbrev pub close_socket : EchoSession → EchoSession
close_socket s = record s { closes = suc s.closes }

-- A pass takes a header at least, so one more than the used size is fuel enough.
unfoldable pub do_recv : EchoSession → RecvResult → (ℕ → List ℕ) → Option (Bool × EchoSession)
unfolding fill echo_loop reset_if_empty get_used_size
do_recv s closed clock = some (false, close_socket s)
do_recv s failed clock = some (false, close_socket s)
do_recv s (received xs) clock =
    let t = record s { recv_buffer = fill s.recv_buffer xs } in
    echo_loop (suc (get_used_size t.recv_buffer)) clock 0 t >>= λ u.
    some (true, record u { recv_buffer = reset_if_empty u.recv_buffer })

-- The result of `send`: the bytes taken, which may be none, or an error.
pub data SendResult : Type 0 where
  sent : ℕ → SendResult
  send_failed : SendResult

-- `send` of the front block, with the bytes that it takes.
unfoldable pub send_front : EchoSession → SendResult → Bool × List ℕ × EchoSession
unfolding move_read_offset reset_if_empty front_block
send_front s (sent zero) = (false, [], s)
send_front s (sent (suc n)) = (
  true,
  take (suc n) (front_block s.send_buffer),
  record s { send_buffer = reset_if_empty (move_read_offset s.send_buffer (suc n)) },
)
send_front s send_failed = (false, [], close_socket s)

-- The result, the bytes on the wire, and the session.
unfoldable pub do_send : EchoSession → SendResult → Bool × List ℕ × EchoSession
unfolding get_used_size send_front
do_send s r = if get_used_size s.send_buffer == 0 then (false, [], s) else send_front s r
