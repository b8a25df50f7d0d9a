-- ===== src/Socket/Tests.antt =====
-- The sockets of rednet-src/network/usocket.cc in concrete runs.
use rednet.Common.{◌≡◌, ◌≢◌, refl, true, false, List, [], ◌∷◌, none, some}
use rednet.Socket.{
  Status, connected, reserve, Socket, Written, wrote, would_block, interrupted, got, on_forward,
  on_forward_data, on_recv, next_size, protocol_tcp,
}
use rednet.Socket.Pending.{Forwarded, on_forward_lem}
use rednet.Socket.Direct.{Direct, on_forward_data-Direct}

-- a connected socket, of which nothing waits
abbrev pub open_socket : Socket
open_socket = record {
  id = 65539;
  opaque = 7;
  sck = some 9;
  forward_in = 65536;
  forward_buffer = none;
  forward_list = [];
  forward_size = 0;
  forward_warn_size = 0;
  read_size = 64;
  protocol = protocol_tcp;
  status = connected;
  watched = false;
  wr_bytes = 0;
  rv_bytes = 0;
}

-- half of a buffer waits, and another whole one
abbrev loaded : Socket
loaded = record open_socket {
  forward_buffer = some (1 ∷ 2 ∷ [], 1);
  forward_list = (3 ∷ 4 ∷ []) ∷ [];
  forward_size = 2;
}

-- the handle takes the byte that was left of the first, is interrupted, and takes one more
abbrev results : List Written
results = wrote 1 ∷ interrupted ∷ wrote 1 ∷ []

connected≢reserve : connected ≢ reserve
connected≢reserve e = cc e

on_forward_lem_example : Forwarded loaded (on_forward true results loaded)
on_forward_lem_example = on_forward_lem true results loaded refl connected≢reserve

partly_written : (on_forward true results loaded).bytes ≡ 2 ∷ 3 ∷ []
unfolding on_forward rednet.Socket.begin_forward rednet.Socket.begin_forward_list
    rednet.Socket.begin_forward_tcp rednet.Socket.send_list
partly_written = refl

on_forward_data-Direct_example :
    Direct (1 ∷ 2 ∷ 3 ∷ []) open_socket (on_forward_data (wrote 2) (1 ∷ 2 ∷ 3 ∷ []) open_socket)
on_forward_data-Direct_example =
    on_forward_data-Direct (wrote 2) (1 ∷ 2 ∷ 3 ∷ []) open_socket refl refl
