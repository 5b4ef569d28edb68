-- ===== src/Tests/Sockets.antt =====
-- Examples on sockets: the sockets 50 and 51 of the small machine, connected by the pipes 9 and 10.
use disasteros.Common.{
  ℕ, ◌≡◌, ◌<◌, ◌-◌, refl, false, some, none, [], ◌∷◌, ◌++◌, length, take, ◌==◌, if◌then◌else◌,
  arith,
}
use disasteros.Common.Int.{ℤ, pos}
use disasteros.World.{
  World, SocketType, as_listener, as_peer, Scb, ConnReq, socket_ops, returned, fault, curproc,
}
use disasteros.Pipe.Ring.{buff_size}
use disasteros.Pipe.Window.{bytes_of}
use disasteros.Pipe.Fifo.{contents, moved}
use disasteros.Pipe.Calls.{Ready}
use disasteros.Streams.Calls.{attach, sys_close}
use disasteros.Streams.Table.{
  initialize_files, range_from, acquire_fcb, acquire_all, next_free, find_fids, install,
  fcb_reserve, fcb_incref, get_fcb,
}
use disasteros.Streams.Open.{IsValid-same, attach-IsValid}
use disasteros.Streams.Refs.{IsValid}
use disasteros.Socket.{socket_read, socket_write}
use disasteros.Socket.Calls.{sys_socket, sys_accept}
use disasteros.Socket.Connection.{IsPeer, Connected, socket_write-socket_read}
use disasteros.Socket.Accept.{Pending, sys_accept_lem}
use disasteros.Socket.Answer.{Answered}
use disasteros.Socket.Opening.{Made, sys_socket_lem}
use disasteros.Socket.Dangling.{LastPeer, close_twice}
use disasteros.Tests.Machine.{machine-IsValid, world, cpu}
use disasteros.Tests.Pipes.{some_bytes}
use disasteros.Tests.Files.{opened, opened-IsValid, curproc_small}

abbrev end_of : (other send receive fid : ℕ) → Scb
end_of other send receive fid = record {
  refcount = 1;
  port = 80;
  type = SocketType.peer;
  socket = as_peer (some other) (some send) (some receive);
  fid = fid;
}

-- The process 1 has the two sockets as its file ids 0 and 1.
abbrev pair : World
pair = record (world some_bytes) {
  scbs = λ a.
      if a == 50
      then some (end_of 51 9 10 0)
      else if a == 51
      then some (end_of 50 10 9 1)
      else none;
  fcb =
      λ f. record { refcount = 1; streamobj = if f == 0 then 50 else 51; streamfunc = socket_ops };
  pcb = λ p. record ((world some_bytes).pcb p) {
    fidt = λ i. if i == 0 then some 0 else if i == 1 then some 1 else none;
  };
}

IsPeer-50 : IsPeer 50 51 9 10 pair
IsPeer-50 = record { scb = end_of 51 9 10 0; at = refl; type = refl; socket = refl }

IsPeer-51 : IsPeer 51 50 10 9 pair
IsPeer-51 = record { scb = end_of 50 10 9 1; at = refl; type = refl; socket = refl }

pair-Ready : Ready 9 some_bytes pair
pair-Ready = record {
  at = refl;
  ring = record { space = omega arith; read_in = omega arith; write_at = refl };
  sched = machine-IsValid;
  readers = ((refl, refl), tt);
  writers = ((refl, refl), tt);
}

socket_write-socket_read_example :
    let n = moved 5 (buff_size - length (contents some_bytes)) in
    let stream = contents some_bytes ++ bytes_of (λ i. i) 0 n in
    let m = moved 4 (length stream) in
    (w₁ w₂ : World) × (socket_write cpu 50 (λ i. i) 5 pair ≡ returned (pos n) w₁)
    × (0 < n)
    × Connected 50 51 10 9 w₁
    × (socket_read cpu 51 4 w₁ ≡ returned (pos m, take m stream) w₂)
    × (0 < m)
socket_write-socket_read_example =
    socket_write-socket_read cpu cpu 50 51 10 9 some_bytes (λ i. i) 5 4 (IsPeer-50, IsPeer-51)
      pair-Ready refl (omega arith)

last_50 : LastPeer cpu 0 0 50 51 pair
last_50 = record {
  scb = end_of 51 9 10 0;
  send = some 9;
  receive = some 10;
  at = refl;
  type = refl;
  socket = refl;
  fid = refl;
  connections = refl;
  in_range = omega arith;
  stands_for = refl;
  once = refl;
  streamobj = refl;
  streamfunc = refl;
}

last_51 : LastPeer cpu 1 1 51 50 pair
last_51 = record {
  scb = end_of 50 10 9 1;
  send = some 10;
  receive = some 9;
  at = refl;
  type = refl;
  socket = refl;
  fid = refl;
  connections = refl;
  in_range = omega arith;
  stands_for = refl;
  once = refl;
  streamobj = refl;
  streamfunc = refl;
}

close_twice_example :
    (w' : World) × (sys_close cpu (pos 0) pair ≡ returned (pos 0) w')
    × (w'.pipes ≡ pair.pipes)
    × (w'.kernel ≡ pair.kernel)
    × (sys_close cpu (pos 1) w' ≡ fault)
close_twice_example =
    close_twice cpu cpu 0 1 0 1 50 51 last_50 last_51 (ground arith) (ground arith)

-- A client that waits for an answer to the request 60, and the socket that the server made for it.
abbrev alone : Scb
alone = record {
  refcount = 0;
  port = 80;
  type = SocketType.unbound;
  socket = as_peer none none none;
  fid = 0;
}

abbrev request : ConnReq
request = record { socket = 51; conn_cv = 44 ∷ []; accepted = false }

sys_socket_example :
    IsValid (sys_socket cpu (pos 80) 50 opened).1
    × Made (curproc cpu opened) (pos 80) 50 opened (sys_socket cpu (pos 80) 50 opened)
sys_socket_example = sys_socket_lem cpu (pos 80) 50 opened-IsValid curproc_small

-- The process 1 has a listener as its file id 0, with a request on its queue.
abbrev bound : Scb
bound = record {
  refcount = 1;
  port = 80;
  type = SocketType.listener;
  socket = as_listener [] (60 ∷ []);
  fid = 0;
}

abbrev asked : World
asked = record opened {
  scbs = λ j. if j == 50 then some bound else some alone;
  port_map = λ p. some 50;
  requests = λ _. some request;
}

abbrev listening : World
listening = attach 0 50 socket_ops asked

listening-IsValid : IsValid listening
listening-IsValid =
    attach-IsValid 0 50 socket_ops asked
      (IsValid-same opened asked refl (λ f. refl) refl opened-IsValid)

listening-Pending : Pending cpu (pos 0) 50 51 60 [] bound [] listening
unfolding get_fcb fcb_reserve acquire_all acquire_fcb install fcb_incref initialize_files range_from
    find_fids next_free
listening-Pending = record {
  fcb = 0;
  stands_for = refl;
  streamobj = refl;
  streamfunc = refl;
  at = refl;
  type = refl;
  bound = refl;
  socket = refl;
  req = request;
  requests = refl;
  from = refl;
  other = ground arith;
  peer = alone;
  client_at = refl;
  alone = refl;
  sched = machine-IsValid;
  can_wake = ((refl, refl), tt);
}

sys_accept_example :
    (q : ℤ) × (w' : World) × (sys_accept cpu (pos 0) 52 20 21 listening ≡ returned q w')
    × IsValid w'
    × Answered (curproc cpu listening) 52 51 20 21 60 listening q w'
    × (w'.scbs 50 ≡ some (record bound { socket = as_listener [] [] }))
sys_accept_example =
    sys_accept_lem cpu (pos 0) 50 51 60 52 20 21 [] bound [] listening-IsValid curproc_small
      listening-Pending (ground arith) (ground arith) (ground arith)
