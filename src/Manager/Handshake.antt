-- ===== src/Manager/Handshake.antt =====
-- A connection between two managers: the request, the answer, and the end, across the wire.
use scpxy.Base.{ℕ, ◌^◌, ◌<◌, ◌≡◌, refl, true, some, List, [], ◌∷◌, ◌++◌, length, arith, ==_iff}
use scpxy.Base.Slice.{read}
use scpxy.Packet.{Packet, packet}
use scpxy.Peer.{Peer, Settings, UdpAddr, send_raw, outgoing, connected, slice_from}
use scpxy.Peer.Connect.{
  Request, new_outgoing_peer, new_accepted_peer, process_connect_accept, process_disconnect,
  serialize_socket_address,
}
use scpxy.Manager.{parse_connect_request, reject_packet}
use scpxy.Manager.Packets.{
  request_header, connect_request-bytes, accept_bytes, connect_accept-bytes,
  parse_connect_request-bytes, refusal_bytes, reject_packet-bytes, refusal-reads,
  le_value-le_bytes_8, le_value-le_bytes_4,
}
use scpxy.Manager.Numbered.{
  Numberable, new_peer-Fresh, renumbered, set_connection_num-renumbered, serialize-length,
}

module _ (sc : Settings) (to from : UdpAddr) (now id num : ℕ) (told : List ℕ) (ht : now < 2 ^ 64)
    (hi : id < 2 ^ 32) (hn : num < 4) where
  -- The request as the other side reads it.
  pub request : Request
  request = record {
    addr = from;
    connection_time = now;
    connection_number = num;
    peer_id = id;
    payload = told;
  }

  -- The peer that asks.
  pub record Asks : Type 0 where
    pub client : Peer
    pub bytes : List ℕ
    pub returns : new_outgoing_peer sc to now id num told ≡ some (client, send_raw bytes ∷ [])
    pub is_read : parse_connect_request (packet bytes) from ≡ some (some request)
    pub state_is : client.state ≡ outgoing
    pub time_is : client.connect_time ≡ now
    pub number_is : client.connect_num ≡ num
    pub numberable : Numberable client

  new_outgoing_peer-Asks : Asks
  unfolding new_outgoing_peer request
  new_outgoing_peer-Asks =
      let f = new_peer-Fresh sc to id in
      let target = serialize_socket_address to in
      let sized = serialize-length to in
      let p : Peer = record f.peer { connect_time = now; state = outgoing } in
      let n : Numberable p = record {
        merge_rest = _;
        ping_rest = _;
        pong_rest = _;
        merge_first = _;
        ping_first = _;
        pong_first = _;
        merge_is = f.numberable.merge_is;
        ping_is = f.numberable.ping_is;
        pong_is = f.numberable.pong_is;
      } in
      let bytes = request_header now id num (length target) ++ (target ++ told) in
      record {
        client = record (renumbered p n num) { connect_request_packet = some (packet bytes) };
        bytes = bytes;
        returns =
            rw
              (
                f.returns,
                set_connection_num-renumbered p n num,
                connect_request-bytes now id num target told hn (ground (arith, sized)),
              )
              refl;
        is_read = parse_connect_request-bytes now id num target told hn ht hi sized from;
        state_is = refl;
        time_is = refl;
        number_is = refl;
        numberable = record {
          merge_rest = _;
          ping_rest = _;
          pong_rest = _;
          merge_first = _;
          ping_first = _;
          pong_first = _;
          merge_is = refl;
          ping_is = refl;
          pong_is = refl;
        };
      }

  -- The peer that is asked, and its answer.
  pub record Accepts (ss : Settings) (id' : ℕ) : Type 0 where
    pub server : Peer
    pub answer : List ℕ
    pub returns : new_accepted_peer ss request id' ≡ some (server, send_raw answer ∷ [])
    pub state_is : server.state ≡ connected
    pub time_is : server.connect_time ≡ now
    pub number_is : server.connect_num ≡ num
    pub remote_is : server.remote_id ≡ id
    pub answer_is : answer ≡ accept_bytes now num id'

  new_accepted_peer-Accepts : (ss : Settings) (id' : ℕ) → Accepts ss id'
  unfolding new_accepted_peer request
  new_accepted_peer-Accepts ss id' =
      let f = new_peer-Fresh ss from id' in
      let p : Peer = record f.peer { connect_time = now } in
      let n : Numberable p = record {
        merge_rest = _;
        ping_rest = _;
        pong_rest = _;
        merge_first = _;
        ping_first = _;
        pong_first = _;
        merge_is = f.numberable.merge_is;
        ping_is = f.numberable.ping_is;
        pong_is = f.numberable.pong_is;
      } in
      record {
        server = record (renumbered p n num) {
          remote_id = id;
          connect_accept_packet = some (packet (accept_bytes now num id'));
          state = connected;
        };
        answer = accept_bytes now num id';
        returns =
            rw (f.returns, set_connection_num-renumbered p n num, connect_accept-bytes now num id')
              refl;
        state_is = refl;
        time_is = refl;
        number_is = refl;
        remote_is = refl;
        answer_is = refl;
      }

  -- What the answer makes of a peer that asked.
  pub record Joins (client : Peer) (answer : List ℕ) (id' : ℕ) : Type 0 where
    pub client' : Peer
    pub returns : process_connect_accept client (packet answer) ≡ some (client', true)
    pub state_is : client'.state ≡ connected
    pub time_is : client'.connect_time ≡ now
    pub number_is : client'.connect_num ≡ num
    pub remote_is : client'.remote_id ≡ id'

  process_connect_accept-Joins :
      (a : Asks) (id' : ℕ) → id' < 2 ^ 31 → Joins a.client (accept_bytes now num id') id'
  unfolding process_connect_accept read
  process_connect_accept-Joins a id' h = record {
    client' = record (renumbered a.client a.numberable num) {
      remote_id = id';
      since_last_packet = 0;
      state = connected;
    };
    returns = ground (
      arith,
      a.state_is,
      a.time_is,
      set_connection_num-renumbered a.client a.numberable num,
      le_value-le_bytes_8 now ht,
      le_value-le_bytes_4 id',
    );
    state_is = refl;
    time_is = a.time_is;
    number_is = refl;
    remote_is = refl;
  }

  -- What the refusal makes of it: the peer ends, and is told the message.
  pub record IsRefused (client : Peer) (message : List ℕ) : Type 0 where
    pub refusal : Packet
    pub returns : reject_packet request message ≡ some refusal
    pub ends : process_disconnect client refusal ≡ some true
    pub told_is : slice_from refusal.bytes 9 ≡ some message

  reject_packet-IsRefused : (a : Asks) (message : List ℕ) → IsRefused a.client message
  unfolding request process_disconnect
  reject_packet-IsRefused a message =
      let (time_read, number_read, message_read) = refusal-reads now num message hn ht in
      record {
        refusal = packet (refusal_bytes now num message);
        returns = reject_packet-bytes request message hn;
        ends =
            rw (a.state_is, time_read, a.time_is, number_read, a.number_is)
              (ground (arith, ==_iff now now, ==_iff num num));
        told_is = message_read;
      }

  -- A peer that connects, the peer that is asked, and their packets across the wire: the request is
  -- read with its time, number, id and data. An accepted request's answer connects the asking peer,
  -- and both then have the same time and number and know the other's id. A refused one's ends it, with
  -- the message of the refusal, whatever that is.
  pub handshake :
      (ss : Settings) (id' : ℕ) (message : List ℕ)
      → id' < 2 ^ 31
      → (a : Asks) × (r : Accepts ss id') × Joins a.client r.answer id' × IsRefused a.client message
  handshake ss id' message h =
      let a = new_outgoing_peer-Asks in
      let r = new_accepted_peer-Accepts ss id' in
      (
        a,
        r,
        rw r.answer_is (process_connect_accept-Joins a id' h),
        reject_packet-IsRefused a message,
      )
