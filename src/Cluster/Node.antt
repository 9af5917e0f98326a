-- ===== src/Cluster/Node.antt =====
-- senko-cluster/src/node.rs: node ids and their hex text, node states and their flag bits, node
-- metadata and the table of nodes. The proofs are in the modules below.
pub mod Hex
pub mod Flags
use senko.Prelude.{
  ℕ, zero, suc, ◌+◌, ◌-◌, ◌*◌, ◌/◌, ◌%◌, ◌<◌, ◌≤◌, ◌≡◌, List, [], ◌∷◌, ◌++◌, Bool, true, false,
  ◌&&◌, not, Option, none, some, leb, ltb, ◌==◌, if◌then◌else◌, length, bit_and, bit_or,
}
use senko.Prelude.Bits.{shl}
use senko.Prelude.Equality.{bytes_eq}
use senko.Prelude.Maps
use senko.Prelude.Maps.{Map}

-- `[u8; 20]`.
abbrev pub NodeId : Type 0
NodeId = List ℕ

abbrev pub node_id_len : ℕ
node_id_len = 20

abbrev pub node_id_hex_len : ℕ
node_id_hex_len = node_id_len * 2

-- What the type `[u8; NODE_ID_LEN]` promises of its values.
abbrev pub AreBytes : List ℕ → Type 0
AreBytes [] = Unit
AreBytes (b ∷ bs) = (b < 256) × AreBytes bs

pub record IsNodeId (id : NodeId) : Type 0 where
  pub sized : length id ≡ node_id_len
  pub bytes : AreBytes id

pub data NodeIdParseError : Type 0 where
  invalid_length : ℕ → NodeIdParseError
  invalid_hex : ℕ → ℕ → NodeIdParseError

pub data Parsed : Type 0 where
  ok : NodeId → Parsed
  err : NodeIdParseError → Parsed

-- A digit of the standard library's `{:02x}`.
abbrev pub hex_digit : ℕ → ℕ
hex_digit n = if ltb n 10 then 48 + n else 87 + n

-- `fmt::Display`.
pub display : NodeId → List ℕ
display [] = []
display (b ∷ bs) = hex_digit (b / 16) ∷ hex_digit (b % 16) ∷ display bs

unfoldable pub decode_nibble : ℕ → Option ℕ
decode_nibble byte =
    if leb b'0' byte && leb byte b'9'
    then some (byte - b'0')
    else if leb b'a' byte && leb byte b'f'
    then some (byte - b'a' + 10)
    else if leb b'A' byte && leb byte b'F'
    then some (byte - b'A' + 10)
    else none

-- `bytes[index] = (high << 4) | low`, in a `u8`, before the bytes of the later chunks.
abbrev pub push_byte : ℕ → ℕ → Parsed → Parsed
push_byte high low (ok bytes) = ok (bit_or (shl high 4 % 256) low ∷ bytes)
push_byte high low (err e) = err e

-- The second nibble of a chunk, then the chunks that follow.
abbrev pub decode_low : ℕ → ℕ → ℕ → Option ℕ → Parsed → Parsed
decode_low index byte high none rest = err (invalid_hex (index * 2 + 1) byte)
decode_low index byte high (some low) rest = push_byte high low rest

abbrev pub decode_high : ℕ → ℕ → ℕ → Option ℕ → Parsed → Parsed
decode_high index first second none rest = err (invalid_hex (index * 2) first)
decode_high index first second (some high) rest =
    decode_low index second high (decode_nibble second) rest

-- The loop of `from_str` over `chunks_exact(2).enumerate()`, which leaves out an odd last byte.
unfoldable pub decode_chunks : ℕ → List ℕ → Parsed
decode_chunks index [] = ok []
decode_chunks index (first ∷ []) = ok []
decode_chunks index (first ∷ second ∷ s) =
    decode_high index first second (decode_nibble first) (decode_chunks (suc index) s)

-- `FromStr`.
unfoldable pub from_str : List ℕ → Parsed
unfolding decode_chunks
from_str s =
    if not (length s == node_id_hex_len) then err (invalid_length (length s)) else decode_chunks 0 s

pub data NodeRole : Type 0 where
  primary : NodeRole
  replica : NodeId → NodeRole

pub data NodeState : Type 0 where
  connected disconnected handshaking pfail failed : NodeState

abbrev pub connected_bit : ℕ
connected_bit = 1

abbrev pub disconnected_bit : ℕ
disconnected_bit = 2

abbrev pub handshaking_bit : ℕ
handshaking_bit = 4

abbrev pub pfail_bit : ℕ
pfail_bit = 8

abbrev pub fail_bit : ℕ
fail_bit = 16

pub to_flags : NodeState → ℕ
to_flags connected = connected_bit
to_flags disconnected = disconnected_bit
to_flags handshaking = handshaking_bit
to_flags pfail = pfail_bit
to_flags failed = fail_bit

-- `(flags & bit) != 0`.
abbrev pub has : ℕ → ℕ → Bool
has flags bit = not (bit_and flags bit == 0)

pub from_flags : ℕ → NodeState
from_flags flags =
    if has flags fail_bit
    then failed
    else if has flags pfail_bit
    then pfail
    else if has flags handshaking_bit
    then handshaking
    else if has flags disconnected_bit
    then disconnected
    else connected

pub is_fail_like : NodeState → Bool
is_fail_like pfail = true
is_fail_like failed = true
is_fail_like _ = false

-- `std::net::SocketAddr`, of which the crate only compares and copies the parts.
pub record SocketAddr : Type 0 where
  pub ip : List ℕ
  pub port : ℕ

-- `slots` is the ascending list of what the `RoaringBitmap` holds.
pub record NodeMeta : Type 0 where
  pub id : NodeId
  pub addr : SocketAddr
  pub cluster_addr : SocketAddr
  pub role : NodeRole
  pub state : NodeState
  pub ping_sent : ℕ
  pub pong_recv : ℕ
  pub config_epoch : ℕ
  pub slots : List ℕ

abbrev pub new_node : NodeId → SocketAddr → SocketAddr → NodeMeta
new_node id addr cluster_addr = record {
  id = id;
  addr = addr;
  cluster_addr = cluster_addr;
  role = primary;
  state = connected;
  ping_sent = 0;
  pong_recv = 0;
  config_epoch = 0;
  slots = [];
}

abbrev pub NodeTable : Type 0
NodeTable = Map NodeId NodeMeta

pub record ClusterState : Type 0 where
  pub local_node_id : NodeId
  pub nodes : NodeTable
  pub current_epoch : ℕ

abbrev pub new_state : NodeId → ClusterState
new_state local_node_id = record { local_node_id = local_node_id; nodes = []; current_epoch = 0 }

-- The node that had the id before goes back to the caller.
unfoldable pub insert_node : ClusterState → NodeMeta → ClusterState × Option NodeMeta
insert_node s node =
    (record s { nodes = Maps.insert s.nodes node.id node }, Maps.get s.nodes node.id)

unfoldable pub remove_node : ClusterState → NodeId → ClusterState × Option NodeMeta
remove_node s id = (record s { nodes = Maps.remove s.nodes id }, Maps.get s.nodes id)

unfoldable pub get_node : ClusterState → NodeId → Option NodeMeta
get_node s id = Maps.get s.nodes id

abbrev pub set_current_epoch : ClusterState → ℕ → ClusterState
set_current_epoch s epoch = record s { current_epoch = epoch }

abbrev pub with_local_node : NodeMeta → ClusterState
with_local_node local = (insert_node (new_state local.id) local).0
