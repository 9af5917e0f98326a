-- ===== src/Tests/Data.antt =====
-- The data that the tests share.
use senko.Prelude.{ℕ, zero, suc, ◌+◌, ◌<◌, refl, List, [], ◌∷◌, Option, none, replicate}
use senko.Cluster.Node.{NodeId, AreBytes, IsNodeId, NodeMeta, SocketAddr, new_node, node_id_len}
use Prim.Native.Char.{code}
use Prim.Native.String.{String}

abbrev pub codes : String → List ℕ
codes String.[] = []
codes (String.◌∷◌ c s) = code c ∷ codes s

-- No test reads a double.
abbrev pub no_f64 : List ℕ → Option ℕ
no_f64 text = none

abbrev pub no_ryu : ℕ → List ℕ
no_ryu v = []

-- The id of forty equal pairs of digits.
abbrev pub id_of : ℕ → NodeId
id_of b = replicate node_id_len b

AreBytes-replicate : (n b : ℕ) → b < 256 → AreBytes (replicate n b)
unfolding replicate
AreBytes-replicate zero b h = tt
AreBytes-replicate (suc n) b h = (h, AreBytes-replicate n b h)

pub id_of-IsNodeId : (b : ℕ) → b < 256 → IsNodeId (id_of b)
unfolding replicate
id_of-IsNodeId b h = record { sized = refl; bytes = AreBytes-replicate node_id_len b h }

abbrev pub addr_of : ℕ → SocketAddr
addr_of port = record { ip = 127 ∷ 0 ∷ 0 ∷ 1 ∷ []; port = port }

abbrev pub node_of : ℕ → NodeMeta
node_of b = new_node (id_of b) (addr_of (6000 + b)) (addr_of (16000 + b))
