-- ===== src/Cluster/Node/Flags.antt =====
-- The flag bits of a node state (`to_flags`, `from_flags` of senko-cluster/src/node.rs).
use senko.Prelude.{ℕ, ◌≡◌, refl, ◌||◌, arith}
use senko.Cluster.Node.{
  NodeState, connected, disconnected, handshaking, pfail, failed, to_flags, from_flags,
  is_fail_like, has, fail_bit, pfail_bit,
}

-- A state is read back from its flag bit.
pub from_flags-to_flags : (s : NodeState) → from_flags (to_flags s) ≡ s
unfolding from_flags to_flags
from_flags-to_flags connected = refl
from_flags-to_flags disconnected = refl
from_flags-to_flags handshaking = refl
from_flags-to_flags pfail = refl
from_flags-to_flags failed = refl

-- Whatever other bits are set, the state is fail-like exactly when one of the two failure bits is.
pub is_fail_like-from_flags :
    (flags : ℕ) → is_fail_like (from_flags flags) ≡ (has flags fail_bit || has flags pfail_bit)
unfolding from_flags is_fail_like
is_fail_like-from_flags flags = ground arith
