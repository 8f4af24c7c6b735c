-- ===== src/Dispatcher/Types.antt =====
-- rmake/multinode/nodetypes.py (WorkerNode) and the command messages of
-- rmake/multinode/messages.py, as far as the dispatcher reads them. Session ids, names, command
-- ids and job ids are numbers: the code only compares them. `F` is the type of flavors.
use rmake.Base.{ℕ, Bool, true, false, Option, List, []}

-- Loads and thresholds are in hundredths, the precision of /proc/loadavg.
pub record NodeInfo : Type 0 where
  pub load_average : ℕ

pub record WorkerNode (F : Type 0) : Type 0 where
  pub session_id : ℕ
  pub name : ℕ
  pub slots : ℕ
  pub build_flavors : List F
  pub load_threshold : ℕ
  pub node_info : NodeInfo
  pub chroot_limit : ℕ

-- The classes below `_Command`, with the fields that the dispatcher reads.
pub data Kind (F : Type 0) : Type 0 where
  resolve load action : Kind F
  build : (build_req_flavors : List F) → Kind F
  stop : (target_command_id : ℕ) → Kind F

pub record Command (F : Type 0) : Type 0 where
  pub command_id : ℕ
  pub job_id : ℕ
  pub target_node : Option ℕ
  pub kind : Kind F

module _ {F : Type 0} where
  kind_chroot : Kind F → Bool
  kind_chroot (build _) = true
  kind_chroot _ = false

  unfoldable pub requires_chroot : Command F → Bool
  unfolding kind_chroot
  requires_chroot command = kind_chroot command.kind

  kind_flavors : Kind F → List F
  kind_flavors (build flavors) = flavors
  kind_flavors _ = []

  unfoldable pub required_flavors : Command F → List F
  unfolding kind_flavors
  required_flavors command = kind_flavors command.kind
