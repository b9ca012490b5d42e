-- ===== src/Sandbox.antt =====
-- The port pool of internal/sandbox/docker.go, and `Deploy` and `Stop` as far as they use it: the
-- answers of the Docker engine are arguments. Each method of the pool runs under its mutex, so it is
-- one step. A port is a natural number; `usedPorts` is an association list, which `range` reads in
-- its order.
pub mod Ports
pub mod Leaked
use nexus_bench.Base.{
  ℕ, zero, suc, ◌+◌, ◌-◌, ◌==◌, String, Bool, true, false, not, Option, none, some, List, [], ◌∷◌,
  str_eq, if◌then◌else◌,
}

abbrev pub UsedPorts : Type 0
UsedPorts = List (ℕ × String)

unfoldable pub is_used : ℕ → UsedPorts → Bool
is_used port [] = false
is_used port ((p, id) ∷ m) = if p == port then true else is_used port m

-- `delete(m.usedPorts, port)`
unfoldable pub release_port : ℕ → UsedPorts → UsedPorts
release_port port [] = []
release_port port ((p, id) ∷ m) =
    let rest = release_port port m in if p == port then rest else (p, id) ∷ rest

-- `m.usedPorts[port] = submissionID`
abbrev pub set_port : ℕ → String → UsedPorts → UsedPorts
set_port port id m = (port, id) ∷ release_port port m

-- the loop of `allocatePort`, for the number of ports that are left
unfoldable pub first_free : ℕ → ℕ → UsedPorts → Option ℕ
first_free zero port m = none
first_free (suc n) port m =
    let rest = first_free n (suc port) m in if is_used port m then rest else some port

pub record PortRange : Type 0 where
  pub port_min : ℕ
  pub port_max : ℕ

abbrev pub pool_size : PortRange → ℕ
pool_size cfg = suc cfg.port_max - cfg.port_min

unfoldable pub allocate_port : PortRange → UsedPorts → String → UsedPorts × Option ℕ
allocate_port cfg m submission_id = elim (first_free (pool_size cfg) cfg.port_min m) [
  | none ↦ (m, none)
  | some port ↦ (set_port port submission_id m, some port)
]

-- The values of the map are compared with the container's ID.
unfoldable pub release_port_by_container_id : String → UsedPorts → UsedPorts
release_port_by_container_id container_id [] = []
release_port_by_container_id container_id ((port, id) ∷ m) =
    if str_eq id container_id then m else (port, id) ∷ release_port_by_container_id container_id m

-- What the Docker engine does with a `Deploy`: whether there is an image, the ID of the container if
-- one is created, filled with the archive and started.
pub record DeployAnswer : Type 0 where
  pub has_image : Bool
  pub started : Option String

-- The deferred call releases `hostPort`, a result that `return "", 0, err` has set to 0 before.
abbrev pub deployed : UsedPorts → ℕ → Option String → UsedPorts × Option (String × ℕ)
deployed m port none = (release_port 0 m, none)
deployed m port (some container_id) = (m, some (container_id, port))

abbrev pub deploy_at : UsedPorts × Option ℕ → Option String → UsedPorts × Option (String × ℕ)
deploy_at (m, none) started = (m, none)
deploy_at (m, some port) started = deployed m port started

unfoldable pub deploy :
    PortRange → UsedPorts → String → DeployAnswer → UsedPorts × Option (String × ℕ)
deploy cfg m submission_id answer =
    if not answer.has_image
    then (m, none)
    else deploy_at (allocate_port cfg m submission_id) answer.started

-- A container that cannot be stopped keeps its port; a failed removal is only logged.
unfoldable pub stop : UsedPorts → String → Bool → UsedPorts
stop m container_id stopped = if stopped then release_port_by_container_id container_id m else m
