-- ===== src/Examples/Sandboxes.antt =====
-- The port pool at a concrete run: every container is stopped, and no port is free again.
use nexus_bench.Base.{
  ◌<◌, ◌⊎◌, min, arith, ◌≡◌, refl, String, Bool, true, false, some, none, List, [], ◌∷◌, length,
  str_eq, if◌then◌else◌,
}
use nexus_bench.Sandbox.{
  DeployAnswer, PortRange, allocate_port, deploy, first_free, is_used, pool_size, release_port,
  release_port_by_container_id, stop,
}
use nexus_bench.Sandbox.Leaked.{Op, deploy_one, run, run_lem, stop_one}

abbrev two_ports : PortRange
two_ports = record { port_min = 20000; port_max = 20001 }

abbrev answer : String → DeployAnswer
answer container_id = record { has_image = true; started = some container_id }

abbrev broken : DeployAnswer
broken = record { has_image = true; started = none }

abbrev ops : List Op
ops = deploy_one "s1" (answer "c1") ∷ stop_one "c1" true ∷ deploy_one "s2" broken ∷ []

abbrev is_submission : String → Bool
is_submission id = if str_eq id "c1" then false else true

-- The first container was stopped and the second never started; both ports stay used.
both_used : run two_ports [] ops ≡ (20001, "s2") ∷ (20000, "s1") ∷ []
unfolding run deploy stop allocate_port first_free is_used release_port release_port_by_container_id
both_used = refl

run_lem_example :
    (length (run two_ports [] ops) ≡ min 2 (pool_size two_ports))
    × ((2 < pool_size two_ports)
        ⊎ ((deploy two_ports (run two_ports [] ops) "s3" (answer "c3")).1 ≡ none))
run_lem_example =
    run_lem two_ports is_submission (omega arith) ops "s3" (answer "c3") (refl, (refl, (refl, tt)))
