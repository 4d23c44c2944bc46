-- ===== src/Cli/Tests.antt =====
-- Runs of src/cli.rs.
use wayland_macos.Base.{◌≡◌, refl, true, false, some, [], ◌∷◌, codes, ◌==◌}
use wayland_macos.Cli.{
  text_eq, strip_prefix, parse_port, pidfile, Machine, System, discovered_ports, stop_instance,
  stop_all,
}
use wayland_macos.Cli.Siblings.{without, stop_instance-discovered, stop_all-discovered}

-- Two instances, and the file of a third whose compositor ended.
abbrev two_instances : Machine
two_instances = record {
  files =
      (pidfile (codes "7777") (codes "compositor"), some 10)
      ∷ (pidfile (codes "7777") (codes "socat"), some 11)
      ∷ (pidfile (codes "777") (codes "compositor"), some 20)
      ∷ (pidfile (codes "9") (codes "compositor"), some 30)
      ∷ [];
  signalled = [];
  pkilled = [];
  audio_runs = true;
}

-- Pid 30 is gone, and everything can be removed and killed.
abbrev below_30 : System
below_30 = record {
  alive = λ pid. elim (pid == 30) [ true ↦ false | false ↦ true ];
  removes = λ path. true;
  lists = true;
  has_audio = true;
  kills_audio = true;
}

stop_instance-discovered_example :
    (discovered_ports below_30 (stop_instance below_30 (codes "777") two_instances).files).0
    ≡ without (codes "777") (discovered_ports below_30 two_instances.files).0
stop_instance-discovered_example =
    (stop_instance-discovered below_30 (codes "777") two_instances refl).0

stop_all-discovered_example :
    (discovered_ports below_30 (stop_all below_30 two_instances).files).0 ≡ []
stop_all-discovered_example = (stop_all-discovered below_30 two_instances (λ p. refl)).0

port_flag :
    parse_port (some (codes "1")) (codes "up" ∷ codes "-p" ∷ codes "7778" ∷ []) ≡ codes "7778"
unfolding parse_port text_eq strip_prefix
port_flag = refl
