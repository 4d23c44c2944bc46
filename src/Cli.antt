-- ===== src/Cli.antt =====
-- src/cli.rs: the instances that the command line stops, by the port that names them. A file of
-- `/tmp` is its path with the pid that its text spells, if it spells one. Signals are kept as a
-- list; what is alive, which calls fail, and what `pkill` matches, is up to the system. Starting
-- the programs and waiting for them is not modelled.
pub mod Ports
pub mod Siblings
pub mod Tests
use wayland_macos.Base.{
  ℕ, Bool, true, false, not, ◌&&◌, ◌||◌, Option, none, some, List, [], ◌∷◌, ◌++◌, if◌then◌else◌,
  ◌==◌, retain, codes,
}
use wayland_macos.Mac.{Text}
use mathlib.Core.List.{reverse}

unfoldable pub text_eq : Text → Text → Bool
text_eq [] [] = true
text_eq [] (d ∷ ds) = false
text_eq (c ∷ cs) [] = false
text_eq (c ∷ cs) (d ∷ ds) = (c == d) && text_eq cs ds

unfoldable pub strip_prefix : Text → Text → Option Text
strip_prefix t [] = some t
strip_prefix [] (d ∷ ds) = none
strip_prefix (c ∷ cs) (d ∷ ds) = if c == d then strip_prefix cs ds else none

abbrev pub backwards : Option Text → Option Text
backwards none = none
backwards (some t) = some (reverse t)

-- A suffix is a prefix of the text read backwards.
unfoldable pub strip_suffix : Text → Text → Option Text
strip_suffix t s = backwards (strip_prefix (reverse t) (reverse s))

-- `Instance`: the paths that its port gives.
unfoldable pub instance_path : Text → Text → Text
instance_path port rest = codes "/tmp/" ++ (codes "wlmac-" ++ (port ++ rest))

unfoldable pub client_sock : Text → Text
client_sock port = instance_path port (codes "-waypipe-client.sock")

unfoldable pub pidfile : Text → Text → Text
pidfile port name = instance_path port (codes "-" ++ (name ++ codes ".pid"))

-- The port of the first flag that gives one, and otherwise that of the environment or the default.
unfoldable pub parse_port : Option Text → List Text → Text
parse_port env [] = elim env [ none ↦ codes "7777" | some port ↦ port ]
parse_port env (f ∷ []) = elim (strip_prefix f (codes "--port=")) [
  | some v ↦ v
  | none ↦ elim env [ none ↦ codes "7777" | some port ↦ port ]
]
parse_port env (f ∷ v ∷ rest) =
    let later = parse_port env (v ∷ rest) in
    elim (strip_prefix f (codes "--port=")) [
      | some port ↦ port
      | none ↦ if text_eq f (codes "--port") || text_eq f (codes "-p") then v else later
    ]

-- The files of `/tmp`.
abbrev pub Files : Type 0
Files = List (Text × Option ℕ)

pub record Machine : Type 0 where
  pub files : Files
  pub signalled : List ℕ
  pub pkilled : List Text
  pub audio_runs : Bool

-- The port that the path of a compositor's pidfile gives.
unfoldable pub port_of : Text → Option Text
port_of path = elim (strip_prefix path (codes "/tmp/")) [
  | none ↦ none
  | some name ↦ elim (strip_prefix name (codes "wlmac-")) [
    | none ↦ none
    | some r ↦ strip_suffix r (codes "-compositor.pid")
  ]
]

-- The system's part: the pids that are alive, the files whose removal succeeds, whether `/tmp` can be
-- listed, and whether `pulseaudio` is installed and lets itself be killed while it runs.
pub record System : Type 0 where
  pub alive : ℕ → Bool
  pub removes : Text → Bool
  pub lists : Bool
  pub has_audio : Bool
  pub kills_audio : Bool

abbrev pub responds : (ℕ → Bool) → Option ℕ → Bool
responds alive none = false
responds alive (some pid) = alive pid

-- The ports whose compositor is alive, and the files once those of the others are removed, as far as
-- that succeeds.
unfoldable pub scan : System → Files → List Text × Files
scan y [] = ([], [])
scan y ((path, pid) ∷ rest) =
    let later = scan y rest in
    elim (port_of path) [
      | none ↦ (later.0, (path, pid) ∷ later.1)
      | some port ↦
          if responds y.alive pid
          then (port ∷ later.0, (path, pid) ∷ later.1)
          else if y.removes path
          then later
          else (later.0, (path, pid) ∷ later.1)
    ]

unfoldable pub discovered_ports : System → Files → List Text × Files
discovered_ports y fs = if y.lists then scan y fs else ([], fs)

unfoldable pub read_pid : Text → Files → Option ℕ
read_pid path [] = none
read_pid path ((p, pid) ∷ rest) = if text_eq p path then pid else read_pid path rest

unfoldable pub remove_all : Text → Files → Files
remove_all path [] = []
remove_all path ((p, pid) ∷ rest) =
    if text_eq p path then remove_all path rest else (p, pid) ∷ remove_all path rest

-- A removal that fails is ignored.
unfoldable pub remove_file : System → Text → Files → Files
remove_file y path fs = if y.removes path then remove_all path fs else fs

unfoldable pub compositor_running : (ℕ → Bool) → Text → Files → Bool
compositor_running alive port fs = responds alive (read_pid (pidfile port (codes "compositor")) fs)

abbrev pub signal : Option ℕ → List ℕ → List ℕ
signal none sent = sent
signal (some pid) sent = pid ∷ sent

-- One child of an instance: a signal to the pid of its file, which goes.
unfoldable pub stop_child : System → Text → Machine → Machine
stop_child y path m = record m {
  signalled = signal (read_pid path m.files) m.signalled;
  files = remove_file y path m.files;
}

-- The audio bridge is killed if it runs, where that succeeds. `--check` tells whether it runs.
abbrev pub quits : System → Machine → Bool
quits y m = y.has_audio && m.audio_runs && y.kills_audio

-- The audio bridge is told to end, and its agent is signalled if its file spells a pid.
unfoldable pub stop_shared_audio : System → Machine → Machine
stop_shared_audio y m =
    let fs = remove_file y (codes "/tmp/wlmac-pulseaudio.pid") m.files in
    record m {
      audio_runs = if quits y m then false else m.audio_runs;
      signalled = signal (read_pid (codes "/tmp/wlmac-audio-follow.pid") fs) m.signalled;
      files = remove_file y (codes "/tmp/wlmac-audio-follow.pid") fs;
    }

-- The children, the strays that `pkill` finds, and the socket of an instance.
unfoldable pub stop_own : System → Text → Machine → Machine
stop_own y port m =
    let n = stop_child y (pidfile port (codes "compositor")) (
      stop_child y (pidfile port (codes "waypipe"))
        (stop_child y (pidfile port (codes "socat")) m)) in
    record n {
      pkilled = (codes "socat TCP-LISTEN:" ++ port) ∷ client_sock port ∷ n.pkilled;
      files = remove_file y (client_sock port) n.files;
    }

-- The audio bridge goes with the last instance.
abbrev pub reap_audio : System → List Text → Machine → Machine
reap_audio y [] m = stop_shared_audio y m
reap_audio y (p ∷ ps) m = m

unfoldable pub stop_instance : System → Text → Machine → Machine
stop_instance y port m =
    let n = stop_own y port m in
    let found = discovered_ports y n.files in reap_audio y found.0 (record n { files = found.1 })

abbrev pub stop_each : System → List Text → Machine → Machine
stop_each y [] m = m
stop_each y (p ∷ ps) m = stop_each y ps (stop_instance y p m)

-- `stop --all`
unfoldable pub stop_all : System → Machine → Machine
stop_all y m =
    let found = discovered_ports y m.files in
    stop_shared_audio y (stop_each y found.0 (record m { files = found.1 }))

abbrev pub has_flag : Text → List Text → Bool
has_flag flag [] = false
has_flag flag (f ∷ fs) = text_eq f flag || has_flag flag fs

unfoldable pub stop : System → Option Text → List Text → Machine → Machine
stop y env flags m =
    if has_flag (codes "--all") flags
    then stop_all y m
    else stop_instance y (parse_port env flags) m
