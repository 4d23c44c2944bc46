-- ===== src/Cli/Siblings.antt =====
-- What a stop of one instance in src/cli.rs does to the others.
use wayland_macos.Base.{
  ◌&&◌, ◌≡◌, refl, ap, sym, ◌∙◌, Bool, true, false, not, none, some, List, [], ◌∷◌, arith, retain,
  codes, Bool-cases, Option-cases, inl, inr,
}
use wayland_macos.Mac.{Text}
use wayland_macos.Cli.{
  System, scan, remove_all, text_eq, strip_prefix, strip_suffix, pidfile, client_sock, port_of,
  Files, Machine, discovered_ports, remove_file, stop_child, stop_own, stop_shared_audio,
  reap_audio, stop_instance, stop_each, stop_all,
}
use wayland_macos.Cli.Ports.{
  text_eq_refl, text_eq_sound, port_of-compositor, port_of-waypipe, port_of-socat,
  port_of-client_sock, port_of_sound,
}

-- The ports without one of them.
abbrev pub without : Text → List Text → List Text
without port = retain (λ p. not (text_eq p port))

-- A removed file that names no port was none of those scanned.
scan-remove_all :
    (y : System) (path : Text) (fs : Files)
    → port_of path ≡ none
    → (scan y (remove_all path fs)).0 ≡ (scan y fs).0
unfolding scan remove_all
scan-remove_all y path [] h = refl
scan-remove_all y path ((p, pid) ∷ rest) h = ground (
  arith,
  scan-remove_all y path rest h,
  λ (e : text_eq p path ≡ true). ap port_of (text_eq_sound p path e),
)

discovered_ports-remove_file :
    (y : System) (path : Text) (fs : Files)
    → port_of path ≡ none
    → (discovered_ports y (remove_file y path fs)).0 ≡ (discovered_ports y fs).0
unfolding discovered_ports remove_file
discovered_ports-remove_file y path fs h = ground (arith, scan-remove_all y path fs h)

-- The pidfile of an instance is known by the port it gives.
pidfile-text_eq :
    (port path q : Text)
    → port_of path ≡ some q
    → text_eq path (pidfile port (codes "compositor")) ≡ text_eq q port
pidfile-text_eq port path q h = elim (Bool-cases (text_eq q port)) [
  | inl e ↦
      ap (λ (t : Text). text_eq t (pidfile port (codes "compositor")))
        (port_of_sound path q h
          ∙ ap (λ (t : Text). pidfile t (codes "compositor")) (text_eq_sound q port e))
      ∙ text_eq_refl (pidfile port (codes "compositor"))
      ∙ sym e
  | inr n ↦ ground (
    arith,
    n,
    text_eq_refl port,
    port_of-compositor port,
    h,
    λ (e : text_eq path (pidfile port (codes "compositor")) ≡ true).
        ap port_of (text_eq_sound path (pidfile port (codes "compositor")) e),
  )
]

-- A path that gives no port is no pidfile of a compositor.
pidfile-text_eq-none :
    (port path : Text)
    → port_of path ≡ none
    → text_eq path (pidfile port (codes "compositor")) ≡ false
pidfile-text_eq-none port path h = ground (
  arith,
  port_of-compositor port,
  h,
  λ (e : text_eq path (pidfile port (codes "compositor")) ≡ true).
      ap port_of (text_eq_sound path (pidfile port (codes "compositor")) e),
)

-- The removal of a compositor's pidfile takes its port away, and no other.
scan-pidfile :
    (y : System) (port : Text) (fs : Files)
    → (scan y (remove_all (pidfile port (codes "compositor")) fs)).0 ≡ without port (scan y fs).0
unfolding scan remove_all retain
scan-pidfile y port [] = refl
scan-pidfile y port ((p, pid) ∷ rest) = elim (Option-cases (port_of p)) [
  | inl h ↦ ground (arith, scan-pidfile y port rest, h, pidfile-text_eq-none port p h)
  | inr (q, h) ↦ ground (arith, scan-pidfile y port rest, h, pidfile-text_eq port p q h)
]

-- Whether the pidfile of an instance can be removed.
abbrev pub Removes : System → Text → Type 0
Removes y port = y.removes (pidfile port (codes "compositor")) ≡ true

discovered_ports-pidfile :
    (y : System) (port : Text) (fs : Files)
    → Removes y port
    → (discovered_ports y (remove_file y (pidfile port (codes "compositor")) fs)).0
      ≡ without port (discovered_ports y fs).0
unfolding discovered_ports remove_file retain
discovered_ports-pidfile y port fs ok = ground (arith, ok, scan-pidfile y port fs)

-- The files that are left give the same ports again.
scan_again : (y : System) (fs : Files) → (scan y (scan y fs).1).0 ≡ (scan y fs).0
unfolding scan
scan_again y [] = refl
scan_again y ((p, pid) ∷ rest) = ground (arith, scan_again y rest)

discovered_ports_again :
    (y : System) (fs : Files)
    → (discovered_ports y (discovered_ports y fs).1).0 ≡ (discovered_ports y fs).0
unfolding discovered_ports
discovered_ports_again y fs = ground (arith, scan_again y fs)

stop_own-discovered :
    (y : System) (port : Text) (m : Machine)
    → Removes y port
    → (discovered_ports y (stop_own y port m).files).0 ≡ without port (discovered_ports y m.files).0
unfolding stop_own stop_child
stop_own-discovered y port m ok =
    let f1 : Files = remove_file y (pidfile port (codes "socat")) m.files in
    let f2 : Files = remove_file y (pidfile port (codes "waypipe")) f1 in
    discovered_ports-remove_file y (client_sock port)
      (remove_file y (pidfile port (codes "compositor")) f2) (port_of-client_sock port)
    ∙ discovered_ports-pidfile y port f2 ok
    ∙ ap (without port) (
        discovered_ports-remove_file y (pidfile port (codes "waypipe")) f1 (port_of-waypipe port)
        ∙ discovered_ports-remove_file y (pidfile port (codes "socat")) m.files
            (port_of-socat port))

audio_follow_port : port_of (codes "/tmp/wlmac-audio-follow.pid") ≡ none
unfolding port_of strip_prefix strip_suffix
audio_follow_port = refl

pulseaudio_port : port_of (codes "/tmp/wlmac-pulseaudio.pid") ≡ none
unfolding port_of strip_prefix strip_suffix
pulseaudio_port = refl

stop_shared_audio-discovered :
    (y : System) (m : Machine)
    → (discovered_ports y (stop_shared_audio y m).files).0 ≡ (discovered_ports y m.files).0
unfolding stop_shared_audio
stop_shared_audio-discovered y m =
    discovered_ports-remove_file y (codes "/tmp/wlmac-audio-follow.pid")
      (remove_file y (codes "/tmp/wlmac-pulseaudio.pid") m.files) audio_follow_port
    ∙ discovered_ports-remove_file y (codes "/tmp/wlmac-pulseaudio.pid") m.files pulseaudio_port

reap_audio-discovered :
    (y : System) (ports : List Text) (m : Machine)
    → (discovered_ports y (reap_audio y ports m).files).0 ≡ (discovered_ports y m.files).0
reap_audio-discovered y [] m = stop_shared_audio-discovered y m
reap_audio-discovered y (p ∷ ps) m = refl

-- Whether the audio bridge runs after an attempt to stop it.
abbrev pub once_stopped : System → Bool → Bool
once_stopped y runs = runs && not (y.has_audio && y.kills_audio)

stop_shared_audio-runs :
    (y : System) (m : Machine) → (stop_shared_audio y m).audio_runs ≡ once_stopped y m.audio_runs
unfolding stop_shared_audio
stop_shared_audio-runs y m = ground arith

reap_audio-runs :
    (y : System) (ports : List Text) (m : Machine)
    → (reap_audio y ports m).audio_runs
      ≡ elim ports [ [] ↦ once_stopped y m.audio_runs | p ∷ ps ↦ m.audio_runs ]
reap_audio-runs y [] m = stop_shared_audio-runs y m
reap_audio-runs y (p ∷ ps) m = refl

-- Where the pidfile of an instance's compositor can be removed, a stop of that instance takes its
-- port, and no other, out of the instances that are discovered afterwards, for ports of any
-- characters and files of any contents, where the system answers the same before and after. The
-- audio bridge that the instances share keeps its state as long as another instance is discovered;
-- with the last it is stopped, if pulseaudio is found and can be killed.
pub stop_instance-discovered :
    (y : System) (port : Text) (m : Machine)
    → Removes y port
    → let others : List Text = without port (discovered_ports y m.files).0 in
      let n : Machine = stop_instance y port m in
      ((discovered_ports y n.files).0 ≡ others)
      × (n.audio_runs ≡ elim others [ [] ↦ once_stopped y m.audio_runs | p ∷ ps ↦ m.audio_runs ])
unfolding stop_instance stop_own stop_child
stop_instance-discovered y port m ok =
    let own : Machine = stop_own y port m in
    let found : List Text × Files = discovered_ports y own.files in
    let cleaned : Machine = record own { files = found.1 } in
    let audio : List Text → Bool =
      λ ps. elim ps as (λ _. Bool) [ [] ↦ once_stopped y m.audio_runs | q ∷ qs ↦ m.audio_runs ] in
    (
      reap_audio-discovered y found.0 cleaned
          ∙ discovered_ports_again y own.files
          ∙ stop_own-discovered y port m ok,
      reap_audio-runs y found.0 cleaned ∙ ap audio (stop_own-discovered y port m ok),
    )

-- The ports that are left once each of a list is taken away.
abbrev without_each : List Text → List Text → List Text
without_each [] left = left
without_each (p ∷ ps) left = without_each ps (without p left)

without-without :
    (p q : Text) (left : List Text) → without p (without q left) ≡ without q (without p left)
unfolding retain
without-without p q [] = refl
without-without p q (x ∷ xs) = ground (arith, without-without p q xs)

without_each-without :
    (ps : List Text) (q : Text) (left : List Text)
    → without_each ps (without q left) ≡ without q (without_each ps left)
without_each-without [] q left = refl
without_each-without (p ∷ ps) q left =
    ap (without_each ps) (without-without p q left) ∙ without_each-without ps q (without p left)

without_each_all : (ps : List Text) → without_each ps ps ≡ []
unfolding retain
without_each_all [] = refl
without_each_all (p ∷ ps) =
    let first : without p (p ∷ ps) ≡ without p ps = ground (arith, text_eq_refl p) in
    ap (without_each ps) first ∙ without_each-without ps p ps ∙ ap (without p) (without_each_all ps)

stop_each-discovered :
    (y : System) (ps : List Text) (m : Machine)
    → ((p : Text) → Removes y p)
    → ((discovered_ports y (stop_each y ps m).files).0
        ≡ without_each ps (discovered_ports y m.files).0)
      × (once_stopped y (stop_each y ps m).audio_runs ≡ once_stopped y m.audio_runs)
stop_each-discovered y [] m ok = (refl, refl)
stop_each-discovered y (p ∷ ps) m ok =
    let (left, audio) = stop_instance-discovered y p m (ok p) in
    let (none_left, later) = stop_each-discovered y ps (stop_instance y p m) ok in
    (none_left ∙ ap (without_each ps) left, later ∙ ground (arith, audio))

-- Where the pidfiles of compositors can be removed, `stop --all` leaves no instance to be
-- discovered, even if every pid still counts as alive, and the audio bridge stopped, if pulseaudio
-- is found and can be killed; otherwise that keeps its state.
pub stop_all-discovered :
    (y : System) (m : Machine)
    → ((p : Text) → Removes y p)
    → ((discovered_ports y (stop_all y m).files).0 ≡ [])
      × ((stop_all y m).audio_runs ≡ once_stopped y m.audio_runs)
unfolding stop_all
stop_all-discovered y m ok =
    let found : List Text × Files = discovered_ports y m.files in
    let cleaned : Machine = record m { files = found.1 } in
    let (left, audio) = stop_each-discovered y found.0 cleaned ok in
    (
      stop_shared_audio-discovered y (stop_each y found.0 cleaned)
          ∙ left
          ∙ ap (without_each found.0) (discovered_ports_again y m.files)
          ∙ without_each_all found.0,
      stop_shared_audio-runs y (stop_each y found.0 cleaned) ∙ audio,
    )
