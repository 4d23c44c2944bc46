-- ===== src/Wayland/Core.antt =====
-- src/wayland/mod.rs: serials and ids, who gets an event, names, and the periodic tick.
pub mod Names
pub mod Tick
use mathlib.Core.List.{reverse}
use wayland_macos.Base.{
  ℕ, zero, suc, ◌+◌, ◌/◌, ◌%◌, ◌^◌, ◌≡◌, Bool, true, false, not, ◌&&◌, ◌||◌, Option, none, some,
  List, [], ◌∷◌, ◌++◌, map, if◌then◌else◌, ◌==◌, or_else, take, leb, contains, retain, codes,
}
use wayland_macos.Base.Map.{Map, lookup, insert, remove, size}
use wayland_macos.Mac.{WinCmd, Text}
use wayland_macos.Wayland.Types.{
  Env, Event, MacCall, post, SurfaceRec, State, Clipboard, callback_done, presented, pointer_frame,
}

abbrev pub u32_mod : ℕ
u32_mod = 4294967296

abbrev pub send : Event → State → State
send e s = record s { sent = e ∷ s.sent }

abbrev pub call : MacCall → State → State
call c s = record s { calls = c ∷ s.calls }

-- The serial handed out is the one before the increment, which wraps.
abbrev pub next : State → State
next s = record s { next_serial = (s.next_serial + 1) % u32_mod }

-- `alloc_window_id` hands out `next_window_id`, and wraps in a release build.
abbrev pub alloc_window_id : State → State
alloc_window_id s = record s { next_window_id = (s.next_window_id + 1) % u32_mod }

unfoldable pub same_client : Env → ℕ → ℕ → Bool
same_client env res surface = elim (env.client res) [
  | none ↦ false
  | some a ↦ elim (env.client surface) [ none ↦ false | some b ↦ a == b ]
]

-- `pointers_for` and `keyboards_for`: the live ones of the surface's client.
unfoldable pub devices_for : Env → List ℕ → ℕ → List ℕ
unfolding same_client retain
devices_for env devices surface = retain (λ d. env.is_alive d && same_client env d surface) devices

-- `for d in devices`.
unfoldable pub for_each : (ℕ → State → State) → List ℕ → State → State
for_each f [] s = s
for_each f (d ∷ ds) s = for_each f ds (f d s)

unfoldable pub frame_pointer : Env → ℕ → State → State
frame_pointer env p s = if leb 5 (env.version p) then send (pointer_frame p) s else s

-- `app_key_for`: the key of a client, a fresh one on first sight.
unfoldable pub app_key_for : Map ℕ → Option ℕ → Map ℕ × ℕ
app_key_for m none = (m, 0)
app_key_for m (some cid) = elim (lookup cid m) [
  | some k ↦ (m, k)
  | none ↦ (insert cid (size m % u32_mod) m, size m % u32_mod)
]

-- `rsplit('.').next()`: what follows the last dot.
unfoldable pub last_component : Text → Text
unfolding contains
last_component [] = []
last_component (c ∷ cs) =
    let rest = last_component cs in
    if contains cs b'.' then rest else if c == b'.' then cs else c ∷ cs

unfoldable pub text_eq : Text → Text → Bool
text_eq [] [] = true
text_eq [] (d ∷ ds) = false
text_eq (c ∷ cs) [] = false
text_eq (c ∷ cs) (d ∷ ds) = c == d && text_eq cs ds

unfoldable pub trim_start : Env → Text → Text
trim_start env [] = []
trim_start env (c ∷ cs) =
    let rest = trim_start env cs in if env.is_whitespace c then rest else c ∷ cs

unfoldable pub trim : Env → Text → Text
unfolding trim_start
trim env t = reverse (trim_start env (reverse (trim_start env t)))

abbrev pub wayland_window : Text
wayland_window = codes "Wayland Window"

abbrev pub wayland_macos_name : Text
wayland_macos_name = codes "wayland-macos"

unfoldable pub capitalize : Env → Text → Text → Text
capitalize env app_id [] = app_id
capitalize env app_id (f ∷ rest) = env.to_uppercase f ++ rest

unfoldable pub is_empty : Text → Bool
is_empty [] = true
is_empty (c ∷ cs) = false

unfoldable pub raw_name : Env → Text → Text → Text
unfolding last_component text_eq capitalize is_empty
raw_name env app_id title =
    if not (is_empty app_id)
    then capitalize env app_id (last_component app_id)
    else if not (is_empty title) && not (text_eq title wayland_window)
    then title
    else wayland_macos_name

-- A `/`, a NUL or a `:` becomes a `-`.
unfoldable pub clean_char : ℕ → ℕ
clean_char ch = if ch == b'/' || ch == 0 || ch == b':' then b'-' else ch

unfoldable pub app_display_name : Env → Text → Text → Text
unfolding raw_name clean_char trim is_empty
app_display_name env app_id title =
    let cleaned = trim env (map clean_char (raw_name env app_id title)) in
    if is_empty cleaned then wayland_macos_name else take 64 cleaned

-- `presented` goes to every feedback object of the surface, which are dropped.
unfoldable pub fire_presentation_feedback : Env → ℕ → State → State
fire_presentation_feedback env sid s =
    for_each
      (λ fb. send (
        presented fb (env.monotonic.0 / u32_mod % u32_mod) (env.monotonic.0 % u32_mod)
          env.monotonic.1 16666667))
      (or_else (lookup sid s.presentation_feedback) [])
      (record s { presentation_feedback = remove sid s.presentation_feedback })

-- The callbacks of every surface, drained: what is left of the surfaces.
unfoldable pub drain_callbacks : Map SurfaceRec → Map SurfaceRec
drain_callbacks [] = []
drain_callbacks ((sid, rec) ∷ m) = (sid, record rec { frame_callbacks = [] }) ∷ drain_callbacks m

unfoldable pub all_callbacks : Map SurfaceRec → List ℕ
all_callbacks [] = []
all_callbacks ((sid, rec) ∷ m) = rec.frame_callbacks ++ all_callbacks m

abbrev pub keys {ℓ} : {V : Type ℓ} → Map V → List ℕ
keys m = map (λ e. e.0) m

unfoldable pub vblank_tick : Env → State → State
unfolding drain_callbacks all_callbacks
vblank_tick env s =
    let done =
      for_each (λ cb. send (callback_done cb env.time)) (all_callbacks s.surfaces)
        (record s { surfaces = drain_callbacks s.surfaces }) in
    for_each (fire_presentation_feedback env) (keys s.presentation_feedback) done
