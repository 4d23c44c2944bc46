-- ===== src/Mac/Shell.antt =====
-- src/mac.rs: the state of the AppKit thread beside the windows themselves, which commands and mouse
-- buttons change. A window is its frame; coordinates are 64-bit patterns of `f64`.
pub mod Release
pub mod Fill
use wayland_macos.Base.{
  ℕ, Bool, true, false, not, ◌&&◌, ◌||◌, Option, none, some, List, [], ◌∷◌, if◌then◌else◌, ◌==◌,
  holds, is_some, retain, contains,
}
use wayland_macos.Base.Map.{Map, lookup, insert, remove, modify}
use wayland_macos.Wayland.Input.{InputEvent, pointer_motion, pointer_button, popup_dismiss}
use wayland_macos.Mac.Placement.{Frame}
use wayland_macos.Mac.Constrain.{Screen, Desk, work_area, granted}

pub record Shell : Type 0 where
  pub windows : Map Frame
  pub grab : Option ℕ
  pub implicit_grab : Option ℕ
  -- Where the mouse was at the press.
  pub implicit_grab_origin : Option (ℕ × ℕ)
  pub saved_frames : Map Frame
  pub fullscreen : List ℕ
  pub layer_windows : List ℕ
  pub popup_windows : List ℕ
  -- What was pushed to the bus, the latest first, and how often the focus was restored.
  pub events : List InputEvent
  pub refocused : ℕ

unfoldable pub push : InputEvent → Shell → Shell
push e s = record s { events = e ∷ s.events }

unfoldable pub popup_open : Shell → Bool
popup_open s = elim s.popup_windows [ [] ↦ false | _ ∷ _ ↦ true ]

unfoldable pub restore_focus_under_cursor : Shell → Shell
restore_focus_under_cursor s = record s { refocused = ℕ.suc s.refocused }

unfoldable pub set_grab : Option ℕ → Shell → Shell
unfolding restore_focus_under_cursor
set_grab window s =
    let set = record s { grab = window } in
    if not (is_some window) && is_some s.grab then restore_focus_under_cursor set else set

-- The grabbing popup, and the grab cleared if its window is gone.
unfoldable pub grabbed : Shell → Shell × Option ℕ
grabbed s = elim s.grab [
  | none ↦ (s, none)
  | some g ↦ if is_some (lookup g s.windows) then (s, some g) else (record s { grab = none }, none)
]

-- The mouse: where it is, where it is in a window of a given frame and whether that is inside, and
-- whether it is more than 6 points from a place.
pub record Mouse : Type 0 where
  pub location : ℕ × ℕ
  pub within : Frame → ℕ × ℕ × Bool
  pub travelled : ℕ × ℕ → Bool

unfoldable pub global_in_window : Mouse → ℕ → Shell → Option (ℕ × ℕ × Bool)
global_in_window m id s = elim (lookup id s.windows) [ none ↦ none | some f ↦ some (m.within f) ]

abbrev pub dragged : Mouse → Shell → Bool
dragged m s = elim s.implicit_grab_origin [ none ↦ false | some p ↦ m.travelled p ]

-- The release of a button belongs to the window of the press.
unfoldable pub release_implicit : ℕ → Shell → Shell
unfolding push
release_implicit button s = elim s.implicit_grab [
  | none ↦ s
  | some w ↦ push (pointer_button w button false) (record s { implicit_grab = none })
]

-- A drag into the grabbing popup releases there.
unfoldable pub release_into : Mouse → ℕ → ℕ → Shell → Shell
unfolding push global_in_window release_implicit
release_into m g button s = elim (global_in_window m g s) [
  | none ↦ release_implicit button s
  | some (x, y, inside) ↦
      if inside
      then record (push (pointer_button g button false) (push (pointer_motion g x y) s)) {
        implicit_grab = none;
      }
      else release_implicit button s
]

unfoldable pub handle_release : Mouse → ℕ → Shell → Shell
unfolding grabbed release_into release_implicit
handle_release m button s =
    let left = record s { implicit_grab_origin = none } in
    if dragged m s
    then elim (grabbed left).1 [
      | none ↦ release_implicit button (grabbed left).0
      | some g ↦ release_into m g button (grabbed left).0
    ]
    else release_implicit button left

-- A press while a popup grabs: inside it goes to the popup, outside it dismisses it.
unfoldable pub press_grabbed : Mouse → ℕ → ℕ → Shell → Shell
unfolding push global_in_window
press_grabbed m g button s = elim (global_in_window m g s) [
  | none ↦ s
  | some (x, y, inside) ↦
      if inside
      then record (push (pointer_button g button true) (push (pointer_motion g x y) s)) {
        implicit_grab = some g;
      }
      else record (push (popup_dismiss g) s) { implicit_grab = none }
]

unfoldable pub handle_press : Mouse → ℕ → ℕ → Shell → Shell
unfolding push grabbed press_grabbed
handle_press m window_id button s =
    let noted = record s { implicit_grab_origin = some m.location } in
    elim (grabbed noted).1 [
      | some g ↦ press_grabbed m g button (grabbed noted).0
      | none ↦ record (push (pointer_button window_id button true) (grabbed noted).0) {
        implicit_grab = some window_id;
      }
    ]

abbrev pub keep_first : ℕ → Frame → Map Frame → Map Frame
keep_first id f m = if is_some (lookup id m) then m else insert id f m

abbrev pub put_in : ℕ → List ℕ → List ℕ
put_in id l = if contains l id then l else id ∷ l

abbrev pub take_out : ℕ → List ℕ → List ℕ
take_out id l = retain (λ j. not (j == id)) l

abbrev pub set_frame : Frame → Frame → Frame
set_frame f old = f

-- Whether the window's frame is set exactly.
abbrev pub exempt : ℕ → Shell → Bool
exempt id s = contains s.fullscreen id || contains s.layer_windows id

-- `setFrame_display`.
unfoldable pub set_window_frame : Desk → ℕ → Frame → Shell → Shell
unfolding modify contains
set_window_frame d id f s = record s {
  windows = modify id (set_frame (granted d (exempt id s) f)) s.windows;
}

unfoldable pub fill_on : Desk → ℕ → Bool → Frame → Shell → Shell
unfolding lookup insert retain contains set_window_frame
fill_on d id full f s =
    let noted = record s {
      saved_frames = keep_first id f s.saved_frames;
      fullscreen = if full then put_in id s.fullscreen else take_out id s.fullscreen;
    } in
    elim d.screen [
      | none ↦ noted
      | some r ↦ set_window_frame d id (if full then r.frame else work_area d r.visible) noted
    ]

unfoldable pub fill_off : Desk → ℕ → Shell → Shell
unfolding lookup remove retain set_window_frame
fill_off d id s =
    let left = record s {
      fullscreen = take_out id s.fullscreen;
      saved_frames = remove id s.saved_frames;
    } in
    elim (lookup id s.saved_frames) [ none ↦ left | some saved ↦ set_window_frame d id saved left ]

unfoldable pub set_window_fill : Desk → ℕ → Bool → Bool → Shell → Shell
unfolding fill_on fill_off
set_window_fill d id on full s = elim (lookup id s.windows) [
  | none ↦ s
  | some f ↦ if on then fill_on d id full f s else fill_off d id s
]

-- `WinCmd::Destroy`.
unfoldable pub forget_window : ℕ → Shell → Shell
unfolding remove retain
forget_window id s = record s {
  grab = if holds s.grab id then none else s.grab;
  windows = remove id s.windows;
  layer_windows = take_out id s.layer_windows;
  fullscreen = take_out id s.fullscreen;
  saved_frames = remove id s.saved_frames;
  popup_windows = take_out id s.popup_windows;
}

unfoldable pub destroy_window : ℕ → Shell → Shell
unfolding forget_window restore_focus_under_cursor popup_open contains
destroy_window id s =
    let left = forget_window id s in
    if holds s.grab id
    then restore_focus_under_cursor left
    else if contains s.popup_windows id && not (popup_open left)
    then restore_focus_under_cursor left
    else left
