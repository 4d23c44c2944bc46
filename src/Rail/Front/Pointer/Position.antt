-- ===== src/Rail/Front/Pointer/Position.antt =====
-- Where the pointer messages of src/rail.rs are sent from.
use Prim.Native.Nat.{bit_or}
use wayland_macos.Base.{ℕ, ◌≡◌, refl, ap, sym, ◌∙◌, Bool, List, [], ◌∷◌, ◌++◌, arith, if◌then◌else◌}
use wayland_macos.Base.Int.{ℤ}
use wayland_macos.Wayland.Input.{
  InputEvent, pointer_enter, pointer_motion, pointer_button, pointer_axis,
}
use wayland_macos.Rail.Front.Pointer.{
  Floats, Loop, send_pointer, say, moved, button_flag, ptr_flags_down, forward_event, forward_all,
}

-- The last place that a list of events says of the pointer.
unfoldable pub last_place : Floats → List InputEvent → ℤ × ℤ → ℤ × ℤ
last_place f [] p = p
last_place f (pointer_enter window_id x y ∷ rest) p = last_place f rest (f.as_i32 x, f.as_i32 y)
last_place f (pointer_motion window_id x y ∷ rest) p = last_place f rest (f.as_i32 x, f.as_i32 y)
last_place f (_ ∷ rest) p = last_place f rest p

abbrev pub place : Loop → ℤ × ℤ
place l = (l.last_x, l.last_y)

axis-place :
    (f : Floats) (dx dy : ℕ) (l : Loop) → place (forward_event f (pointer_axis dx dy) l) ≡ place l
unfolding forward_event say
axis-place f dx dy l = ground arith

forward_all-place :
    (f : Floats) (es : List InputEvent) (l : Loop)
    → place (forward_all f es l) ≡ last_place f es (place l)
unfolding forward_all last_place forward_event moved say
forward_all-place f [] l = refl
forward_all-place f (pointer_axis dx dy ∷ rest) l =
    forward_all-place f rest (forward_event f (pointer_axis dx dy) l)
    ∙ ap (last_place f rest) (axis-place f dx dy l)
forward_all-place f (e ∷ rest) l = forward_all-place f rest (forward_event f e l)

-- A button, after any events, is sent for its window at the pointer's last place.
pub button_at_pointer :
    (f : Floats) (es : List InputEvent) (window_id button : ℕ) (pressed : Bool) (l : Loop)
    → (forward_event f (pointer_button window_id button pressed) (forward_all f es l)).sent
      ≡ (forward_all f es l).sent
        ++ (send_pointer window_id
              (last_place f es (place l)).0
              (last_place f es (place l)).1
              (bit_or (button_flag button) (if pressed then ptr_flags_down else 0))
            ∷ [])
unfolding forward_event say
button_at_pointer f es window_id button pressed l = rw (sym (forward_all-place f es l)) refl
