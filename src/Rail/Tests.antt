-- ===== src/Rail/Tests.antt =====
-- Runs of the RAIL router at concrete inputs.
pub mod Front
use wayland_macos.Base.{◌*◌, ◌/◌, ◌≡◌, refl, ◌≢◌, ◌↔◌, true, none, some, List, [], ◌∷◌, arith, ltb}
use wayland_macos.Base.Int.{pos, pos_part, ◌+i32◌, ◌-i32◌}
use wayland_macos.Base.Float.{F64}
use wayland_macos.Base.Map.{lookup}
use wayland_macos.Rail.Route.{
  Kind, Rect, Router, new, kind_of, is_some_mirror, covers, window_order, now_filtered,
  normalize_owner, is_decoration, resolve, window_deleted,
}
use wayland_macos.Rail.Route.Bridge.{Message, order, delete, run, start}
use wayland_macos.Rail.Route.Bridge.Agreement.{run_announced}
use wayland_macos.Rail.Route.Pixels.{Names, resolve_exact, resolve-window_deleted}
use wayland_macos.Rail.Route.Frames.{
  frame_first, content_first, arrival_order, geometry_order_reclassifies,
}

-- Arithmetic on whole numbers, where a product with the ratio is four fifths.
abbrev whole : F64
whole = record { of_int = λ n. pos_part n; mul = λ a b. 4 * b / 5; lt = ltb }

abbrev frame_rect : Rect
frame_rect = record { x = pos 0; y = pos 0; w = pos 100; h = pos 100 }

abbrev content_rect : Rect
content_rect = record { x = pos 2; y = pos 2; w = pos 96; h = pos 96 }

-- A frame, its content, and the content's end.
abbrev messages : List Message
messages = order 1 true 0 0 frame_rect ∷ order 2 true 0 1 content_rect ∷ delete 2 ∷ []

run_announced_example :
    ((run whole start messages).announced 1
      ≡ is_some_mirror (kind_of (run whole start messages).router.windows 1))
    × ((run whole start messages).router.demoted ≡ [])
run_announced_example = run_announced whole messages 1

-- One mirrored window, to which surface 9 is mapped.
abbrev one_window : Router
one_window = record {
  windows = (1, record { kind = Kind.mirror; owner = none; rect = frame_rect }) ∷ [];
  surf_map = (9, 1) ∷ [];
  demoted = [];
}

resolve_exact_example :
    (resolve one_window 9 0 ≡ some 1)
    ↔ (Names one_window 9 0 1 × (is_some_mirror (kind_of one_window.windows 1) ≡ true))
resolve_exact_example = resolve_exact one_window 9 0 1

deleted_unnamed : resolve (window_deleted one_window 1).0 9 1 ≢ some 1
deleted_unnamed = resolve-window_deleted one_window 1 9 1

arrival_order_example :
    let a = frame_first whole 1 2 0 0 0 frame_rect content_rect in
    let b = content_first whole 1 2 0 0 0 frame_rect content_rect in
    (kind_of a.windows 1 ≡ some Kind.filtered)
    × (kind_of a.windows 2 ≡ some Kind.mirror)
    × (a.demoted ≡ 1 ∷ [])
    × (kind_of b.windows 1 ≡ some Kind.filtered)
    × (kind_of b.windows 2 ≡ some Kind.mirror)
    × (b.demoted ≡ [])
unfolding covers normalize_owner is_decoration ◌+i32◌ ◌-i32◌
arrival_order_example =
    arrival_order whole 1 2 0 0 0 frame_rect content_rect (λ e. omega arith) refl (λ e. cc) refl
      refl refl

-- The frame is mirrored, and its content has not covered it so far.
abbrev shrinking : Router
shrinking = record new {
  windows =
      (1, record { kind = Kind.mirror; owner = none; rect = frame_rect })
      ∷ (2, record { kind = Kind.mirror; owner = some 1; rect = content_rect })
      ∷ [];
}

geometry_order_reclassifies_example :
    (window_order whole shrinking 1 none frame_rect).1 ≡ now_filtered
unfolding covers lookup ◌+i32◌ ◌-i32◌
geometry_order_reclassifies_example =
    geometry_order_reclassifies whole shrinking 1 2
      (record { kind = Kind.mirror; owner = some 1; rect = content_rect }) frame_rect refl refl
      (λ e. omega arith) refl refl
