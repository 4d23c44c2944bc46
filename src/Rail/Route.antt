-- ===== src/Rail/Route.antt =====
-- src/rail_route.rs: which RAIL windows are mirrored to native windows, and which window a
-- surface's pixels go to. The state is `Router`; a method returns the new state and its result.
pub mod Frames
pub mod Bridge
pub mod Pixels
use wayland_macos.Base.{
  ℕ, ◌*◌, ◌≡◌, refl, Bool, true, false, not, ◌&&◌, ◌||◌, Option, none, some, List, [], ◌∷◌, bit_and,
  if◌then◌else◌, ◌==◌, holds, is_some, or_else, retain,
}
use wayland_macos.Base.Int.{ℤ, pos, negsuc, pos_part, leb_ℤ, ◌+i32◌, ◌-i32◌}
use wayland_macos.Base.Float.{F64}
use wayland_macos.Base.Map.{Map, lookup, insert, remove, modify, retain_values, any_entry, size}

abbrev pub ws_ex_toolwindow : ℕ
ws_ex_toolwindow = 0x80

abbrev pub ws_ex_noactivate : ℕ
ws_ex_noactivate = 0x8000000

abbrev pub owner_none_a : ℕ
owner_none_a = 0

abbrev pub owner_none_b : ℕ
owner_none_b = 0xffffffff

-- The bits of the literal 0.8.
abbrev pub frame_cover_ratio : ℕ
frame_cover_ratio = 0x3fe999999999999a

abbrev pub contain_slack : ℤ
contain_slack = pos 8

pub data Kind : Type 0 where
  mirror filtered : Kind

abbrev pub is_mirror : Kind → Bool
is_mirror Kind.mirror = true
is_mirror Kind.filtered = false

pub record Rect : Type 0 where
  pub x : ℤ
  pub y : ℤ
  pub w : ℤ
  pub h : ℤ

-- The product of two non-negative `i32` always fits its `i64`.
unfoldable pub area : Rect → ℕ
area r = pos_part r.w * pos_part r.h

-- The two tests of `covers` behind its float comparison: the child sits inside, up to the slack.
unfoldable pub inside : Rect → Rect → Bool
inside self owner =
    leb_ℤ (owner.x -i32 contain_slack) self.x
    && leb_ℤ (owner.y -i32 contain_slack) self.y
    && leb_ℤ (self.x +i32 self.w) (owner.x +i32 owner.w +i32 contain_slack)
    && leb_ℤ (self.y +i32 self.h) (owner.y +i32 owner.h +i32 contain_slack)

unfoldable pub covers : F64 → Rect → Rect → Bool
unfolding area inside
covers f self owner =
    if area owner == 0 || area self == 0
    then false
    else if f.lt (f.of_int (pos (area self)))
        (f.mul frame_cover_ratio (f.of_int (pos (area owner))))
    then false
    else inside self owner

pub record Win : Type 0 where
  pub kind : Kind
  pub owner : Option ℕ
  pub rect : Rect

pub data Order : Type 0 where
  new_mirror known_mirror now_filtered filtered : Order

unfoldable pub is_decoration : ℕ → Option ℕ → Bool
is_decoration exstyle owner =
    if not (bit_and exstyle ws_ex_toolwindow == 0)
    then true
    else is_some owner && not (bit_and exstyle ws_ex_noactivate == 0)

unfoldable pub normalize_owner : ℕ → Option ℕ
normalize_owner owner = if owner == owner_none_a || owner == owner_none_b then none else some owner

pub record Router : Type 0 where
  pub windows : Map Win
  pub surf_map : Map ℕ
  -- The vector's last element comes first.
  pub demoted : List ℕ

unfoldable pub new : Router
new = record { windows = []; surf_map = []; demoted = [] }

-- The kind under which an id is tracked.
abbrev pub kind_of : Map Win → ℕ → Option Kind
kind_of windows id = elim (lookup id windows) [ none ↦ none | some w ↦ some w.kind ]

abbrev pub is_some_mirror : Option Kind → Bool
is_some_mirror none = false
is_some_mirror (some k) = is_mirror k

-- The closure of `has_covering_child`: `c` is another window, owned by `id`, that covers `parent`.
abbrev pub is_covering_child : F64 → ℕ → Rect → ℕ → Win → Bool
is_covering_child f id parent cid c = not (cid == id) && holds c.owner id && covers f c.rect parent

unfoldable pub has_covering_child : F64 → Map Win → ℕ → Bool
has_covering_child f windows id = elim (lookup id windows) [
  | none ↦ false
  | some w ↦ any_entry (is_covering_child f id w.rect) windows
]

abbrev pub Style : Type 0
Style = Option (ℕ × ℕ)

unfoldable pub style_owner : Style → Option ℕ
unfolding normalize_owner
style_owner none = none
style_owner (some (exstyle, o)) = normalize_owner o

-- The owner that a styled order names, else the one learned before.
unfoldable pub order_owner : Map Win → ℕ → Style → Option ℕ
unfolding style_owner
order_owner windows id style = elim (style_owner style) [
  | some p ↦ some p
  | none ↦ elim (lookup id windows) [ none ↦ none | some w ↦ w.owner ]
]

-- The `match style` that classifies the window; `covered` is `has_covering_child`.
unfoldable pub classify : Style → Option ℕ → Option Kind → Bool → Kind
unfolding is_decoration
classify (some (exstyle, o)) owner prev covered =
    if is_decoration exstyle owner || covered then Kind.filtered else Kind.mirror
classify none owner prev covered = if covered then Kind.filtered else or_else prev Kind.mirror

-- Demote a now-covered owner that was mirrored.
unfoldable pub demote_owner : F64 → Option ℕ → Router → Router
demote_owner f none r = r
demote_owner f (some p) r =
    if is_some_mirror (kind_of r.windows p) && has_covering_child f r.windows p
    then record r {
      windows = modify p (λ w. record w { kind = Kind.filtered }) r.windows;
      demoted = p ∷ r.demoted;
    }
    else r

unfoldable pub outcome : Option Kind → Kind → Order
outcome (some Kind.mirror) Kind.mirror = known_mirror
outcome (some Kind.mirror) Kind.filtered = now_filtered
outcome (some Kind.filtered) Kind.mirror = new_mirror
outcome (some Kind.filtered) Kind.filtered = Order.filtered
outcome none Kind.mirror = new_mirror
outcome none Kind.filtered = Order.filtered

-- The window as it is inserted, before it is classified.
unfoldable pub insert_window : Router → ℕ → Style → Rect → Router
unfolding order_owner
insert_window r id style rect = record r {
  windows =
      insert id
        (record {
          kind = or_else (kind_of r.windows id) Kind.mirror;
          owner = order_owner r.windows id style;
          rect = rect;
        })
        r.windows;
}

-- The kind that the order gives the window.
unfoldable pub order_kind : F64 → Router → ℕ → Style → Rect → Kind
unfolding insert_window classify
order_kind f r id style rect =
    classify style (order_owner r.windows id style) (kind_of r.windows id)
      (has_covering_child f (insert_window r id style rect).windows id)

unfoldable pub set_kind : ℕ → Kind → Router → Router
set_kind id k r = record r { windows = modify id (λ w. record w { kind = k }) r.windows }

-- The router once the window is tracked and classified.
unfoldable pub classified : F64 → Router → ℕ → Style → Rect → Router
unfolding order_kind set_kind insert_window
classified f r id style rect =
    set_kind id (order_kind f r id style rect) (insert_window r id style rect)

unfoldable pub window_order : F64 → Router → ℕ → Style → Rect → Router × Order
unfolding classified demote_owner outcome
window_order f r id style rect = (
  demote_owner f (order_owner r.windows id style) (classified f r id style rect),
  outcome (kind_of r.windows id) (order_kind f r id style rect),
)

unfoldable pub pop_demoted : Router → Router × Option ℕ
pop_demoted r = elim r.demoted [ [] ↦ (r, none) | p ∷ rest ↦ (record r { demoted = rest }, some p) ]

unfoldable pub window_deleted : Router → ℕ → Router × Bool
unfolding retain
window_deleted r id = (
  record {
    windows = remove id r.windows;
    surf_map = retain_values (λ w. not (w == id)) r.surf_map;
    demoted = retain (λ d. not (d == id)) r.demoted;
  },
  is_some_mirror (kind_of r.windows id),
)

unfoldable pub map_surface : Router → ℕ → ℕ → Router
map_surface r surface_id window_id = record r { surf_map = insert surface_id window_id r.surf_map }

unfoldable pub unmap_window : Router → ℕ → Router
unmap_window r window_id = record r {
  surf_map = retain_values (λ w. not (w == window_id)) r.surf_map;
}

unfoldable pub mirrored : Router → ℕ → Option ℕ
mirrored r id = if is_some_mirror (kind_of r.windows id) then some id else none

-- The only window of the session, if it is mirrored.
unfoldable pub sole_window : Map Win → Option ℕ
sole_window [] = none
sole_window ((id, w) ∷ []) = if is_mirror w.kind then some id else none
sole_window ((id, w) ∷ _ ∷ _) = none

unfoldable pub resolve : Router → ℕ → ℕ → Option ℕ
unfolding mirrored sole_window
resolve r surface_id surface_window_id = elim (lookup surface_id r.surf_map) [
  | some w ↦ mirrored r w
  | none ↦
      if not (surface_window_id == 0) then mirrored r surface_window_id else sole_window r.windows
]

-- The wrappers that the C bridge calls. `rail_route_reset` replaces the router by `new`.
unfoldable pub order_code : Order → ℤ
order_code new_mirror = pos 1
order_code known_mirror = pos 0
order_code now_filtered = negsuc 0
order_code Order.filtered = negsuc 1

abbrev pub ffi_style : Bool → ℕ → ℕ → Style
ffi_style has_style exstyle owner = if has_style then some (exstyle, owner) else none

unfoldable pub rail_route_window_order : F64 → Router → ℕ → Bool → ℕ → ℕ → Rect → Router × ℤ
unfolding window_order order_code
rail_route_window_order f r id has_style exstyle owner rect =
    let (r', o) = window_order f r id (ffi_style has_style exstyle owner) rect in (r', order_code o)

unfoldable pub rail_route_pop_demoted : Router → Router × ℕ
unfolding pop_demoted
rail_route_pop_demoted r = let (r', p) = pop_demoted r in (r', or_else p 0)

unfoldable pub rail_route_resolve : Router → ℕ → ℕ → ℕ
unfolding resolve
rail_route_resolve r surface_id surface_window_id =
    or_else (resolve r surface_id surface_window_id) 0
