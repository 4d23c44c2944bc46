-- ===== src/Rail/Route/Frames.antt =====
-- How src/rail_route.rs tells a shadow frame from the content window that it wraps.
use wayland_macos.Base.{ℕ, ◌≡◌, ◌≢◌, true, false, none, some, [], ◌∷◌, arith, or_else}
use wayland_macos.Base.Float.{F64}
use wayland_macos.Base.Map.{lookup, insert, modify, any_entry, lookup-insert, any_entry-lookup}
use wayland_macos.Rail.Route.{
  Kind, Win, Rect, Router, kind_of, covers, is_decoration, normalize_owner, has_covering_child, new,
  classify, window_order, now_filtered, style_owner, insert_window, order_owner, is_covering_child,
}

-- The kinds of a frame and of its content after both orders, the frame's first.
abbrev pub frame_first : F64 → ℕ → ℕ → ℕ → ℕ → ℕ → Rect → Rect → Router
frame_first f frame content ex_f own_f ex_c rf rc =
    (window_order f (window_order f new frame (some (ex_f, own_f)) rf).0 content
      (some (ex_c, frame)) rc).0

abbrev pub content_first : F64 → ℕ → ℕ → ℕ → ℕ → ℕ → Rect → Rect → Router
content_first f frame content ex_f own_f ex_c rf rc =
    (window_order f (window_order f new content (some (ex_c, frame)) rc).0 frame
      (some (ex_f, own_f)) rf).0

module _ (f : F64) (frame content ex_f own_f ex_c : ℕ) (rf rc : Rect) (distinct : frame ≢ content)
    (real : normalize_owner frame ≡ some frame) (elsewhere : normalize_owner own_f ≢ some content)
    (plain_f : is_decoration ex_f (normalize_owner own_f) ≡ false)
    (plain_c : is_decoration ex_c (some frame) ≡ false) (covering : covers f rc rf ≡ true) where
  -- From a router that tracks no other window, whichever of the two orders comes first, a shadow
  -- frame ends up filtered and the content window that it owns and that covers it ends up mirrored,
  -- if neither is a decoration by its style, the frame's id is a real owner and the frame is not
  -- owned by its content. The frame is queued for destruction exactly when it came first.
  pub arrival_order :
      let a = frame_first f frame content ex_f own_f ex_c rf rc in
      let b = content_first f frame content ex_f own_f ex_c rf rc in
      (kind_of a.windows frame ≡ some Kind.filtered)
      × (kind_of a.windows content ≡ some Kind.mirror)
      × (a.demoted ≡ frame ∷ [])
      × (kind_of b.windows frame ≡ some Kind.filtered)
      × (kind_of b.windows content ≡ some Kind.mirror)
      × (b.demoted ≡ [])
  unfolding window_order lookup insert modify any_entry style_owner has_covering_child classify new
  arrival_order =
      (ground arith, ground arith, ground arith, ground arith, ground arith, ground arith)

module _ (f : F64) (r : Router) (frame content : ℕ) (w : Win) (rect : Rect) where
  newly_covered :
      lookup content r.windows ≡ some w
      → w.owner ≡ some frame
      → content ≢ frame
      → covers f w.rect rect ≡ true
      → has_covering_child f (insert_window r frame none rect).windows frame ≡ true
  unfolding has_covering_child insert_window
  newly_covered found owned ne covering = ground (
    arith,
    lookup-insert frame frame
        (record {
          kind = or_else (kind_of r.windows frame) Kind.mirror;
          owner = order_owner r.windows frame none;
          rect = rect;
        })
        r.windows,
    any_entry-lookup (is_covering_child f frame rect) (insert_window r frame none rect).windows
        content w,
    lookup-insert content frame
        (record {
          kind = or_else (kind_of r.windows frame) Kind.mirror;
          owner = order_owner r.windows frame none;
          rect = rect;
        })
        r.windows,
  )

  -- A geometry-only order does reclassify a known window: a mirrored window whose new rectangle is
  -- covered by a window that it owns is filtered, and the bridge is told to destroy it.
  pub geometry_order_reclassifies :
      lookup content r.windows ≡ some w
      → w.owner ≡ some frame
      → content ≢ frame
      → covers f w.rect rect ≡ true
      → kind_of r.windows frame ≡ some Kind.mirror
      → (window_order f r frame none rect).1 ≡ now_filtered
  unfolding window_order
  geometry_order_reclassifies found owned ne covering was =
      ground (arith, newly_covered found owned ne covering)
