-- ===== src/Rail/Tests/Front.antt =====
-- Runs of src/rail.rs.
use wayland_macos.Base.{
  suc, ◌≡◌, refl, false, none, List, [], ◌∷◌, if◌then◌else◌, or_else, contains,
}
use wayland_macos.Base.Int.{pos}
use wayland_macos.Base.Map.{lookup}
use wayland_macos.Rail.Front.{
  Front, logical, destination, Callback, window_create, window_update, window_delete, disconnected,
  call, call_all, on_window_create,
}
use wayland_macos.Rail.Front.Windows.{is_open, IsTracked, disconnected_closes_all}
use wayland_macos.Rail.Front.Sizes.{last_size, in_points, destination_follows}
use wayland_macos.Rail.Front.Deferred.{Update, update_all, creations, any_size, created_once}

abbrev fresh : Front
fresh = record { live_windows = []; rail_scale = 2; win_logical = []; posted = []; assigned = [] }

fresh-IsTracked : IsTracked fresh
unfolding is_open contains
fresh-IsTracked = record { tracked = λ j. refl }

-- One window with a size at once, and one that gets it later.
abbrev callbacks : List Callback
callbacks =
    window_create 1 (pos 10) (pos 20) 800 600 []
    ∷ window_create 2 (pos 0) (pos 0) 0 0 []
    ∷ window_update 2 (pos 4) (pos 4) 300 200
    ∷ window_delete 1
    ∷ []

disconnected_closes_all_example :
    is_open (call disconnected (call_all callbacks fresh)).posted 2 ≡ false
disconnected_closes_all_example = disconnected_closes_all callbacks fresh fresh-IsTracked 2

destination_follows_example :
    destination 2 640 480 (call_all callbacks fresh)
    ≡ or_else (in_points fresh (last_size 2 callbacks none)) (logical fresh 640 480)
unfolding lookup
destination_follows_example = destination_follows 2 callbacks fresh 640 480 refl

abbrev updates : List Update
updates =
    record { x = pos 1; y = pos 1; w = 0; h = 0 }
    ∷ record { x = pos 2; y = pos 2; w = 30; h = 20 }
    ∷ record { x = pos 3; y = pos 2; w = 30; h = 20 }
    ∷ []

created_once_example :
    creations 7 (update_all 7 updates (on_window_create 7 (pos 0) (pos 0) 0 9 [] fresh)).posted
    ≡ (if any_size updates then suc (creations 7 fresh.posted) else creations 7 fresh.posted)
unfolding contains
created_once_example = created_once 7 (pos 0) (pos 0) 0 9 [] updates fresh refl refl
