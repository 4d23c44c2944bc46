-- ===== src/Host/Follow.antt =====
-- What src/host.rs makes of the frames that src/router.rs writes.
use wayland_macos.Base.{
  ℕ, ◌<◌, ◌≤◌, ◌≡◌, refl, ap, sym, subst, ◌∙◌, Bool, true, ◌&&◌, some, List, [], ◌∷◌, ◌++◌, arith,
  returns, and_then, length, append_assoc, append_nil, take-all,
}
use wayland_macos.Base.Map.{lookup}
use wayland_macos.Mac.{WinCmd}
use wayland_macos.Ipc.{
  Codec, Downlink, hello, cmd, insets, shutdown, ok, Ending, Reader, read_frame, serve_frames,
}
use wayland_macos.Ipc.RoundTrip.{Decodes, read_frame-frame}
use wayland_macos.Ipc.Cut.{IsFrames, one_more, handle_all, serve_cut}
use wayland_macos.Router.{Router}
use wayland_macos.Host.{Host, greet, exit, host_turn, run_window_host}
use wayland_macos.Host.Greeted.{is_hello, is_order, greeted, IsGreeted}

-- A log of the router, in the order of writing.
unfoldable pub oldest_first : List Downlink → List Downlink
oldest_first [] = []
oldest_first (d ∷ rest) = oldest_first rest ++ (d ∷ [])

unfoldable pub commands : List Downlink → List WinCmd
commands [] = []
commands (cmd c ∷ rest) = c ∷ commands rest
commands (_ ∷ rest) = commands rest

unfoldable all_orders : List Downlink → Bool
all_orders [] = true
all_orders (d ∷ rest) = is_order d && all_orders rest

all_orders-append :
    (ds : List Downlink) (d : Downlink)
    → all_orders ds ≡ true
    → is_order d ≡ true
    → all_orders (ds ++ (d ∷ [])) ≡ true
unfolding all_orders
all_orders-append [] d h o = ground arith
all_orders-append (e ∷ rest) d h o = ground (arith, all_orders-append rest d)

-- The first message of a log is a Hello, and orders are the others.
greeted-parts :
    (told : List Downlink)
    → greeted told ≡ true
    → (first : Downlink) × (rest : List Downlink) × (oldest_first told ≡ first ∷ rest)
      × (is_hello first ≡ true)
      × (all_orders rest ≡ true)
unfolding greeted oldest_first all_orders
greeted-parts [] h = ground arith
greeted-parts (d ∷ []) h = (d, [], refl, h, refl)
greeted-parts (d ∷ e ∷ rest) h =
    let (first, more, same, is_first, orders) = greeted-parts (e ∷ rest) (ground arith) in
    (
      first,
      more ++ (d ∷ []),
      ap (λ l. l ++ (d ∷ [])) same,
      is_first,
      all_orders-append more d orders (ground arith),
    )

greet-returns :
    (d : Downlink) → is_hello d ≡ true → (h : Host) × (greet d ≡ returns h) × (h.posted ≡ [])
unfolding is_hello greet
greet-returns (hello scale out_w out_h edges regular name rail) e = (_, refl, refl)
greet-returns (cmd c) e = ground arith
greet-returns (insets top right bottom left) e = ground arith
greet-returns shutdown e = ground arith

-- The orders are posted as they come.
orders-posted :
    (ds : List Downlink) (h : Host)
    → all_orders ds ≡ true
    → (handle_all host_turn exit ds h).posted ≡ h.posted ++ commands ds
unfolding handle_all host_turn exit commands all_orders is_order
orders-posted [] h o = sym (append_nil h.posted)
orders-posted (cmd c ∷ rest) h o =
    orders-posted rest (record h { posted = h.posted ++ (c ∷ []) }) o
    ∙ append_assoc h.posted (c ∷ []) (commands rest)
orders-posted (insets top right bottom left ∷ rest) h o = orders-posted rest _ o
orders-posted (hello scale out_w out_h edges regular name rail ∷ rest) h o = ground arith
orders-posted (shutdown ∷ rest) h o = ground arith

hello-commands :
    (first : Downlink) (rest : List Downlink)
    → is_hello first ≡ true
    → commands rest ≡ commands (first ∷ rest)
unfolding is_hello commands
hello-commands (hello scale out_w out_h edges regular name rail) rest e = refl
hello-commands (cmd c) rest e = ground arith
hello-commands (insets top right bottom left) rest e = refl
hello-commands shutdown rest e = refl

run-first :
    (c : Codec Downlink) (fuel : ℕ) (r rest : Reader) (first : Downlink)
    → read_frame c r ≡ (rest, ok (some first))
    → run_window_host c fuel r
      ≡ and_then (greet first) (λ h. returns (serve_frames c host_turn exit fuel rest h))
unfolding run_window_host
run-first c fuel r rest first e = ground arith

-- A host that runs on the frames of a log that begins with a Hello.
host_runs :
    (c : Codec Downlink) (first : Downlink) (rest : List Downlink) (bytes : List ℕ)
    (ending : Ending) (fuel : ℕ)
    → Decodes c
    → IsFrames c (first ∷ rest) bytes
    → is_hello first ≡ true
    → all_orders rest ≡ true
    → length rest < fuel
    → (h : Host) × (run_window_host c fuel (record { bytes = bytes; ending = ending }) ≡ returns h)
      × (h.posted ≡ commands (first ∷ rest))
host_runs c first rest bytes ending fuel law (one_more {frame = frame} {bytes = tail} e f) is_first
      orders enough =
    let (h, greeting, fresh) = greet-returns first is_first in
    let started =
      run-first c fuel _ _ first (read_frame-frame c law first frame tail ending e)
      ∙ ap
          (λ g. and_then g (λ h.
            returns
              (serve_frames c host_turn exit fuel (record { bytes = tail; ending = ending }) h)))
          greeting in
    let (k, all, same) =
      serve_cut c host_turn exit law rest tail (length tail) fuel ending f enough in
    let served =
      ap (λ l. serve_frames c host_turn exit fuel (record { bytes = l; ending = ending }) h)
        (sym (take-all (length tail) tail (omega arith)))
      ∙ same h
      ∙ ap (λ l. handle_all host_turn exit l h) (take-all k rest (ground (arith, all))) in
    (
      serve_frames c host_turn exit fuel (record { bytes = tail; ending = ending }) h,
      started,
      ap (λ g. g.posted) served
          ∙ orders-posted rest h orders
          ∙ ap (λ l. l ++ commands rest) fresh
          ∙ hello-commands first rest is_first,
    )

-- A host of the router that reads all that the router wrote to it starts, and posts the commands
-- that were routed to it, each once and in the order of the routing; whether its stream then ends
-- or breaks. Here every message could be encoded, and decoding undoes it; the fuel is at least the
-- number of messages.
pub host_follows :
    (c : Codec Downlink) (r : Router) (app : ℕ) (told : List Downlink) (bytes : List ℕ)
    (ending : Ending) (fuel : ℕ)
    → Decodes c
    → IsGreeted r
    → lookup app r.helpers ≡ some told
    → IsFrames c (oldest_first told) bytes
    → length (oldest_first told) ≤ fuel
    → (h : Host) × (run_window_host c fuel (record { bytes = bytes; ending = ending }) ≡ returns h)
      × (h.posted ≡ commands (oldest_first told))
host_follows c r app told bytes ending fuel law g found f enough =
    let (first, rest, same, is_first, orders) = greeted-parts told (g.logs app told found) in
    let (h, runs, posted) =
      host_runs c first rest bytes ending fuel law (subst (λ l. IsFrames c l bytes) same f) is_first
        orders (subst (λ l. length l ≤ fuel) same enough) in
    (h, runs, posted ∙ ap commands (sym same))
