-- ===== src/Wayland/Shm/Bounds.antt =====
-- `buffer_to_pixels` of src/wayland/mod.rs: the range of the pool that it reads.
use wayland_macos.Base.{
  ℕ, ◌+◌, ◌*◌, ◌-◌, ◌≤◌, ◌<◌, ◌≡◌, refl, ◌≢◌, ◌↔◌, true, false, Option, none, some, List, arith,
  if◌then◌else◌, ltb, length, take, drop, length-take, length-drop, Option-cases, inl, inr, crashes,
  returns,
}
use wayland_macos.Base.Int.{ℤ, pos, negsuc, pos_part, neg_part, IsI32}
use wayland_macos.Mac.{PixelFormat, PixelBuf}
use wayland_macos.Wayland.Types.{BufferKind, shm, single_pixel, Env}
use wayland_macos.Wayland.Shm.{shm_pixel_format, checked_range, copy_range, buffer_to_pixels}

mul-i32-lt : (a b : ℕ) → a < 2147483648 → b < 2147483648 → a * b < 4611686018427387904
mul-i32-lt a b h k = grind arith

-- An integer that is at least 0 has no negative part.
one_sign : (a : ℤ) → neg_part a ≤ pos_part a → neg_part a ≡ 0
one_sign (pos n) h = refl
one_sign (negsuc n) h = absurd (omega arith)

-- What a shm buffer must satisfy to be read: positive sizes, no negative offset or stride, and rows
-- that hold the pixels.
pub record IsSane (env : Env) (offset width height stride : ℤ) (format : ℕ) : Type 0 where
  pub wide : 0 < pos_part width
  pub high : 0 < pos_part height
  pub offset_nonneg : neg_part offset ≡ 0
  pub stride_nonneg : neg_part stride ≡ 0
  pub rows : pos_part width * (shm_pixel_format env format).1 ≤ pos_part stride

module _ (env : Env) (offset width height stride : ℤ) (format : ℕ) where
  -- The range that a sane buffer asks for.
  abbrev asked : PixelFormat × ℕ × ℕ × ℕ
  asked = (
    (shm_pixel_format env format).0,
    pos_part stride * pos_part height,
    pos_part offset,
    pos_part offset + pos_part stride * pos_part height,
  )

  checked_range-some :
      (r : PixelFormat × ℕ × ℕ × ℕ)
      → checked_range env offset width height stride format ≡ some r
      → IsSane env offset width height stride format × (r ≡ asked)
  unfolding checked_range
  checked_range-some r e = ground (arith, one_sign offset, one_sign stride)

  checked_range_sane :
      IsI32 offset
      → IsI32 height
      → IsI32 stride
      → IsSane env offset width height stride format
      → checked_range env offset width height stride format ≡ some asked
  unfolding checked_range
  checked_range_sane o32 h32 s32 s = ground (arith, mul-i32-lt (pos_part stride) (pos_part height))

-- `slice` and the copy succeed on every range inside the mapping.
copy_range_lem :
    (env : Env) (pool : ℕ) (width height stride : ℤ) (pf : PixelFormat) (len off : ℕ)
    → env.can_alloc len ≡ true
    → copy_range env pool width height stride (pf, len, off, off + len)
      ≡ returns (elim (env.mapping pool) [
        | none ↦ none
        | some bytes ↦
            if ltb (length bytes) (off + len)
            then none
            else some (record {
              width = width;
              height = height;
              stride = stride;
              format = pf;
              bytes = take len (drop off bytes);
            })
      ])
unfolding copy_range
copy_range_lem env pool width height stride pf len off ok = elim (Option-cases (env.mapping pool)) [
  | inl gone ↦ ground arith
  | inr (bytes, mapped) ↦
      let whole : off + len - off ≡ len = omega arith in
      rw (ok, mapped, whole)
        (ground (arith, length-take len (drop off bytes), length-drop off bytes))
]

pub buffer_to_pixels_safe :
    (env : Env) (buffer : ℕ)
    → ((n : ℕ) → env.can_alloc n ≡ true)
    → buffer_to_pixels env buffer ≢ crashes
unfolding buffer_to_pixels
buffer_to_pixels_safe env buffer ok e = go (env.buffer_data buffer) refl
  where
    go : (d : Option BufferKind) → env.buffer_data buffer ≡ d → ⊥
    go none h = ground arith
    go (some (single_pixel bgra)) h = ground arith
    go (some (shm pool offset width height stride format)) h =
        elim (Option-cases (checked_range env offset width height stride format)) [
          | inl bad ↦ ground arith
          | inr (r, good) ↦ ground (
            arith,
            checked_range-some env offset width height stride format r,
            copy_range_lem env pool width height stride (shm_pixel_format env format).0
                (pos_part stride * pos_part height) (pos_part offset) (ok _),
          )
        ]

module _ (env : Env) (buffer pool : ℕ) (offset width height stride : ℤ) (format : ℕ)
    (declared : env.buffer_data buffer ≡ some (shm pool offset width height stride format))
    (o32 : IsI32 offset) (h32 : IsI32 height) (s32 : IsI32 stride)
    (ok : (n : ℕ) → env.can_alloc n ≡ true) where
  -- The pixels of the buffer, when its pool's mapping shows `bytes`.
  abbrev pub pixels_in : List ℕ → PixelBuf
  pixels_in bytes = record {
    width = width;
    height = height;
    stride = stride;
    format = (shm_pixel_format env format).0;
    bytes = take (pos_part stride * pos_part height) (drop (pos_part offset) bytes);
  }

  abbrev pub Readable : PixelBuf → Type 0
  Readable pb =
      (bytes : List ℕ) × (env.mapping pool ≡ some bytes)
      × (pos_part offset + pos_part stride * pos_part height ≤ length bytes)
      × (pb ≡ pixels_in bytes)

  readable : (pb : PixelBuf) → buffer_to_pixels env buffer ≡ returns (some pb) → Readable pb
  unfolding buffer_to_pixels
  readable pb e = elim (Option-cases (checked_range env offset width height stride format)) [
    | inl bad ↦ ground arith
    | inr (r, good) ↦ elim (Option-cases (env.mapping pool)) [
      | inl gone ↦ ground (
        arith,
        checked_range-some env offset width height stride format r,
        copy_range_lem env pool width height stride (shm_pixel_format env format).0
            (pos_part stride * pos_part height) (pos_part offset) (ok _),
      )
      | inr (bytes, mapped) ↦ (
        bytes,
        mapped,
        ground (
          arith,
          checked_range-some env offset width height stride format r,
          copy_range_lem env pool width height stride (shm_pixel_format env format).0
              (pos_part stride * pos_part height) (pos_part offset) (ok _),
        ),
        ground (
          arith,
          checked_range-some env offset width height stride format r,
          copy_range_lem env pool width height stride (shm_pixel_format env format).0
              (pos_part stride * pos_part height) (pos_part offset) (ok _),
        ),
      )
    ]
  ]

  sane :
      (pb : PixelBuf)
      → buffer_to_pixels env buffer ≡ returns (some pb)
      → IsSane env offset width height stride format
  unfolding buffer_to_pixels
  sane pb e = elim (Option-cases (checked_range env offset width height stride format)) [
    | inl bad ↦ ground arith
    | inr (r, good) ↦ (checked_range-some env offset width height stride format r good).0
  ]

  read :
      (pb : PixelBuf)
      → IsSane env offset width height stride format
      → Readable pb
      → buffer_to_pixels env buffer ≡ returns (some pb)
  unfolding buffer_to_pixels
  read pb s (bytes, mapped, fits, e) = ground (
    arith,
    checked_range_sane env offset width height stride format o32 h32 s32 s,
    copy_range_lem env pool width height stride (shm_pixel_format env format).0
        (pos_part stride * pos_part height) (pos_part offset) (ok _),
  )

  -- A shm buffer is read exactly if its numbers are sane and the range that they describe lies in
  -- the pool's mapping, and the result is then that range of the mapping with the buffer's own size
  -- and format: for numbers in the range of `i32`, and while allocations succeed.
  pub buffer_to_pixels_exact :
      (pb : PixelBuf)
      → (buffer_to_pixels env buffer ≡ returns (some pb))
        ↔ (IsSane env offset width height stride format × Readable pb)
  buffer_to_pixels_exact pb = (λ e. (sane pb e, readable pb e), λ r. read pb r.0 r.1)

-- The pool's size is looked at only after the copy is allocated: a sane buffer whose length cannot
-- be allocated ends the process, whatever the pool holds.
pub unallocatable_crashes :
    (env : Env) (buffer pool : ℕ) (offset width height stride : ℤ) (format : ℕ)
    → env.buffer_data buffer ≡ some (shm pool offset width height stride format)
    → IsI32 offset
    → IsI32 height
    → IsI32 stride
    → IsSane env offset width height stride format
    → env.can_alloc (pos_part stride * pos_part height) ≡ false
    → buffer_to_pixels env buffer ≡ crashes
unfolding buffer_to_pixels copy_range
unallocatable_crashes env buffer pool offset width height stride format declared o32 h32 s32 s
      fails =
    ground (arith, checked_range_sane env offset width height stride format o32 h32 s32 s)
