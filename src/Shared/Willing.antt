-- ===== src/Shared/Willing.antt =====
-- A system in which the calls of POSIX that open and map do not fail: constructing a buffer maps
-- it.
use mathlib.Core.Option.{some-injective}
use noise_ai.Base.{
  ℕ, ◌+◌, ◌*◌, ◌%◌, ◌≡◌, refl, sym, ap, ◌∙◌, Bool, true, false, if◌then◌else◌, Option, none, some,
  ◌>>=◌, take, u64,
}
use noise_ai.Shared.{Segment}
use noise_ai.Shared.Posix.{Posix, IsPosix, Name, header_size}
use noise_ai.Shared.Handle.{Handle, header, map_segment, construct}
use noise_ai.Shared.Lifetime.{not_both}

module _ {F World Fd Map O : Type 0} {p : Posix F World Fd Map} (L : IsPosix O p) where
  open L use {named}

  pub record IsWilling : Type 0 where
    pub creates : (n : Name) (w : World) → (fd : Fd) × ((p.shm_create n w).0 ≡ some fd)
    pub opens :
        (n : Name) (w : World) (o : O)
        → named n w ≡ some o
        → (fd : Fd) × ((p.shm_open n w).0 ≡ some fd)
    pub sizes : (fd : Fd) (k : ℕ) (w : World) → (p.ftruncate fd k w).0 ≡ true
    pub knows : (fd : Fd) (w : World) → (k : ℕ) × ((p.fstat fd w).0 ≡ some k)
    pub maps : (k : ℕ) (fd : Fd) (w : World) → (map : Map) × ((p.mmap k fd w).0 ≡ some map)

  abbrev IsMapping : Option (Handle Fd Map × World) → Type 0
  IsMapping r =
      (h : Handle Fd Map) (v : World) → r ≡ some (h, v) → (map : Map) × (h.shm_ptr ≡ some map)

  module _ (willing : IsWilling) (name : Name) (capacity channels sample_rate : ℕ) where
    from_load :
        (make : Segment F → Handle Fd Map × World) (map : Map)
        → ((s : Segment F) → (make s).0.shm_ptr ≡ some map)
        → (loaded : Option (Segment F)) → IsMapping (do s ← loaded; some (make s))
    from_load make map at none h v ran = absurd (not_both (sym ran))
    from_load make map at (some s) h v ran =
        (map, ap (λ (r : Handle Fd Map × World). r.0.shm_ptr) (some-injective _ _ (sym ran)) ∙ at s)

    map_segment-IsMapping :
        (create : Bool) (size : ℕ) (fd : Fd) (w : World)
        → IsMapping (map_segment p name capacity channels sample_rate create size fd w)
    unfolding map_segment
    map_segment-IsMapping create size fd w =
        let (map, maps) = willing.maps size fd w in
        let w' = (p.mmap size fd w).1 in
        let make : Segment F → Handle Fd Map × World = λ s. (
          record {
            shm_ptr = some map;
            shm_size = size;
            shm_fd = some fd;
            is_creator = create;
            shm_name = take 255 name;
          },
          if create then p.store map (header p capacity channels sample_rate s) w' else w',
        ) in
        rw (maps, map_segment) (from_load make map (λ s. refl) (p.load map w'))

    -- The producer's constructor.
    pub create-IsMapping :
        (w : World) → IsMapping (construct p name capacity channels sample_rate true w)
    unfolding construct
    create-IsMapping w =
        let (fd, opens) = willing.creates name (p.shm_unlink name w) in
        let w' = (p.shm_create name (p.shm_unlink name w)).1 in
        let size = (header_size + capacity * 4) % u64 in
        rw (opens, construct, willing.sizes fd size w')
          (map_segment-IsMapping true size fd (p.ftruncate fd size w').1)

    -- The consumer's, where the name refers to an object.
    pub open-IsMapping :
        (w : World) (o : O)
        → named name w ≡ some o
        → IsMapping (construct p name capacity channels sample_rate false w)
    unfolding construct
    open-IsMapping w o known =
        let (fd, opens) = willing.opens name w o known in
        let w' = (p.shm_open name w).1 in
        let (size, knows) = willing.knows fd w' in
        rw (opens, construct, knows) (map_segment-IsMapping false size fd (p.fstat fd w').1)
