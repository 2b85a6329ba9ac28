-- ===== src/Shared/Sharing.antt =====
-- Opening a segment that a producer created, and destroying it.
use mathlib.Core.Path.{subst}
use noise_ai.Base.{
  ℕ, ◌+◌, ◌*◌, ◌%◌, ◌≡◌, ◌⊎◌, inl, inr, refl, sym, ap, ◌∙◌, true, false, Option, none, some,
  Option-cases, take, u64,
}
use noise_ai.Shared.{Segment}
use noise_ai.Shared.Posix.{Posix, IsPosix, Name, header_size}
use noise_ai.Shared.Handle.{Handle, map_segment, construct, deactivate, destroy, each}

module _ {F World Fd Map O : Type 0} {p : Posix F World Fd Map} (L : IsPosix O p) where
  open L use {named, contents, of_fd, of_map}

  -- Where nothing is there, or mapping fails: no mapping and no descriptor. Else the mapping is
  -- of the object that has the name.
  pub record Opens (name : Name) (before : World) (r : Option (Handle Fd Map × World))
      : Type 0 where
    pub handle : Handle Fd Map
    pub world : World
    pub ran : r ≡ some (handle, world)
    pub guest : handle.is_creator ≡ false
    pub names : (n : Name) → named n world ≡ named n before
    pub bytes : (o : O) → contents o world ≡ contents o before
    pub outcome :
        ((handle.shm_ptr ≡ none) × (handle.shm_fd ≡ none))
        ⊎ ((map : Map) × (handle.shm_ptr ≡ some map) × (named name before ≡ some (of_map map)))

  -- The object of the name, if there is one, has a header.
  abbrev pub HasHeader : Name → World → Type 0
  HasHeader name w = (o : O) → named name w ≡ some o → (s : Segment F) × (contents o w ≡ some s)

  module _ (name : Name) (capacity channels sample_rate : ℕ) (w : World)
      (headed : HasHeader name w) where
    opened : World
    opened = (p.shm_open name w).1

    abbrev guest_handle : Option Map → Option Fd → ℕ → Handle Fd Map
    guest_handle map fd size = record {
      shm_ptr = map;
      shm_size = size;
      shm_fd = fd;
      is_creator = false;
      shm_name = take 255 name;
    }

    map_segment-Opens :
        (fd : Fd) (size : ℕ)
        → (p.shm_open name w).0 ≡ some fd
        → Opens name w
            (map_segment p name capacity channels sample_rate false size fd (p.fstat fd opened).1)
    unfolding map_segment opened
    map_segment-Opens fd size opens = elim (Option-cases (p.mmap size fd here).0) [
      | inl fails ↦
          rw (fails, map_segment)
            (record {
              handle = guest_handle none none size;
              world = p.close fd mapped;
              ran = refl;
              guest = refl;
              names = λ n. L.named-close n fd mapped ∙ names n;
              bytes = λ o. L.contents-close o fd mapped ∙ bytes o;
              outcome = inl (refl, refl);
            })
      | inr (map, maps) ↦
          let known : named name w ≡ some (of_map map) =
            L.open_some name w fd opens ∙ ap some (sym (L.mmap_some size fd here map maps)) in
          let (s, there) = headed (of_map map) known in
          rw (maps, map_segment, L.load_lem map mapped, bytes (of_map map), there)
            (record {
              handle = guest_handle (some map) (some fd) size;
              world = mapped;
              ran = refl;
              guest = refl;
              names = names;
              bytes = bytes;
              outcome = inr (map, refl, known);
            })
    ]
      where
        here : World
        here = (p.fstat fd opened).1

        mapped : World
        mapped = (p.mmap size fd here).1

        names : (n : Name) → named n mapped ≡ named n w
        names n = L.named-mmap n size fd here ∙ L.named-fstat n fd opened ∙ L.named-open n name w

        bytes : (o : O) → contents o mapped ≡ contents o w
        bytes o =
            L.contents-mmap o size fd here ∙ L.contents-fstat o fd opened ∙ L.contents-open o name w

    -- Opening, where the object of the name has a header, has no undefined behaviour, and leaves
    -- names and bytes as they are. It gives a mapping of the object of that name; or a buffer
    -- that is not valid, with no descriptor left open.
    pub construct-Opens : Opens name w (construct p name capacity channels sample_rate false w)
    unfolding construct opened
    construct-Opens = elim (Option-cases (p.shm_open name w).0) [
      | inl fails ↦
          rw (fails, construct)
            (record {
              handle = guest_handle none none ((header_size + capacity * 4) % u64);
              world = opened;
              ran = refl;
              guest = refl;
              names = λ n. L.named-open n name w;
              bytes = λ o. L.contents-open o name w;
              outcome = inl (refl, refl);
            })
      | inr (fd, opens) ↦ elim (Option-cases (p.fstat fd opened).0) [
        | inl fails ↦
            rw (opens, construct, fails)
              (record {
                handle = guest_handle none none ((header_size + capacity * 4) % u64);
                world = p.close fd (p.fstat fd opened).1;
                ran = refl;
                guest = refl;
                names =
                    λ n. L.named-close n fd _ ∙ L.named-fstat n fd opened ∙ L.named-open n name w;
                bytes = λ o.
                    L.contents-close o fd _
                    ∙ L.contents-fstat o fd opened
                    ∙ L.contents-open o name w;
                outcome = inl (refl, refl);
              })
        | inr (size, knows) ↦ rw (opens, construct, knows) (map_segment-Opens fd size opens)
      ]
    ]

  -- Unmapping and closing leave the bytes.
  released :
      (fd : Option Fd) (map : Map) (size : ℕ) (w : World) (o : O)
      → contents o (each p fd p.close (p.munmap map size w)) ≡ contents o w
  released none map size w o = L.contents-munmap o map size w
  released (some fd) map size w o = L.contents-close o fd _ ∙ L.contents-munmap o map size w

  destroyed :
      (h : Handle Fd Map) (map : Map) (s : Segment F) (w : World)
      → contents (of_map map) w ≡ some s
      → let own : Handle Fd Map = record h { is_creator = true; shm_ptr = some map } in
        (after : World) × (destroy p own w ≡ some after)
        × (named h.shm_name after ≡ none)
        × (contents (of_map map) after ≡ some (record s { active = 0 }))
  unfolding destroy deactivate
  destroyed h map s w bytes =
      let set = p.store map (record s { active = 0 }) w in
      let closed = each p h.shm_fd p.close (p.munmap map h.shm_size set) in
      rw (L.load_lem map w, bytes)
        (
          p.shm_unlink h.shm_name closed,
          refl,
          L.named-unlink h.shm_name closed,
          L.contents-unlink (of_map map) h.shm_name closed
              ∙ released h.shm_fd map h.shm_size set (of_map map)
              ∙ L.load-store map (record s { active = 0 }) w,
        )

  -- Destroying the producer's buffer on a mapped segment has no undefined behaviour; the segment
  -- is marked inactive for those who still map it, and its name refers to nothing.
  pub destroy_creator :
      (h : Handle Fd Map) (map : Map) (s : Segment F) (w : World)
      → h.is_creator ≡ true
      → h.shm_ptr ≡ some map
      → contents (of_map map) w ≡ some s
      → (after : World) × (destroy p h w ≡ some after)
        × (named h.shm_name after ≡ none)
        × (contents (of_map map) after ≡ some (record s { active = 0 }))
  destroy_creator h map s w creator mapped bytes =
      let same : ◌≡◌ {A = Handle Fd Map} (record h { is_creator = true; shm_ptr = some map }) h =
        λ i. record h { is_creator = sym creator i; shm_ptr = sym mapped i } in
      subst
        (λ (own : Handle Fd Map).
          (after : World) × (destroy p own w ≡ some after)
          × (named h.shm_name after ≡ none)
          × (contents (of_map map) after ≡ some (record s { active = 0 })))
        same (destroyed h map s w bytes)

  failed_destroyed :
      (h : Handle Fd Map) (w : World)
      → let own : Handle Fd Map = record h { is_creator = true; shm_ptr = none; shm_fd = none } in
        (after : World) × (destroy p own w ≡ some after) × (named h.shm_name after ≡ none)
  unfolding destroy deactivate
  failed_destroyed h w = (p.shm_unlink h.shm_name w, refl, L.named-unlink h.shm_name w)

  -- Destroying a producer's buffer that failed leaves nothing under its name.
  pub destroy_failed :
      (h : Handle Fd Map) (w : World)
      → h.is_creator ≡ true
      → h.shm_ptr ≡ none
      → h.shm_fd ≡ none
      → (after : World) × (destroy p h w ≡ some after) × (named h.shm_name after ≡ none)
  destroy_failed h w creator unmapped closed =
      let same : ◌≡◌ {A = Handle Fd Map}
          (record h { is_creator = true; shm_ptr = none; shm_fd = none }) h =
        λ i. record h {
          is_creator = sym creator i;
          shm_ptr = sym unmapped i;
          shm_fd = sym closed i;
        } in
      subst
        (λ (own : Handle Fd Map).
          (after : World) × (destroy p own w ≡ some after) × (named h.shm_name after ≡ none))
        same (failed_destroyed h w)
