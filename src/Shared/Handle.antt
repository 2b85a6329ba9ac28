-- ===== src/Shared/Handle.antt =====
-- The constructor and the destructor of `SharedRingBuffer` (engine/src/shared_ring_buffer.cpp),
-- over the calls of POSIX. Logging is left out.
use noise_ai.Base.{
  ℕ, ◌+◌, ◌*◌, ◌%◌, Bool, true, false, if◌then◌else◌, Option, none, some, take, ◌>>=◌, u32, u64,
}
use noise_ai.Shared.{Segment, Buffer}
use noise_ai.Shared.Posix.{Posix, Name, header_size}

-- The fields. `header_`, `data_` and `shm_ptr_` are null together.
pub record Handle (Fd Map : Type 0) : Type 0 where
  pub shm_ptr : Option Map
  pub shm_size : ℕ
  -- `none` is -1.
  pub shm_fd : Option Fd
  pub is_creator : Bool
  pub shm_name : Name

module _ {F World Fd Map : Type 0} (p : Posix F World Fd Map) where
  -- The header that a producer writes. `new` of an atomic and the assignments leave the samples.
  abbrev pub header : ℕ → ℕ → ℕ → Segment F → Segment F
  header capacity channels sample_rate s = record s {
    write_pos = 0;
    read_pos = 0;
    capacity = capacity % u32;
    channels = channels;
    sample_rate = sample_rate;
    active = 1;
    heartbeat = 0;
  }

  -- From the mapping on, with an open descriptor. The consumer's log reads the header, too;
  -- `none` is an access to a header that the mapping is too small for.
  unfoldable pub map_segment :
      Name → ℕ → ℕ → ℕ → Bool → ℕ → Fd → World → Option (Handle Fd Map × World)
  map_segment name capacity channels sample_rate create size fd w =
      let unmapped : Handle Fd Map = record {
        shm_ptr = none;
        shm_size = size;
        shm_fd = none;
        is_creator = create;
        shm_name = take 255 name;
      } in
      let (mapped, w') = p.mmap size fd w in
      elim mapped [
        | none ↦
            let closed = p.close fd w' in
            some (unmapped, if create then p.shm_unlink name closed else closed)
        | some map ↦ do
          s ← p.load map w'
          some (
            record unmapped { shm_ptr = some map; shm_fd = some fd },
            if create then p.store map (header capacity channels sample_rate s) w' else w',
          )
      ]

  -- The constructor. A handle without a mapping is not valid, and has no descriptor.
  unfoldable pub construct : Name → ℕ → ℕ → ℕ → Bool → World → Option (Handle Fd Map × World)
  construct name capacity channels sample_rate true w =
      let size = (header_size + capacity * 4) % u64 in
      let failed : Handle Fd Map = record {
        shm_ptr = none;
        shm_size = size;
        shm_fd = none;
        is_creator = true;
        shm_name = take 255 name;
      } in
      let (created, w') = p.shm_create name (p.shm_unlink name w) in
      elim created [
        | none ↦ some (failed, w')
        | some fd ↦
            let (sized, w'') = p.ftruncate fd size w' in
            if sized
            then map_segment name capacity channels sample_rate true size fd w''
            else some (failed, p.shm_unlink name (p.close fd w''))
      ]
  construct name capacity channels sample_rate false w =
      let failed : Handle Fd Map = record {
        shm_ptr = none;
        shm_size = (header_size + capacity * 4) % u64;
        shm_fd = none;
        is_creator = false;
        shm_name = take 255 name;
      } in
      let (opened, w') = p.shm_open name w in
      elim opened [
        | none ↦ some (failed, w')
        | some fd ↦
            let (status, w'') = p.fstat fd w' in
            elim status [
              | none ↦ some (failed, p.close fd w'')
              | some size ↦ map_segment name capacity channels sample_rate false size fd w''
            ]
      ]

  abbrev pub each : {A : Type 0} → Option A → (A → World → World) → World → World
  each none f w = w
  each (some a) f w = f a w

  -- `header_->active = 0`; `none` is a header that the mapping is too small for.
  unfoldable pub deactivate : Handle Fd Map → World → Option World
  deactivate h w =
      if h.is_creator
      then elim h.shm_ptr [
        | none ↦ some w
        | some map ↦ do s ← p.load map w; some (p.store map (record s { active = 0 }) w)
      ]
      else some w

  -- The destructor.
  unfoldable pub destroy : Handle Fd Map → World → Option World
  destroy h w = do
    w' ← deactivate h w
    let unmapped = each h.shm_ptr (λ map. p.munmap map h.shm_size) w'
    let closed = each h.shm_fd p.close unmapped
    some (if h.is_creator then p.shm_unlink h.shm_name closed else closed)

  -- What the methods of a buffer see: the contents of its mapping.
  unfoldable pub buffer : Handle Fd Map → World → Buffer F
  buffer h w = elim h.shm_ptr [ none ↦ none | some map ↦ p.load map w ]
