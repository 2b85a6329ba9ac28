-- ===== src/Shared/Posix.antt =====
-- The calls of POSIX that `SharedRingBuffer` makes, which are the system's: a parameter, over the
-- system's states. Names are bytes without the final zero. Every call may fail.
use noise_ai.Base.{ℕ, ◌-◌, ◌/◌, ◌≤◌, ◌≡◌, ◌≢◌, ◌⊎◌, Bool, true, Option, none, some, List, length}
use noise_ai.Shared.{Segment}

-- A name of a shared memory object.
abbrev pub Name : Type 0
Name = List ℕ

-- `sizeof(SharedRingBufferHeader)`: two words and the heartbeat, each aligned to 64 bytes, with
-- the four words of 32 bits behind the second.
abbrev pub header_size : ℕ
header_size = 192

-- `World` stands for the states of the system, `Fd` and `Map` for its descriptors and mappings.
-- `none` is a negative descriptor, a failed `fstat`, and `MAP_FAILED`.
pub record Posix (F World Fd Map : Type 0) : Type 0 where
  pub shm_unlink : Name → World → World
  -- `shm_open(name, O_CREAT | O_RDWR, 0666)`, and `shm_open(name, O_RDWR, 0666)`.
  pub shm_create : Name → World → Option Fd × World
  pub shm_open : Name → World → Option Fd × World
  pub ftruncate : Fd → ℕ → World → Bool × World
  -- `st_size`.
  pub fstat : Fd → World → Option ℕ × World
  -- Shared, for reading and writing, from the start of the object.
  pub mmap : ℕ → Fd → World → Option Map × World
  pub munmap : Map → ℕ → World → World
  pub close : Fd → World → World
  -- The bytes of a mapping as a header and samples behind it; `none` if it is smaller than a
  -- header.
  pub load : Map → World → Option (Segment F)
  pub store : Map → Segment F → World → World

-- What is documented of the calls, over the objects `O` that names, descriptors and mappings
-- refer to: a name refers to an object until it is unlinked, and all mappings of an object share
-- its bytes. `is_open` says which descriptors the process has open.
pub record IsPosix (O : Type 0) {F World Fd Map : Type 0} (p : Posix F World Fd Map) : Type 0 where
  pub named : Name → World → Option O
  pub contents : O → World → Option (Segment F)
  pub of_fd : Fd → O
  pub of_map : Map → O
  pub is_open : Fd → World → Bool
  -- Creating opens the descriptor that it returns and no other one, closing closes its own, and
  -- the other calls leave the descriptors.
  pub open_created :
      (n : Name) (w : World) (fd : Fd)
      → (p.shm_create n w).0 ≡ some fd
      → is_open fd (p.shm_create n w).1 ≡ true
  pub open-create :
      (n : Name) (w : World) (fd : Fd)
      → is_open fd (p.shm_create n w).1 ≡ true
      → (is_open fd w ≡ true) ⊎ ((p.shm_create n w).0 ≡ some fd)
  pub open-close :
      (fd closed : Fd) (w : World)
      → is_open fd (p.close closed w) ≡ true
      → (fd ≢ closed) × (is_open fd w ≡ true)
  pub open-unlink : (fd : Fd) (n : Name) (w : World) → is_open fd (p.shm_unlink n w) ≡ is_open fd w
  pub open-ftruncate :
      (fd sized : Fd) (k : ℕ) (w : World) → is_open fd (p.ftruncate sized k w).1 ≡ is_open fd w
  pub open-mmap :
      (fd mapped : Fd) (k : ℕ) (w : World) → is_open fd (p.mmap k mapped w).1 ≡ is_open fd w
  pub named-unlink : (n : Name) (w : World) → named n (p.shm_unlink n w) ≡ none
  pub create_some :
      (n : Name) (w : World) (fd : Fd)
      → (p.shm_create n w).0 ≡ some fd
      → named n (p.shm_create n w).1 ≡ some (of_fd fd)
  pub create_none :
      (n : Name) (w : World)
      → (p.shm_create n w).0 ≡ none
      → named n (p.shm_create n w).1 ≡ named n w
  pub open_some :
      (n : Name) (w : World) (fd : Fd) → (p.shm_open n w).0 ≡ some fd → named n w ≡ some (of_fd fd)
  -- Opening, mapping, unmapping and closing change neither names nor bytes.
  pub named-open : (n m : Name) (w : World) → named n (p.shm_open m w).1 ≡ named n w
  pub named-fstat : (n : Name) (fd : Fd) (w : World) → named n (p.fstat fd w).1 ≡ named n w
  pub named-ftruncate :
      (n : Name) (fd : Fd) (k : ℕ) (w : World) → named n (p.ftruncate fd k w).1 ≡ named n w
  pub named-mmap : (n : Name) (k : ℕ) (fd : Fd) (w : World) → named n (p.mmap k fd w).1 ≡ named n w
  pub named-munmap : (n : Name) (m : Map) (k : ℕ) (w : World) → named n (p.munmap m k w) ≡ named n w
  pub named-close : (n : Name) (fd : Fd) (w : World) → named n (p.close fd w) ≡ named n w
  pub named-store :
      (n : Name) (m : Map) (s : Segment F) (w : World) → named n (p.store m s w) ≡ named n w
  -- Creating, sizing and writing leave the bytes of other objects; `O_CREAT` does not truncate,
  -- and makes a new object where the name refers to none.
  pub create_new :
      (n : Name) (w : World) (fd : Fd)
      → named n w ≡ none
      → (p.shm_create n w).0 ≡ some fd
      → contents (of_fd fd) w ≡ none
  pub contents-create :
      (o : O) (n : Name) (w : World) (s : Segment F)
      → contents o w ≡ some s
      → contents o (p.shm_create n w).1 ≡ some s
  pub contents-ftruncate :
      (o : O) (fd : Fd) (k : ℕ) (w : World)
      → o ≢ of_fd fd
      → contents o (p.ftruncate fd k w).1 ≡ contents o w
  pub contents-store :
      (o : O) (m : Map) (s : Segment F) (w : World)
      → o ≢ of_map m
      → contents o (p.store m s w) ≡ contents o w
  pub contents-open : (o : O) (m : Name) (w : World) → contents o (p.shm_open m w).1 ≡ contents o w
  pub contents-fstat : (o : O) (fd : Fd) (w : World) → contents o (p.fstat fd w).1 ≡ contents o w
  pub contents-mmap :
      (o : O) (k : ℕ) (fd : Fd) (w : World) → contents o (p.mmap k fd w).1 ≡ contents o w
  pub contents-munmap :
      (o : O) (m : Map) (k : ℕ) (w : World) → contents o (p.munmap m k w) ≡ contents o w
  pub contents-close : (o : O) (fd : Fd) (w : World) → contents o (p.close fd w) ≡ contents o w
  pub contents-unlink :
      (o : O) (n : Name) (w : World) → contents o (p.shm_unlink n w) ≡ contents o w
  -- The size is the one that `ftruncate` sets.
  pub ftruncate_lem :
      (fd : Fd) (k : ℕ) (w : World)
      → (p.ftruncate fd k w).0 ≡ true
      → header_size ≤ k
      → (s : Segment F) × (contents (of_fd fd) (p.ftruncate fd k w).1 ≡ some s)
        × (length s.samples ≡ (k - header_size) / 4)
  pub mmap_some :
      (k : ℕ) (fd : Fd) (w : World) (m : Map) → (p.mmap k fd w).0 ≡ some m → of_map m ≡ of_fd fd
  pub load_lem : (m : Map) (w : World) → p.load m w ≡ contents (of_map m) w
  pub load-store :
      (m : Map) (s : Segment F) (w : World) → contents (of_map m) (p.store m s w) ≡ some s
