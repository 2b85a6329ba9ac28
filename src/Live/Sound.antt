-- ===== src/Live/Sound.antt =====
-- The invariant of the app and the driver in one system: what the segments hold of the samples
-- that the app has handed on.
pub mod Stays
pub mod Dims
pub mod Hands
pub mod Writes
pub mod Opens
pub mod Parts
pub mod Steps
pub mod Hears
pub mod Runs
use noise_ai.Base.{ℕ, ◌+◌, ◌≤◌, ◌<◌, ◌≡◌, ◌⊎◌, refl, true, Option, none, some, List, ◌++◌, length}
use noise_ai.Float.{Float, nought}
use noise_ai.Shared.{Segment}
use noise_ai.Shared.Refine.{IsSegment}
use noise_ai.Shared.Posix.{Posix, IsPosix}
use noise_ai.Shared.Handle.{Handle}
use noise_ai.Bridge.Segment.{audio_name}
use noise_ai.Engine.Valid.{IsValid}
use noise_ai.Driver.Connect.{IsHandler}
use noise_ai.Live.Driver.{LiveHandler, view}
use noise_ai.Live.Guests.{IsGuest}
use noise_ai.Live.System.{Both}

module _ {F World Fd Map O : Type 0} ⦃f : Float F⦄ {p : Posix F World Fd Map}
    (L : IsPosix O p) where
  open L use {named, contents, of_map}

  -- The object is a segment, and its queue is a run of the samples handed on.
  pub record Carries (handed : List F) (o : O) (w : World) : Type 0 where
    pub segment : Segment F
    pub total : ℕ
    pub queue : List F
    pub earlier : List F
    pub later : List F
    pub bytes : contents o w ≡ some segment
    pub held : IsSegment nought segment total queue
    pub inside : handed ≡ earlier ++ (queue ++ later)

  -- The app's own: the last samples handed on.
  pub record Owns (handed : List F) (map : Map) (w : World) : Type 0 where
    pub segment : Segment F
    pub total : ℕ
    pub queue : List F
    pub earlier : List F
    pub bytes : contents (of_map map) w ≡ some segment
    pub held : IsSegment nought segment total queue
    pub last : handed ≡ earlier ++ queue
    pub bound : total ≤ length handed

  -- The app's buffer: one that failed, or a mapping of its own segment.
  pub record IsOwner (handed : List F) (b : Handle Fd Map) (w : World) : Type 0 where
    pub creator : b.is_creator ≡ true
    pub name : b.shm_name ≡ audio_name
    pub state :
        ((b.shm_ptr ≡ none) × (b.shm_fd ≡ none))
        ⊎ ((map : Map) × (b.shm_ptr ≡ some map) × Owns handed map w)

  abbrev pub IsOwnerOrNull : List F → Option (Handle Fd Map) → World → Type 0
  IsOwnerOrNull handed none w = Unit {0}
  IsOwnerOrNull handed (some b) w = IsOwner handed b w

  -- What the name refers to, and what the driver maps, carries samples of the app.
  abbrev pub IsPublic : List F → World → Type 0
  IsPublic handed w = (o : O) → named audio_name w ≡ some o → Carries handed o w

  abbrev pub IsHeard : List F → Option (Handle Fd Map) → World → Type 0
  IsHeard handed sb w =
      (b : Handle Fd Map) (map : Map)
      → sb ≡ some b
      → b.shm_ptr ≡ some map
      → Carries handed (of_map map) w

  pub record IsSound {R S N : Type 0} (s : Both F R S N World Fd Map) : Type 0 where
    pub engine : IsValid s.engine
    pub public : IsPublic s.handed s.world
    pub owner : IsOwnerOrNull s.handed s.app_buffer s.world
    pub guest : IsGuest s.driver.shared_buffer
    pub handler : IsHandler (view p s.world s.driver)
    pub heard : IsHeard s.handed s.driver.shared_buffer s.world
