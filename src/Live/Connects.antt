-- ===== src/Live/Connects.antt =====
-- `ensureConnected` (driver/src/io_handler.cpp) on the calls of POSIX, against the handler that
-- is told what opening returns: the object under the segment's name, or nothing.
pub mod Attempts
use noise_ai.Base.{
  ℕ, ◌-◌, ◌≡◌, ◌⊎◌, inl, inr, refl, sym, ap, ◌∙◌, Bool, true, false, Bool-cases, ltb, le→ltb, arith,
  not, if-true, if◌then◌else◌, Option, Option-cases, none, some, List, [],
}
use noise_ai.Shared.{Segment, Buffer, is_valid, flush}
use noise_ai.Shared.Refine.{IsSegment, flush-IsSegment}
use noise_ai.Shared.Lifetime.{not_both}
use noise_ai.Shared.Posix.{Posix, IsPosix, Name}
use noise_ai.Shared.Handle.{Handle, buffer}
use noise_ai.Shared.Sharing.{HasHeader, construct-Opens}
use noise_ai.Float.{Float, nought}
use noise_ai.Bridge.Segment.{audio_name, is_pointer, is_mapped, driver_open}
use noise_ai.Driver.{IoHandler, is_connected, try_open, ensure_connected}
use noise_ai.Driver.Connect.{IsMapped, IsMappedOrNull, IsOpened}
use noise_ai.Live.Buffers.{reset}
use noise_ai.Live.Driver.{LiveHandler, seen, view, try_open_in, ensure_connected_in}
use noise_ai.Live.Guests.{IsGuest, Same-refl, Same-trans, Same, destroy_guest, sees, flush_in-lem}
use noise_ai.Live.Keeps.{Keeps, Keeps-Same, Keeps-trans, Keeps-store, flush-Takes}

module _ {F World Fd Map O : Type 0} ⦃f : Float F⦄ {p : Posix F World Fd Map}
    (L : IsPosix O p) where
  open L use {named, contents, of_map}

  -- The object's bytes hold a queue.
  abbrev pub Queued : O → World → Type 0
  Queued o w =
      (s : Segment F) × (contents o w ≡ some s) × (W : ℕ) × (q : List F) × IsSegment nought s W q

  -- What the segment's name refers to, if anything, holds a queue.
  abbrev pub IsPublished : World → Type 0
  IsPublished w = (o : O) → named audio_name w ≡ some o → Queued o w

  no_pointer :
      (map : Option Map) (w : World)
      → map ≡ none
      → ¬ IsMapped (elim map [ none ↦ none | some m ↦ p.load m w ])
  no_pointer none w e (s, at, W, q, held) = absurd (cc)
  no_pointer (some m) w e held = absurd (cc)

  pub mapped_lem :
      (b : Handle Fd Map) (w : World)
      → IsMapped (buffer p b w)
      → (map : Map) × (b.shm_ptr ≡ some map) × Queued (of_map map) w
  unfolding buffer
  mapped_lem b w m = elim (Option-cases b.shm_ptr) [
    | inl null ↦ absurd (no_pointer b.shm_ptr w null m)
    | inr (map, mapped) ↦
        let (s, at, W, q, held) = m in
        let loaded : p.load map w ≡ some s =
          ap (λ (q : Option Map). elim q [ none ↦ none | some m ↦ p.load m w ]) (sym mapped) ∙ at in
        (map, mapped, (s, sym (L.load_lem map w) ∙ loaded, W, q, held))
  ]

  -- No connection: the callback plays silence.
  pub record Waits (before : World) (live : Option (Bool × LiveHandler Fd Map × World))
      (other : Bool × IoHandler F) : Type 0 where
    pub next : LiveHandler Fd Map
    pub world : World
    pub ran : live ≡ some (false, next, world)
    pub same : other ≡ (false, view p world next)
    pub null : next.shared_buffer ≡ none
    pub guest : IsGuest next.shared_buffer
    pub names : (n : Name) → named n world ≡ named n before
    pub keeps : Keeps nought L before world

  -- A connection to a segment that holds a queue.
  pub record Joins (before : World) (old : Option (Handle Fd Map))
      (live : Option (Bool × LiveHandler Fd Map × World)) (other : Bool × IoHandler F)
      : Type 0 where
    pub next : LiveHandler Fd Map
    pub reader : Handle Fd Map
    pub world : World
    pub map : Map
    pub segment : Segment F
    pub total : ℕ
    pub queue : List F
    pub ran : live ≡ some (true, record next { shared_buffer = some reader }, world)
    pub same : other ≡ (
      true,
      record (view p world (record next { shared_buffer = some reader })) {
        shared_buffer = some (some segment);
      },
    )
    pub guest : reader.is_creator ≡ false
    pub origin : (old ≡ some reader) ⊎ (named audio_name before ≡ some (of_map map))
    pub mapped : reader.shm_ptr ≡ some map
    pub there : contents (of_map map) world ≡ some segment
    pub held : IsSegment nought segment total queue
    pub names : (n : Name) → named n world ≡ named n before
    pub keeps : Keeps nought L before world

  -- What opening returns: nothing, or what the segment's name refers to.
  abbrev pub IsFound : Buffer F → World → Type 0
  IsFound opened w =
      (opened ≡ none) ⊎ (o : O) × (named audio_name w ≡ some o) × (contents o w ≡ opened)

  -- Without a buffer, and with nothing left to wait for, nothing is opened only if the calls of
  -- POSIX fail.
  abbrev pub IsTried : Buffer F → Option (Handle Fd Map) → ℕ → World → Type 0
  IsTried opened old countdown w =
      old ≡ none
      → countdown ≡ 0
      → opened ≡ none
      → (reader : Handle Fd Map) × (later : World) × (driver_open p w ≡ some (reader, later))
        × (reader.shm_ptr ≡ none)

  pub record Tries (before : World) (old : Option (Handle Fd Map)) (countdown : ℕ)
      (live : Option (Bool × LiveHandler Fd Map × World)) (other : Buffer F → Bool × IoHandler F)
      : Type 0 where
    pub opened : Buffer F
    pub valid : IsOpened opened
    pub found : IsFound opened before
    pub tried : IsTried opened old countdown before
    pub outcome : Waits before live (other opened) ⊎ Joins before old live (other opened)
