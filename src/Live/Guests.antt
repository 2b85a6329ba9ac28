-- ===== src/Live/Guests.antt =====
-- The consumer's buffers: letting go of one changes neither names nor bytes, and what its methods
-- leave is what they leave of its segment.
use mathlib.Core.Path.{subst}
use noise_ai.Base.{ℕ, ◌≡◌, refl, sym, ◌∙◌, Bool, false, if◌then◌else◌, Option, none, some, List}
use noise_ai.Shared
use noise_ai.Shared.{Segment, Buffer, write_segment, read_segment, flush}
use noise_ai.Shared.Posix.{Posix, IsPosix, Name}
use noise_ai.Shared.Handle.{Handle, destroy, deactivate, buffer, each}
use noise_ai.Live.Buffers.{load_buffer, store_buffer, write_in, read_in, flush_in, reset}

-- A buffer, where there is one, is a consumer's.
abbrev pub IsGuest : {Fd Map : Type 0} → Option (Handle Fd Map) → Type 0
IsGuest none = Unit {0}
IsGuest (some b) = b.is_creator ≡ false

module _ {F World Fd Map O : Type 0} {p : Posix F World Fd Map} (L : IsPosix O p) where
  open L use {named, contents, of_map}

  -- Worlds with the same names and bytes.
  pub record Same (w w' : World) : Type 0 where
    pub names : (n : Name) → named n w' ≡ named n w
    pub bytes : (o : O) → contents o w' ≡ contents o w

  pub Same-refl : (w : World) → Same w w
  Same-refl w = record { names = λ n. refl; bytes = λ o. refl }

  pub Same-trans : {a b c : World} → Same a b → Same b c → Same a c
  Same-trans s t = record { names = λ n. t.names n ∙ s.names n; bytes = λ o. t.bytes o ∙ s.bytes o }

  pub unmaps :
      (map : Option Map) (size : ℕ) (w : World) → Same w (each p map (λ m. p.munmap m size) w)
  unmaps none size w = Same-refl w
  unmaps (some m) size w = record {
    names = λ n. L.named-munmap n m size w;
    bytes = λ o. L.contents-munmap o m size w;
  }

  pub closes : (fd : Option Fd) (w : World) → Same w (each p fd p.close w)
  closes none w = Same-refl w
  closes (some fd) w = record {
    names = λ n. L.named-close n fd w;
    bytes = λ o. L.contents-close o fd w;
  }

  destroys :
      (b : Handle Fd Map) (w : World)
      → let guest : Handle Fd Map = record b { is_creator = false } in
        (w' : World) × (destroy p guest w ≡ some w') × Same w w'
  unfolding destroy deactivate
  destroys b w = (
    each p b.shm_fd p.close (each p b.shm_ptr (λ m. p.munmap m b.shm_size) w),
    refl,
    Same-trans (unmaps b.shm_ptr b.shm_size w) (closes b.shm_fd _),
  )

  pub destroy_guest :
      (b : Handle Fd Map) (w : World)
      → b.is_creator ≡ false
      → (w' : World) × (destroy p b w ≡ some w') × Same w w'
  destroy_guest b w guest =
      let same : ◌≡◌ {A = Handle Fd Map} (record b { is_creator = false }) b =
        λ i. record b { is_creator = sym guest i } in
      subst (λ (b : Handle Fd Map). (w' : World) × (destroy p b w ≡ some w') × Same w w') same
        (destroys b w)

  pub reset_guest :
      (sb : Option (Handle Fd Map)) (w : World)
      → IsGuest sb
      → (w' : World) × (reset p sb w ≡ some w') × Same w w'
  unfolding reset
  reset_guest none w guest = (w, refl, Same-refl w)
  reset_guest (some b) w guest = destroy_guest b w guest

  module _ (b : Handle Fd Map) (map : Map) (s : Segment F) (w : World)
      (mapped : b.shm_ptr ≡ some map) (bytes : contents (of_map map) w ≡ some s) where
    pub loads : load_buffer p b w ≡ some (some s)
    unfolding load_buffer
    loads = rw (mapped, L.load_lem map w, bytes) refl

    pub sees : buffer p b w ≡ some s
    unfolding buffer
    sees = rw mapped (L.load_lem map w ∙ bytes)

    pub stores : (t : Segment F) → store_buffer p b (some t) w ≡ p.store map t w
    unfolding store_buffer
    stores t = rw mapped refl

    pub read_in-lem :
        (block out : List F) (n : ℕ) (ok : Bool) (t : Segment F)
        → read_segment s block n ≡ some (ok, out, t)
        → read_in p b block n w ≡ some (ok, out, if ok then p.store map t w else w)
    unfolding read_in Shared.read
    read_in-lem block out n ok t ran = rw (loads, ran, stores t) refl

    pub write_in-lem :
        (block : List F) (n : ℕ) (ok : Bool) (t : Segment F)
        → write_segment s block n ≡ some (ok, t)
        → write_in p b block n w ≡ some (ok, if ok then p.store map t w else w)
    unfolding write_in Shared.write
    write_in-lem block n ok t ran = rw (loads, ran, stores t) refl

    pub flush_in-lem : flush_in p b w ≡ some (p.store map (record s { read_pos = s.write_pos }) w)
    unfolding flush_in flush
    flush_in-lem = rw (loads, stores (record s { read_pos = s.write_pos })) refl

    -- The bytes after a store.
    pub sees-store : (t : Segment F) → buffer p b (p.store map t w) ≡ some t
    unfolding buffer
    sees-store t = rw mapped (L.load_lem map (p.store map t w) ∙ L.load-store map t w)
