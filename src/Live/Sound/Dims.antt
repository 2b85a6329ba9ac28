-- ===== src/Live/Sound/Dims.antt =====
-- Calls of the app that change no samples: segments stay as they are, or are marked inactive.
use mathlib.Core.Option.{some-injective}
use mathlib.Core.Path.{subst}
use noise_ai.Base.{ℕ, ◌≡◌, ◌⊎◌, inl, inr, refl, sym, ap, ◌∙◌, true, Option, none, some, List}
use noise_ai.Float.{Float, nought}
use noise_ai.Shared.{Segment}
use noise_ai.Shared.Refine.{IsSegment}
use noise_ai.Shared.Posix.{Posix, IsPosix}
use noise_ai.Shared.Handle.{Handle, each, deactivate, destroy}
use noise_ai.Bridge.Segment.{audio_name}
use noise_ai.Live.Guests.{Same-trans, unmaps, closes}
use noise_ai.Live.Sound.{Carries, Owns, IsOwner}
use noise_ai.Live.Sound.Stays.{Stays}

module _ {F World Fd Map O : Type 0} ⦃f : Float F⦄ {p : Posix F World Fd Map}
    (L : IsPosix O p) where
  open L use {named, contents, of_map}

  abbrev pub Dims : World → World → Type 0
  Dims w w' =
      (o : O) (s : Segment F)
      → contents o w ≡ some s
      → (contents o w' ≡ some s) ⊎ (contents o w' ≡ some (record s { active = 0 }))

  pub Dims-trans : {a b c : World} → Dims a b → Dims b c → Dims a c
  Dims-trans first second o s bytes = elim (first o s bytes) [
    | inl kept ↦ second o s kept
    | inr off ↦ elim (second o (record s { active = 0 }) off) [
      | inl kept ↦ inr kept
      | inr again ↦ inr again
    ]
  ]

  pub kept-Dims :
      {w w' : World}
      → ((o : O) (s : Segment F) → contents o w ≡ some s → contents o w' ≡ some s)
      → Dims w w'
  kept-Dims kept o s bytes = inl (kept o s bytes)

  quiet :
      {s : Segment F} {W : ℕ} {q : List F}
      → IsSegment nought s W q
      → IsSegment nought (record s { active = 0 }) W q
  quiet held = record { start = held.start; holds = held.holds }

  pub Dims-Stays : {handed : List F} {w w' : World} → Dims w w' → Stays L handed handed w w'
  Dims-Stays dims o c =
      let put : (s' : Segment F)
          → contents o _ ≡ some s'
          → IsSegment nought s' c.total c.queue
          → Carries L _ o _ =
        λ s' bytes held. record {
          segment = s';
          total = c.total;
          queue = c.queue;
          earlier = c.earlier;
          later = c.later;
          bytes = bytes;
          held = held;
          inside = c.inside;
        } in
      elim (dims o c.segment c.bytes) [
        | inl kept ↦ put c.segment kept c.held
        | inr off ↦ put (record c.segment { active = 0 }) off (quiet c.held)
      ]

  pub Dims-Owns :
      {handed : List F} {map : Map} {w w' : World}
      → Dims w w'
      → Owns L handed map w
      → Owns L handed map w'
  Dims-Owns {handed} {map} {w} {w'} dims c =
      let put : (s' : Segment F)
          → contents (of_map map) w' ≡ some s'
          → IsSegment nought s' c.total c.queue
          → Owns L handed map w' =
        λ s' bytes held. record {
          segment = s';
          total = c.total;
          queue = c.queue;
          earlier = c.earlier;
          bytes = bytes;
          held = held;
          last = c.last;
          bound = c.bound;
        } in
      elim (dims (of_map map) c.segment c.bytes) [
        | inl kept ↦ put c.segment kept c.held
        | inr off ↦ put (record c.segment { active = 0 }) off (quiet c.held)
      ]

  pub Dims-IsOwner :
      {handed : List F} {w w' : World} (b : Handle Fd Map)
      → Dims w w'
      → IsOwner L handed b w
      → IsOwner L handed b w'
  Dims-IsOwner b dims c = record {
    creator = c.creator;
    name = c.name;
    state = elim c.state [
      | inl failed ↦ inl failed
      | inr (map, mapped, owns) ↦ inr (map, mapped, Dims-Owns dims owns)
    ];
  }

  off-Dims :
      Discrete O
      → (map : Map) (s : Segment F) (w : World) → contents (of_map map) w ≡ some s
      → Dims w (p.store map (record s { active = 0 }) w)
  off-Dims decide map s w there o t bytes = elim (decide o (of_map map)) [
    | yes same ↦
        let e : t ≡ s = some-injective _ _ (sym bytes ∙ ap (λ x. contents x w) same ∙ there) in
        inr (
          ap (λ x. contents x (p.store map (record s { active = 0 }) w)) same
          ∙ L.load-store map (record s { active = 0 }) w
          ∙ ap (λ (x : Segment F). some (record x { active = 0 })) (sym e))
    | no other ↦ inl (L.contents-store o map _ w other ∙ bytes)
  ]

  -- What the destructor of a producer's buffer leaves.
  pub record Closes (before : World) (r : Option World) : Type 0 where
    pub world : World
    pub ran : r ≡ some world
    pub dims : Dims before world
    pub gone : named audio_name world ≡ none

  unlinked :
      (b : Handle Fd Map) (before w : World)
      → Dims before w
      → let last =
          p.shm_unlink audio_name
            (each p b.shm_fd p.close (each p b.shm_ptr (λ m. p.munmap m b.shm_size) w)) in
        Dims before last
  unlinked b before w dims =
      let same =
        Same-trans L (unmaps L b.shm_ptr b.shm_size w)
          (closes L b.shm_fd (each p b.shm_ptr (λ m. p.munmap m b.shm_size) w)) in
      Dims-trans dims
        (kept-Dims (λ o s bytes. L.contents-unlink o audio_name _ ∙ same.bytes o ∙ bytes))

  closed_failed :
      (b : Handle Fd Map) (w : World)
      → let own : Handle Fd Map = record b {
        is_creator = true;
        shm_name = audio_name;
        shm_ptr = none;
        shm_fd = none;
      } in
        Closes w (destroy p own w)
  unfolding destroy deactivate
  closed_failed b w = record {
    world = p.shm_unlink audio_name w;
    ran = refl;
    dims = kept-Dims (λ o s bytes. L.contents-unlink o audio_name w ∙ bytes);
    gone = L.named-unlink audio_name w;
  }

  closed_mapped :
      Discrete O
      → (b : Handle Fd Map) (map : Map) (s : Segment F) (w : World)
      → contents (of_map map) w ≡ some s
      → let own : Handle Fd Map = record b {
        is_creator = true;
        shm_name = audio_name;
        shm_ptr = some map;
      } in
        Closes w (destroy p own w)
  unfolding destroy deactivate
  closed_mapped decide b map s w bytes =
      rw (L.load_lem map w, bytes)
        (record {
          world = _;
          ran = refl;
          dims = unlinked (record b { shm_ptr = some map }) w _ (off-Dims decide map s w bytes);
          gone = L.named-unlink audio_name _;
        })

  pub destroy-Closes :
      Discrete O
      → {handed : List F} (b : Handle Fd Map) (w : World) → IsOwner L handed b w
      → Closes w (destroy p b w)
  destroy-Closes decide b w owner = elim owner.state [
    | inl (null, closed) ↦
        subst (λ (h : Handle Fd Map). Closes w (destroy p h w))
          (λ i. record b {
            is_creator = sym owner.creator i;
            shm_name = sym owner.name i;
            shm_ptr = sym null i;
            shm_fd = sym closed i;
          })
          (closed_failed b w)
    | inr (map, mapped, owns) ↦
        subst (λ (h : Handle Fd Map). Closes w (destroy p h w))
          (λ i. record b {
            is_creator = sym owner.creator i;
            shm_name = sym owner.name i;
            shm_ptr = sym mapped i;
          })
          (closed_mapped decide b map owns.segment w owns.bytes)
  ]
