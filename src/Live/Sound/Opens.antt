-- ===== src/Live/Sound/Opens.antt =====
-- The app's calls that open and close its segment, and its process ending: what they leave.
use mathlib.Core.List.{append-nil}
use mathlib.Core.Option.{some-injective}
use mathlib.Core.Path.{subst}
use noise_ai.Base.{
  ℕ, ◌≤◌, ◌≡◌, ◌⊎◌, inl, inr, refl, sym, ap, ◌∙◌, Option, none, some, List, [], ◌>>=◌, arith, mul32,
}
use noise_ai.Float.{Float, nought}
use noise_ai.Shared.Lifetime.{not_both, Maps, Fails}
use noise_ai.Shared.Posix.{Posix, IsPosix}
use noise_ai.Shared.Handle.{Handle, destroy, each}
use noise_ai.Bridge.{to_int}
use noise_ai.Bridge.Segment.{audio_name, is_mapped, shm_create_in, shm_destroy_in}
use noise_ai.Bridge.Segment.Shares.{made}
use noise_ai.Live.System.{released}
use noise_ai.Live.Guests.{Same, Same-refl, Same-trans, unmaps, closes}
use noise_ai.Live.Sound.{Carries, Owns, IsOwner, IsOwnerOrNull, IsPublic}
use noise_ai.Live.Sound.Stays.{Owns-Carries}
use noise_ai.Live.Sound.Dims.{Dims, Dims-trans, Dims-IsOwner, kept-Dims, destroy-Closes}

module _ {F World Fd Map O : Type 0} ⦃f : Float F⦄ {p : Posix F World Fd Map}
    (L : IsPosix O p) where
  open L use {named, contents, of_map}

  pub record Closed (handed : List F) (before : World)
      (r : Option (Option (Option (Handle Fd Map)) × World)) : Type 0 where
    pub world : World
    pub ran : r ≡ some (some none, world)
    pub dims : Dims L before world
    pub public : IsPublic L handed world

  pub shm_destroy_in-Closed :
      Discrete O
      → {handed : List F} (sb : Option (Handle Fd Map)) (w : World) → IsPublic L handed w
      → IsOwnerOrNull L handed sb w
      → Closed handed w (shm_destroy_in p (some sb) w)
  unfolding shm_destroy_in
  shm_destroy_in-Closed decide none w public owner = record {
    world = w;
    ran = refl;
    dims = kept-Dims L (λ o s bytes. bytes);
    public = public;
  }
  shm_destroy_in-Closed decide (some b) w public owner =
      let c = destroy-Closes L decide b w owner in
      record {
        world = c.world;
        ran = ap (λ r. do after ← r; some (some none, after)) c.ran;
        dims = c.dims;
        public = λ o known. absurd (not_both (sym known ∙ c.gone));
      }

  pub record Created (handed : List F) (before : World)
      (r : Option (ℕ × Option (Option (Handle Fd Map)) × World)) : Type 0 where
    pub result : ℕ
    pub handle : Handle Fd Map
    pub world : World
    pub ran : r ≡ some (result, some (some handle), world)
    pub dims : Dims L before world
    pub public : IsPublic L handed world
    pub owner : IsOwner L handed handle world

  module _ (decide : Discrete O) (handed : List F) (sample_rate channels : ℕ)
      (some_room : 10 ≤ mul32 sample_rate channels) (w : World) where
    owned :
        {capacity : ℕ} {h : Handle Fd Map} {v : World}
        (maps : Maps nought L audio_name capacity h v)
        → Owns L handed maps.map v
    owned maps = record {
      segment = maps.segment;
      total = 0;
      queue = [];
      earlier = handed;
      bytes = maps.bytes;
      held = maps.empty;
      last = sym (append-nil handed);
      bound = omega arith;
    }

    known_new :
        {capacity : ℕ} {before : World} {h : Handle Fd Map} {v : World}
        → Fails nought L audio_name before h v ⊎ Maps nought L audio_name capacity h v
        → IsPublic L handed v
    known_new (inl fails) = λ o known. absurd (not_both (sym known ∙ fails.gone))
    known_new {v = v} (inr maps) = λ o known.
        subst (λ x. Carries L handed x v) (some-injective _ _ (sym maps.known ∙ known))
          (Owns-Carries L (owned maps))

    state_new :
        {capacity : ℕ} {before : World} {h : Handle Fd Map} {v : World}
        → Fails nought L audio_name before h v ⊎ Maps nought L audio_name capacity h v
        → ((h.shm_ptr ≡ none) × (h.shm_fd ≡ none))
          ⊎ ((map : Map) × (h.shm_ptr ≡ some map) × Owns L handed map v)
    state_new (inl fails) = inl (fails.unmapped, fails.closed)
    state_new (inr maps) = inr (maps.map, maps.mapped, owned maps)

    pub shm_create_in-Created :
        (sb : Option (Handle Fd Map))
        → IsOwnerOrNull L handed sb w
        → Created handed w (shm_create_in p sample_rate channels (some sb) w)
    unfolding shm_create_in
    shm_create_in-Created none owner =
        let m = made nought L sample_rate channels some_room w in
        record {
          result = to_int (is_mapped p m.handle);
          handle = m.handle;
          world = m.world;
          ran =
              ap (λ r. do (h, created) ← r; some (to_int (is_mapped p h), some (some h), created))
                m.ran;
          dims = kept-Dims L m.kept;
          public = known_new m.outcome;
          owner = record { creator = m.creator; name = m.stored_name; state = state_new m.outcome };
        }
    shm_create_in-Created (some old) owner =
        let m = made nought L sample_rate channels some_room w in
        let c =
          destroy-Closes L decide old m.world (Dims-IsOwner L old (kept-Dims L m.kept) owner) in
        let own : IsOwner L handed m.handle m.world = record {
          creator = m.creator;
          name = m.stored_name;
          state = state_new m.outcome;
        } in
        record {
          result = to_int (is_mapped p m.handle);
          handle = m.handle;
          world = c.world;
          ran =
              ap
                (λ r. do
                  (h, created) ← r
                  later ← destroy p old created
                  some (to_int (is_mapped p h), some (some h), later))
                m.ran
              ∙ ap
                  (λ r. do
                    later ← r
                    some (to_int (is_mapped p m.handle), some (some m.handle), later))
                  c.ran;
          dims = Dims-trans L (kept-Dims L m.kept) c.dims;
          public = λ o known. absurd (not_both (sym known ∙ c.gone));
          owner = Dims-IsOwner L m.handle c.dims own;
        }

  pub released-Same : (sb : Option (Handle Fd Map)) (w : World) → Same L w (released p sb w)
  released-Same none w = Same-refl L w
  released-Same (some b) w =
      Same-trans L (unmaps L b.shm_ptr b.shm_size w)
        (closes L b.shm_fd (each p b.shm_ptr (λ m. p.munmap m b.shm_size) w))
