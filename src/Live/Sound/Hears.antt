-- ===== src/Live/Sound/Hears.antt =====
-- What the driver plays: silence, or samples that the app has handed on.
use mathlib.Core.List.{append_assoc}
use mathlib.Core.Option.{some-injective}
use mathlib.Core.Path.{subst}
use noise_ai.Base.{
  ℕ, ◌*◌, ◌%◌, ◌≤◌, ◌<◌, ◌≡◌, inl, inr, refl, sym, ap, ◌∙◌, Option, none, some, List, [], ◌++◌,
  arith, length, length-take, take, drop, take-append-drop, u32,
}
use noise_ai.Float.{Float, nought}
use noise_ai.Frames.{zeros}
use noise_ai.Shared.{Segment, Buffer, flush}
use noise_ai.Shared.Refine.{IsSegment, flush-IsSegment}
use noise_ai.Shared.Determined.{IsSegment-unique}
use noise_ai.Shared.Lifetime.{not_both}
use noise_ai.Shared.Posix.{Posix, IsPosix}
use noise_ai.Shared.Handle.{Handle}
use noise_ai.Driver.Connect.{IsMappedOrNull}
use noise_ai.Live.Driver.{LiveHandler, seen, on_read_client_input_in}
use noise_ai.Live.Guests.{sees}
use noise_ai.Live.Connects.{mapped_lem, IsFound}
use noise_ai.Live.Follows.{on_read_client_input_in-Follows}
use noise_ai.Live.System.{Both}
use noise_ai.Live.Sound.{Carries, IsPublic, IsHeard, IsSound}
use noise_ai.Live.Sound.Parts.{IsPublic-IsPublished}

-- `n` samples of the array are silence, or a run of the samples handed on. The rest of the array
-- stays.
pub data Plays {F : Type 0} ⦃f : Float F⦄ (handed : List F) (n : ℕ) (output : List F)
    : List F → Type 0 where
  silent : Plays handed n output (zeros n ++ drop n output)
  plays_on :
      (earlier block later : List F)
      → length block ≡ n
      → handed ≡ earlier ++ (block ++ later)
      → Plays handed n output (block ++ drop n output)

module _ {F World Fd Map O : Type 0} ⦃f : Float F⦄ {p : Posix F World Fd Map}
    (L : IsPosix O p) where
  open L use {named, contents, of_map}

  oldest :
      {handed : List F} {s : Segment F} {W : ℕ} {q : List F} (n : ℕ) (output : List F) {o : O}
      {w : World}
      → (c : Carries L handed o w) → c.segment ≡ s
      → IsSegment nought s W q
      → n ≤ length q
      → Plays handed n output (take n q ++ drop n output)
  oldest {s = s} {q = q} n output c same held enough =
      let one : c.queue ≡ q =
        IsSegment-unique nought (subst (λ t. IsSegment nought t c.total c.queue) same c.held)
          held in
      plays_on c.earlier (take n q) (drop n q ++ c.later) (omega (arith, length-take n q)) (
        c.inside
        ∙ ap (λ xs. c.earlier ++ (xs ++ c.later)) (one ∙ sym (take-append-drop n q))
        ∙ ap (◌++◌ c.earlier) (append_assoc (take n q) (drop n q) c.later))

  from_old :
      {handed : List F} {s : Segment F} {W : ℕ} {q : List F} (n : ℕ) (output : List F)
      (sb : Option (Handle Fd Map)) (w : World)
      → IsMappedOrNull (seen p sb w)
      → IsHeard L handed sb w
      → seen p sb w ≡ some (some s)
      → IsSegment nought s W q
      → n ≤ length q
      → Plays handed n output (take n q ++ drop n output)
  from_old n output none w m heard at held enough = absurd (not_both (sym at))
  from_old n output (some b) w m heard at held enough =
      let (map, mapped, rest) = mapped_lem L b w m in
      let c = heard b map refl mapped in
      let same =
        some-injective _ _
          (sym (sees L b map c.segment w mapped c.bytes) ∙ some-injective _ _ at) in
      oldest n output c same held enough

  -- A segment that was opened in the callback is empty then.
  from_new :
      {handed : List F} {s : Segment F} {W : ℕ} {q : List F} (n : ℕ) (output : List F)
      (opened : Buffer F) (w : World)
      → IsPublic L handed w
      → IsFound L opened w
      → flush opened ≡ some s
      → IsSegment nought s W q
      → n ≤ length q
      → Plays handed n output (take n q ++ drop n output)
  unfolding flush
  from_new {handed} {s} {W} {q} n output opened w public (inl nothing) at held enough =
      absurd (not_both (sym at ∙ ap flush nothing))
  from_new {handed} {s} {W} {q} n output opened w public (inr (o, known, bytes)) at held enough =
      let c = public o known in
      let flushed : some (record c.segment { read_pos = c.segment.write_pos }) ≡ some s =
        ap flush (sym c.bytes ∙ bytes) ∙ at in
      let empty : [] ≡ q =
        IsSegment-unique nought
          (subst (λ t. IsSegment nought t c.total []) (some-injective _ _ flushed)
            (flush-IsSegment nought c.held).1)
          held in
      let none_left : n ≡ 0 = omega (arith, ap length empty) in
      plays_on [] (take n q) handed (omega (arith, length-take n q))
        (ap (λ xs. xs ++ handed) (sym (ap (take n) (sym empty) ∙ ap (λ k. take k []) none_left)))

  -- What a callback plays, and that it runs.
  pub record Listens {R S N : Type 0} (s : Both F R S N World Fd Map) (n bytes_count : ℕ)
      (output : List F) : Type 0 where
    pub out : List F
    pub next : LiveHandler Fd Map
    pub world : World
    pub ran :
        on_read_client_input_in p bytes_count output s.driver s.world ≡ some (out, next, world)
    pub plays : Plays s.handed n output out

  module _ (decide : Discrete O) {R S N : Type 0} (s : Both F R S N World Fd Map)
      (sound : IsSound L s) (bytes_count n : ℕ) (output : List F) where
    pub IsSound-Listens :
        (bytes_count ≡ n * 4)
        → n % 2 ≡ 0
        → n ≤ length output
        → bytes_count < u32
        → Listens s n bytes_count output
    IsSound-Listens bytes even room small =
        let d =
          on_read_client_input_in-Follows L bytes_count n output bytes even room small decide
            s.world s.driver (IsPublic-IsPublished L sound.public) sound.guest sound.handler in
        let same : d.plays.out ≡ d.sim.value =
          ap (λ r. r.0) (some-injective _ _ (sym d.plays.ran ∙ d.sim.same)) in
        record {
          out = d.sim.value;
          next = d.sim.next;
          world = d.sim.world;
          ran = d.sim.ran;
          plays = subst (Plays s.handed n output) same (elim d.plays.heard [
            | inl still ↦ subst (Plays s.handed n output) (sym still) silent
            | inr heard ↦ subst (Plays s.handed n output) (sym heard.samples) (elim heard.source [
              | inl old ↦
                  from_old n output s.driver.shared_buffer s.world sound.handler.mapped sound.heard
                    old heard.held heard.enough
              | inr new ↦
                  from_new n output d.opened s.world sound.public d.found new heard.held
                    heard.enough
            ])
          ]);
        }
