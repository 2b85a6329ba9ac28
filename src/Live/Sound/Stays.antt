-- ===== src/Live/Sound/Stays.antt =====
-- What carries samples of the app goes on to do so.
use mathlib.Core.List.{append_assoc, append-nil}
use mathlib.Core.Path.{subst}
use noise_ai.Base.{ℕ, ◌≡◌, sym, ap, ◌∙◌, some, List, [], ◌++◌, take, drop, take-append-drop}
use noise_ai.Float.{Float, nought}
use noise_ai.Shared.{Segment}
use noise_ai.Shared.Posix.{Posix, IsPosix}
use noise_ai.Live.Keeps.{Keeps}
use noise_ai.Live.Sound.{Carries, Owns}

module _ {F World Fd Map O : Type 0} ⦃f : Float F⦄ {p : Posix F World Fd Map}
    (L : IsPosix O p) where
  open L use {named, contents, of_map}

  abbrev pub Stays : List F → List F → World → World → Type 0
  Stays handed handed' w w' = (o : O) → Carries L handed o w → Carries L handed' o w'

  pub Owns-Carries :
      {handed : List F} {map : Map} {w : World}
      → Owns L handed map w
      → Carries L handed (of_map map) w
  Owns-Carries owns = record {
    segment = owns.segment;
    total = owns.total;
    queue = owns.queue;
    earlier = owns.earlier;
    later = [];
    bytes = owns.bytes;
    held = owns.held;
    inside = owns.last ∙ ap (◌++◌ owns.earlier) (sym (append-nil owns.queue));
  }

  -- Calls that leave the bytes of what is there.
  pub kept-Stays :
      {handed : List F} {w w' : World}
      → ((o : O) (s : Segment F) → contents o w ≡ some s → contents o w' ≡ some s)
      → Stays handed handed w w'
  kept-Stays kept o c = record {
    segment = c.segment;
    total = c.total;
    queue = c.queue;
    earlier = c.earlier;
    later = c.later;
    bytes = kept o c.segment c.bytes;
    held = c.held;
    inside = c.inside;
  }

  split_run :
      (k : ℕ) (earlier q later : List F)
      → earlier ++ (q ++ later) ≡ (earlier ++ take k q) ++ (drop k q ++ later)
  split_run k earlier q later =
      ap (λ xs. earlier ++ (xs ++ later)) (sym (take-append-drop k q))
      ∙ ap (◌++◌ earlier) (append_assoc (take k q) (drop k q) later)
      ∙ sym (append_assoc earlier (take k q) (drop k q ++ later))

  -- The consumer's calls.
  pub Keeps-Stays :
      {handed : List F} {w w' : World} → Keeps nought L w w' → Stays handed handed w w'
  Keeps-Stays keeps o c =
      let l = keeps o c.segment c.total c.queue c.bytes c.held in
      record {
        segment = l.segment;
        total = c.total;
        queue = drop l.shrinks.count c.queue;
        earlier = c.earlier ++ take l.shrinks.count c.queue;
        later = c.later;
        bytes = l.bytes;
        held = l.shrinks.segment;
        inside = c.inside ∙ split_run l.shrinks.count c.earlier c.queue c.later;
      }

  pub Keeps-Owns :
      {handed : List F} {map : Map} {w w' : World}
      → Keeps nought L w w'
      → Owns L handed map w
      → Owns L handed map w'
  Keeps-Owns {map = map} keeps c =
      let l = keeps (of_map map) c.segment c.total c.queue c.bytes c.held in
      record {
        segment = l.segment;
        total = c.total;
        queue = drop l.shrinks.count c.queue;
        earlier = c.earlier ++ take l.shrinks.count c.queue;
        bytes = l.bytes;
        held = l.shrinks.segment;
        last =
            c.last
            ∙ ap (◌++◌ c.earlier) (sym (take-append-drop l.shrinks.count c.queue))
            ∙ sym (
                append_assoc c.earlier (take l.shrinks.count c.queue)
                  (drop l.shrinks.count c.queue));
        bound = c.bound;
      }

  -- The producer's: a store through the mapping of its own segment.
  pub store-Stays :
      Discrete O
      → {handed : List F} (more : List F) (map : Map) (s' : Segment F) (w : World)
      → Owns L (handed ++ more) map (p.store map s' w)
      → Stays handed (handed ++ more) w (p.store map s' w)
  store-Stays decide {handed} more map s' w own o c = elim (decide o (of_map map)) [
    | yes same ↦
        subst (λ x. Carries L (handed ++ more) x (p.store map s' w)) (sym same) (Owns-Carries own)
    | no other ↦ record {
      segment = c.segment;
      total = c.total;
      queue = c.queue;
      earlier = c.earlier;
      later = c.later ++ more;
      bytes = L.contents-store o map s' w other ∙ c.bytes;
      held = c.held;
      inside =
          ap (λ xs. xs ++ more) c.inside
          ∙ append_assoc c.earlier (c.queue ++ c.later) more
          ∙ ap (◌++◌ c.earlier) (append_assoc c.queue c.later more);
    }
  ]
