-- ===== src/Live/Keeps.antt =====
-- What the consumer's calls leave of the segments in the system: samples go from the front of
-- their queues, and what the producer writes stays.
use mathlib.Core.Option.{some-injective}
use mathlib.Core.Path.{subst}
use noise_ai.Base.{
  ℕ, ◌+◌, ◌≤◌, ◌≡◌, refl, sym, ap, ◌∙◌, Bool, leb, if-both, some, List, arith, length, drop,
  drop-drop, drop-length,
}
use noise_ai.Queue.{pop}
use noise_ai.Shared.{Segment, read_segment}
use noise_ai.Shared.Posix.{Posix, IsPosix}
use noise_ai.Shared.Refine.{IsSegment, read-Consumes, flush-IsSegment}
use noise_ai.Live.Guests.{Same}

module _ {F : Type 0} (d : F) where
  pub record Shrinks (s s' : Segment F) (W : ℕ) (q : List F) : Type 0 where
    pub count : ℕ
    pub segment : IsSegment d s' W (drop count q)
    pub heartbeat : s'.heartbeat ≡ s.heartbeat
    pub active : s'.active ≡ s.active
    pub capacity : s'.capacity ≡ s.capacity

  -- Whatever the segment holds.
  abbrev pub Takes : Segment F → Segment F → Type 0
  Takes s s' = (W : ℕ) (q : List F) → IsSegment d s W q → Shrinks s s' W q

  Takes-refl : (s : Segment F) → Takes s s
  Takes-refl s W q held = record {
    count = 0;
    segment = held;
    heartbeat = refl;
    active = refl;
    capacity = refl;
  }

  pop_drops : (q block : List F) (n : ℕ) → (k : ℕ) × ((pop q block n).2 ≡ drop k q)
  unfolding pop
  pop_drops q block n =
      if-both (λ (r : Bool × List F × List F). (k : ℕ) × (r.2 ≡ drop k q)) (leb n (length q))
        (n, refl) (0, refl)

  pub read-Takes :
      {s s' : Segment F} {out : List F} {ok : Bool} (block : List F) (n : ℕ)
      → n ≤ length block
      → read_segment s block n ≡ some (ok, out, s')
      → Takes s s'
  read-Takes {s} {s'} block n room ran W q held =
      let c = read-Consumes d held block n room in
      let (k, drops) = pop_drops q block n in
      let same : c.next ≡ s' = ap (λ r. r.2) (some-injective _ _ (sym c.ran ∙ ran)) in
      subst (λ t. Shrinks s t W q) same
        (record {
          count = k;
          segment = subst (IsSegment d c.next W) drops c.segment;
          heartbeat = c.heartbeat;
          active = c.active;
          capacity = c.capacity;
        })

  pub flush-Takes : (s : Segment F) → Takes s (record s { read_pos = s.write_pos })
  flush-Takes s W q held = record {
    count = length q;
    segment =
        subst (IsSegment d (record s { read_pos = s.write_pos }) W)
          (sym (drop-length (length q) q (omega arith))) (flush-IsSegment d held).1;
    heartbeat = refl;
    active = refl;
    capacity = refl;
  }

module _ {F World Fd Map O : Type 0} (d : F) {p : Posix F World Fd Map} (L : IsPosix O p) where
  open L use {named, contents, of_map}

  pub record Left (o : O) (s : Segment F) (W : ℕ) (q : List F) (w : World) : Type 0 where
    pub segment : Segment F
    pub bytes : contents o w ≡ some segment
    pub shrinks : Shrinks d s segment W q

  abbrev pub Keeps : World → World → Type 0
  Keeps w w' =
      (o : O) (s : Segment F) (W : ℕ) (q : List F)
      → contents o w ≡ some s
      → IsSegment d s W q
      → Left o s W q w'

  pub Keeps-Same : {w w' : World} → Same L w w' → Keeps w w'
  Keeps-Same same o s W q bytes held = record {
    segment = s;
    bytes = same.bytes o ∙ bytes;
    shrinks = Takes-refl d s W q held;
  }

  pub Keeps-trans : {a b c : World} → Keeps a b → Keeps b c → Keeps a c
  Keeps-trans first second o s W q bytes held =
      let l = first o s W q bytes held in
      let m = second o l.segment W (drop l.shrinks.count q) l.bytes l.shrinks.segment in
      record {
        segment = m.segment;
        bytes = m.bytes;
        shrinks = record {
          count = l.shrinks.count + m.shrinks.count;
          segment =
              subst (IsSegment d m.segment W) (drop-drop m.shrinks.count l.shrinks.count q)
                m.shrinks.segment;
          heartbeat = m.shrinks.heartbeat ∙ l.shrinks.heartbeat;
          active = m.shrinks.active ∙ l.shrinks.active;
          capacity = m.shrinks.capacity ∙ l.shrinks.capacity;
        };
      }

  -- Objects are told apart.
  pub Keeps-store :
      Discrete O
      → (map : Map) (s s' : Segment F) (w : World) → contents (of_map map) w ≡ some s
      → Takes d s s'
      → Keeps w (p.store map s' w)
  Keeps-store decide map s s' w there takes o t W q bytes held = elim (decide o (of_map map)) [
    | yes same ↦
        let e : t ≡ s = some-injective _ _ (sym bytes ∙ ap (λ x. contents x w) same ∙ there) in
        record {
          segment = s';
          bytes = ap (λ x. contents x (p.store map s' w)) same ∙ L.load-store map s' w;
          shrinks = subst (λ x. IsSegment d x W q → Shrinks d x s' W q) (sym e) (takes W q) held;
        }
    | no other ↦ record {
      segment = t;
      bytes = L.contents-store o map s' w other ∙ bytes;
      shrinks = Takes-refl d t W q held;
    }
  ]
