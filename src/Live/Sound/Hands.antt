-- ===== src/Live/Sound/Hands.antt =====
-- A block that the app hands on (`noise_shm_write` and `noise_engine_process_and_write` of
-- bridge/src/noise_bridge.cpp): what its `write` leaves in the system.
use native.Mathlib.Decide.{dec_le}
use mathlib.Core.List.{append_assoc}
use mathlib.Core.Path.{subst}
use noise_ai.Base.{
  ℕ, ◌+◌, ◌≤◌, ◌<◌, ◌≡◌, inl, refl, ap, ◌∙◌, Bool, true, false, if◌then◌else◌, if-true, if-false,
  le→leb, lt→leb, Option, some, List, ◌++◌, arith, length, length-append, length-take, take, u64,
}
use noise_ai.Float.{Float, nought}
use noise_ai.Queue.{push}
use noise_ai.Shared.{write_segment}
use noise_ai.Shared.Refine.{Produces, write-Produces}
use noise_ai.Shared.Posix.{Posix, IsPosix, Name}
use noise_ai.Shared.Handle.{Handle}
use noise_ai.Live.Buffers.{write_in}
use noise_ai.Live.Guests.{write_in-lem}
use noise_ai.Live.Sound.{Owns}
use noise_ai.Live.Sound.Stays.{Stays, store-Stays}

module _ {F World Fd Map O : Type 0} ⦃f : Float F⦄ {p : Posix F World Fd Map}
    (L : IsPosix O p) where
  open L use {named, contents, of_map}

  -- The samples handed on after a call.
  abbrev pub handed_after : List F → List F → ℕ → Bool → List F
  handed_after handed block n ok = if ok then handed ++ take n block else handed

  pub record Hands (handed block : List F) (n : ℕ) (map : Map) (before : World)
      (r : Option (Bool × World)) : Type 0 where
    pub ok : Bool
    pub world : World
    pub ran : r ≡ some (ok, world)
    pub stays : Stays L handed (handed_after handed block n ok) before world
    pub owns : Owns L (handed_after handed block n ok) map world
    pub names : (m : Name) → named m world ≡ named m before

  module _ (decide : Discrete O) {handed : List F} (block : List F) (n : ℕ) (b : Handle Fd Map)
      (map : Map) (w : World) (mapped : b.shm_ptr ≡ some map) (own : Owns L handed map w)
      (given : n ≤ length block) (small : length handed + n < u64) where
    pub write_in-Hands : Hands handed block n map w (write_in p b block n w)
    unfolding push
    write_in-Hands =
        let made = write-Produces nought own.held block n given (inl (omega (arith, own.bound))) in
        let q = own.queue in
        elim (dec_le (length q + n) own.segment.capacity) [
          | yes fits ↦
              let pr =
                subst
                  (λ (r : Bool × List F).
                    Produces nought own.held n r.0 r.1 (write_segment own.segment block n))
                  (if-true _ _ _ (le→leb (length q + n) own.segment.capacity fits)) made in
              let owns : Owns L (handed ++ take n block) map (p.store map pr.next w) = record {
                segment = pr.next;
                total = pr.total;
                queue = q ++ take n block;
                earlier = own.earlier;
                bytes = L.load-store map pr.next w;
                held = pr.segment;
                last =
                    ap (λ xs. xs ++ take n block) own.last
                    ∙ append_assoc own.earlier q (take n block);
                bound = omega (
                  arith,
                  pr.written,
                  own.bound,
                  length-append handed (take n block),
                  length-take n block,
                );
              } in
              record {
                ok = true;
                world = p.store map pr.next w;
                ran =
                    write_in-lem L b map own.segment w mapped own.bytes block n true pr.next pr.ran;
                stays = store-Stays L decide (take n block) map pr.next w owns;
                owns = owns;
                names = λ m. L.named-store m map pr.next w;
              }
          | no full ↦
              let pr =
                subst
                  (λ (r : Bool × List F).
                    Produces nought own.held n r.0 r.1 (write_segment own.segment block n))
                  (if-false _ _ _ (lt→leb (length q + n) own.segment.capacity (omega arith)))
                  made in
              record {
                ok = false;
                world = w;
                ran =
                    write_in-lem L b map own.segment w mapped own.bytes block n false pr.next
                      pr.ran;
                stays = λ o c. c;
                owns = own;
                names = λ m. refl;
              }
        ]
