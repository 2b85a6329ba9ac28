-- ===== src/Shared/Tests.antt =====
-- A segment of five samples, after three writes: the values that the theorems are applied to.
use noise_ai.Base.{ℕ, refl, inl, true, [], ◌∷◌, arith}
use noise_ai.Queue.{push, pop}
use noise_ai.Shared.{Segment, write_segment, read_segment}
use noise_ai.Shared.Posix.{Name}
use noise_ai.Shared.Handle.{construct}
use noise_ai.Shared.Lifetime.{Creates, construct-Creates}
use noise_ai.Shared.Machine.{Machine, blank, machine, machine-IsPosix}
use noise_ai.Shared.Refine.{IsSegment, Produces, write-Produces, Consumes, read-Consumes}

-- Seven samples were written, and four of them read; the next block goes round the end.
abbrev used : Segment ℕ
used = record {
  write_pos = 7;
  read_pos = 4;
  capacity = 5;
  channels = 1;
  sample_rate = 50;
  active = 1;
  heartbeat = 2;
  samples = 6 ∷ 7 ∷ 3 ∷ 4 ∷ 5 ∷ [];
}

used-IsSegment : IsSegment 0 used 7 (5 ∷ 6 ∷ 7 ∷ [])
used-IsSegment = record {
  start = 4;
  holds = record {
    room = omega arith;
    small = omega arith;
    full = refl;
    write_word = omega arith;
    read_word = omega arith;
    order = omega arith;
    fits = omega arith;
    laps = inl (omega arith);
    contents = refl;
  };
}

write-Produces_example :
    Produces 0 used-IsSegment 2 true (5 ∷ 6 ∷ 7 ∷ 8 ∷ 9 ∷ []) (write_segment used (8 ∷ 9 ∷ []) 2)
unfolding push
write-Produces_example =
    write-Produces 0 used-IsSegment (8 ∷ 9 ∷ []) 2 (omega arith) (inl (omega arith))

read-Consumes_example :
    Consumes 0 used-IsSegment true (5 ∷ 6 ∷ 0 ∷ []) (7 ∷ []) (read_segment used (0 ∷ 0 ∷ 0 ∷ []) 2)
unfolding pop
read-Consumes_example = read-Consumes 0 used-IsSegment (0 ∷ 0 ∷ 0 ∷ []) 2 (omega arith)

abbrev tape : Name
tape = 47 ∷ 116 ∷ []

-- A system in which the segment has a name.
abbrev held : Machine ℕ
held = (machine 0).store 0 used ((machine 0).shm_create tape blank).1

construct-Creates_example :
    Creates 0 (machine-IsPosix 0) tape 6 held (construct (machine 0) tape 6 1 60 true held)
construct-Creates_example =
    construct-Creates 0 (machine-IsPosix 0) tape 6 1 60 (omega arith) (omega arith) held
