-- ===== src/Spsc/Threads/Growth.antt =====
-- The positions that the producer was admitted to fill never go back.
use mathlib.Core.Path.{subst}
use mathlib.Core.Option.{some-injective}
use noise_ai.Base.{
  ℕ, ◌+◌, ◌≤◌, ◌≡◌, refl, sym, ap, some, List, length, take, arith, if-both, ltb, sub64,
  >>=-eq-some,
}
use noise_ai.Circular.{copy_in, copy_out}
use noise_ai.Spsc.Atomic.{store}
use noise_ai.Spsc.Threads.{
  Producer, Consumer, System, enter_write, enter_read, fill, publish, empty_out, release, Step,
  enters_write, fills, publishes, enters_read, empties, releases,
}
use noise_ai.Spsc.Threads.Invariant.{claimed}

module _ {A : Type 0} where
  pub fill-copied :
      (samples : List A) (n w : ℕ) (s u : System A)
      → fill samples n w s ≡ some u
      → u.producer ≡ Producer.copied samples n w
  unfolding fill
  fill-copied samples n w s u ran =
      let (b, ran', made) =
        >>=-eq-some (copy_in s.capacity s.buffer w samples n)
          (λ b. some (record s { buffer = b; producer = Producer.copied samples n w })) ran in
      ap (λ (u : System A). u.producer) (sym (some-injective _ _ made))

  pub empty_out-copied :
      (block : List A) (n r : ℕ) (s u : System A)
      → empty_out block n r s ≡ some u
      → (out : List A) × (u.consumer ≡ Consumer.copied out n r)
  unfolding empty_out
  empty_out-copied block n r s u ran =
      let (b, ran', made) =
        >>=-eq-some (copy_out s.capacity s.buffer r block n)
          (λ b. some (record s { consumer = Consumer.copied b n r })) ran in
      (b, ap (λ (u : System A). u.consumer) (sym (some-injective _ _ made)))

  abbrev pub Grows : System A → System A → List A → Type 0
  Grows s u wrote =
      (u.capacity ≡ s.capacity)
      × (length (claimed s.producer) ≤ length wrote + length (claimed u.producer))

  enter_write-Grows :
      (k : ℕ) (samples : List A) (n : ℕ) (s : System A) (wrote : List A)
      → length (claimed s.producer) ≡ 0
      → Grows s (enter_write k samples n s) wrote
  unfolding enter_write
  enter_write-Grows k samples n s wrote nothing =
      if-both (λ (u : System A). Grows s u wrote) _ (refl, omega arith)
        (refl, omega (arith, nothing))

  enter_read-Grows :
      (k : ℕ) (block : List A) (n : ℕ) (s : System A) (wrote : List A)
      → Grows s (enter_read k block n s) wrote
  unfolding enter_read
  enter_read-Grows k block n s wrote =
      if-both (λ (u : System A). Grows s u wrote) _ (refl, omega arith) (refl, omega arith)

  pub Step-Grows : {s u : System A} {wrote got : List A} → Step s wrote got u → Grows s u wrote
  unfolding fill publish empty_out release
  Step-Grows {s} {u} {wrote} (enters_write k samples n at old new given w g e) =
      let nothing : length (claimed s.producer) ≡ 0 =
        ap (λ (p : Producer A). length (claimed p)) at in
      subst (λ (u : System A). Grows s u wrote) (sym e)
        (enter_write-Grows k samples n s wrote nothing)
  Step-Grows {s} {u} {wrote} (fills samples n w at wr g ran) =
      let (b, ran', made) =
        >>=-eq-some (copy_in s.capacity s.buffer w samples n)
          (λ b. some (record s { buffer = b; producer = Producer.copied samples n w })) ran in
      let size : length (claimed s.producer) ≡ length (take n samples) =
        ap (λ (p : Producer A). length (claimed p)) at in
      subst (λ (u : System A). Grows s u wrote)
        {x = record s { buffer = b; producer = Producer.copied samples n w }}
        (some-injective _ _ made) (refl, omega (arith, size))
  Step-Grows {s} {u} {wrote} (publishes samples n w at wr g e) =
      let size : length (claimed s.producer) ≡ length (take n samples) =
        ap (λ (p : Producer A). length (claimed p)) at in
      subst (λ (u : System A). Grows s u wrote) (sym e) (refl, omega (arith, size, ap length wr))
  Step-Grows {s} {u} {wrote} (enters_read k block n at old new given w g e) =
      subst (λ (u : System A). Grows s u wrote) (sym e) (enter_read-Grows k block n s wrote)
  Step-Grows {s} {u} {wrote} (empties block n r at w g ran) =
      let (b, ran', made) =
        >>=-eq-some (copy_out s.capacity s.buffer r block n)
          (λ b. some (record s { consumer = Consumer.copied b n r })) ran in
      subst (λ (u : System A). Grows s u wrote) {x = record s { consumer = Consumer.copied b n r }}
        (some-injective _ _ made) (refl, omega arith)
  Step-Grows {s} {u} {wrote} (releases block n r at w g e) =
      subst (λ (u : System A). Grows s u wrote) (sym e) (refl, omega arith)

  enter_write-words :
      (i : ℕ) (samples : List A) (n : ℕ) (s : System A) (k : ℕ)
      → (enter_write i samples n s).write_pos.value k ≡ s.write_pos.value k
  unfolding enter_write
  enter_write-words i samples n s k =
      if-both (λ (u : System A). u.write_pos.value k ≡ s.write_pos.value k)
        (ltb (sub64 s.capacity (sub64 (s.write_pos.value s.write_pos.latest) (s.read_pos.value i)))
          n)
        {x = record s { read_seen = i }}
        {y = record s {
          read_seen = i;
          producer = Producer.admitted samples n (s.write_pos.value s.write_pos.latest);
        }}
        refl refl

  enter_read-words :
      (i : ℕ) (block : List A) (n : ℕ) (s : System A) (k : ℕ)
      → (enter_read i block n s).write_pos.value k ≡ s.write_pos.value k
  unfolding enter_read
  enter_read-words i block n s k =
      if-both (λ (u : System A). u.write_pos.value k ≡ s.write_pos.value k)
        (ltb (sub64 (s.write_pos.value i) (s.read_pos.value s.read_pos.latest)) n)
        {x = record s { write_seen = i }}
        {y = record s {
          write_seen = i;
          consumer = Consumer.admitted block n (s.read_pos.value s.read_pos.latest);
        }}
        refl refl

  -- A step leaves the words that were stored to the write position before it.
  pub Step-words :
      {s u : System A} {wrote got : List A}
      → Step s wrote got u
      → (k : ℕ) → k ≤ s.write_pos.latest
      → u.write_pos.value k ≡ s.write_pos.value k
  unfolding fill publish empty_out release store
  Step-words {s} {u} (enters_write i samples n at old new given w g e) k h =
      subst (λ (u : System A). u.write_pos.value k ≡ s.write_pos.value k) (sym e)
        (enter_write-words i samples n s k)
  Step-words {s} {u} (fills samples n w at wr g ran) k h =
      let (b, ran', made) =
        >>=-eq-some (copy_in s.capacity s.buffer w samples n)
          (λ b. some (record s { buffer = b; producer = Producer.copied samples n w })) ran in
      subst (λ (u : System A). u.write_pos.value k ≡ s.write_pos.value k)
        {x = record s { buffer = b; producer = Producer.copied samples n w }}
        (some-injective _ _ made) refl
  Step-words {s} {u} (publishes samples n w at wr g e) k h =
      subst (λ (u : System A). u.write_pos.value k ≡ s.write_pos.value k) (sym e) (ground arith)
  Step-words {s} {u} (enters_read i block n at old new given w g e) k h =
      subst (λ (u : System A). u.write_pos.value k ≡ s.write_pos.value k) (sym e)
        (enter_read-words i block n s k)
  Step-words {s} {u} (empties block n r at w g ran) k h =
      let (b, ran', made) =
        >>=-eq-some (copy_out s.capacity s.buffer r block n)
          (λ b. some (record s { consumer = Consumer.copied b n r })) ran in
      subst (λ (u : System A). u.write_pos.value k ≡ s.write_pos.value k)
        {x = record s { consumer = Consumer.copied b n r }} (some-injective _ _ made) refl
  Step-words {s} {u} (releases block n r at w g e) k h =
      subst (λ (u : System A). u.write_pos.value k ≡ s.write_pos.value k) (sym e) refl
