-- ===== src/Shared/Lifetime.antt =====
-- The lifetime of a shared segment: what creating, opening and destroying one leaves in the
-- system.
use mathlib.Core.Option.{some-injective}
use noise_ai.Base.{
  ℕ, ◌+◌, ◌*◌, ◌%◌, ◌<◌, ◌≡◌, ◌≢◌, ◌⊎◌, inl, inr, refl, sym, ap, ◌∙◌, true, Bool-cases, Option,
  none, some, Option-cases, [], arith, length, take, u32, u64,
}
use noise_ai.Circular.Holds.{fresh-Holds}
use noise_ai.Shared.{Segment}
use noise_ai.Shared.Refine.{IsSegment}
use noise_ai.Shared.Posix.{Posix, IsPosix, Name, header_size}
use noise_ai.Shared.Handle.{Handle, header, map_segment, construct}

pub not_both : {A : Type 0} {a : A} → ¬ (some a ≡ none)
not_both e = cc

module _ {F World Fd Map O : Type 0} (d : F) {p : Posix F World Fd Map} (L : IsPosix O p) where
  open L use {named, contents, of_fd, of_map, is_open}

  -- A handle that failed: no mapping, no descriptor, and nothing under the name. A descriptor
  -- that is open was open before.
  pub record Fails (name : Name) (before : World) (h : Handle Fd Map) (w : World) : Type 0 where
    pub unmapped : h.shm_ptr ≡ none
    pub closed : h.shm_fd ≡ none
    pub released : (fd : Fd) → is_open fd w ≡ true → is_open fd before ≡ true
    pub gone : named name w ≡ none

  -- A handle on an empty, active segment of the given capacity, which has the name.
  pub record Maps (name : Name) (capacity : ℕ) (h : Handle Fd Map) (w : World) : Type 0 where
    pub map : Map
    pub segment : Segment F
    pub mapped : h.shm_ptr ≡ some map
    pub known : named name w ≡ some (of_map map)
    pub bytes : contents (of_map map) w ≡ some segment
    pub capacity_lem : segment.capacity ≡ capacity
    pub active : segment.active ≡ 1
    pub empty : IsSegment d segment 0 []

  pub record Creates (name : Name) (capacity : ℕ) (before : World)
      (r : Option (Handle Fd Map × World)) : Type 0 where
    pub handle : Handle Fd Map
    pub world : World
    pub ran : r ≡ some (handle, world)
    pub creator : handle.is_creator ≡ true
    pub stored_name : handle.shm_name ≡ take 255 name
    -- Other segments keep their bytes.
    pub kept : (o : O) (s : Segment F) → contents o before ≡ some s → contents o world ≡ some s
    pub outcome : Fails name before handle world ⊎ Maps name capacity handle world

  -- Once the descriptor that was opened is closed, those that are open were open before.
  closed_again :
      (fd : Fd) (before w : World)
      → ((other : Fd) → is_open other w ≡ true → (is_open other before ≡ true) ⊎ (other ≡ fd))
      → (other : Fd) → is_open other (p.close fd w) ≡ true
      → is_open other before ≡ true
  closed_again fd before w opened other h =
      let (differs, was) = L.open-close other fd w h in
      elim (opened other was) [ inl earlier ↦ earlier | inr same ↦ absurd (differs same) ]

  module _ (name : Name) (capacity channels sample_rate : ℕ) (pos : 0 < capacity)
      (small : capacity < u32) where
    abbrev size : ℕ
    size = (header_size + capacity * 4) % u64

    map_segment-Creates :
        (fd : Fd) (before w : World) (s : Segment F)
        → ((o : O) (t : Segment F)
            → contents o before ≡ some t
            → (contents o w ≡ some t) × (o ≢ of_fd fd))
        → ((other : Fd) → is_open other w ≡ true → (is_open other before ≡ true) ⊎ (other ≡ fd))
        → named name w ≡ some (of_fd fd)
        → contents (of_fd fd) w ≡ some s
        → length s.samples ≡ capacity
        → Creates name capacity before
            (map_segment p name capacity channels sample_rate true size fd w)
    unfolding map_segment
    map_segment-Creates fd before w s keep opened known bytes full =
        elim (Option-cases (p.mmap size fd w).0) [
          | inl fails ↦
              rw (fails, map_segment)
                (record {
                  handle = record {
                    shm_ptr = none;
                    shm_size = size;
                    shm_fd = none;
                    is_creator = true;
                    shm_name = take 255 name;
                  };
                  world = p.shm_unlink name (p.close fd (p.mmap size fd w).1);
                  ran = refl;
                  creator = refl;
                  stored_name = refl;
                  kept = λ o t h.
                      L.contents-unlink o name _
                      ∙ L.contents-close o fd _
                      ∙ L.contents-mmap o size fd w
                      ∙ (keep o t h).0;
                  outcome = inl (record {
                    unmapped = refl;
                    closed = refl;
                    released = λ other h.
                        closed_again fd before (p.mmap size fd w).1
                          (λ o i. opened o (sym (L.open-mmap o fd size w) ∙ i)) other
                          (sym (L.open-unlink other name _) ∙ h);
                    gone = L.named-unlink name (p.close fd (p.mmap size fd w).1);
                  });
                })
          | inr (map, maps) ↦
              let same : of_map map ≡ of_fd fd = L.mmap_some size fd w map maps in
              let there : contents (of_map map) (p.mmap size fd w).1 ≡ some s =
                L.contents-mmap (of_map map) size fd w ∙ ap (λ o. contents o w) same ∙ bytes in
              rw (maps, map_segment, L.load_lem map (p.mmap size fd w).1, there)
                (record {
                  handle = record {
                    shm_ptr = some map;
                    shm_size = size;
                    shm_fd = some fd;
                    is_creator = true;
                    shm_name = take 255 name;
                  };
                  world =
                      p.store map (header p capacity channels sample_rate s) (p.mmap size fd w).1;
                  ran = refl;
                  creator = refl;
                  stored_name = refl;
                  kept = λ o t h.
                      L.contents-store o map _ _ (λ e. (keep o t h).1 (e ∙ same))
                      ∙ L.contents-mmap o size fd w
                      ∙ (keep o t h).0;
                  outcome = inr (record {
                    map = map;
                    segment = header p capacity channels sample_rate s;
                    mapped = refl;
                    known =
                        L.named-store name map _ _
                        ∙ L.named-mmap name size fd w
                        ∙ known
                        ∙ ap some (sym same);
                    bytes = L.load-store map _ _;
                    capacity_lem = omega arith;
                    active = refl;
                    empty = record {
                      start = 0;
                      holds =
                          let word : capacity % u32 ≡ capacity = omega arith in
                          rw word (fresh-Holds d capacity s.samples pos (omega arith) full);
                    };
                  });
                })
        ]

    -- With POSIX as documented, and a capacity above 0 and below 2^32: creating a segment has no
    -- undefined behaviour. The handle is the creator's, and segments with bytes before the call
    -- keep them. It maps an empty, active segment of that capacity, which has the name; or it is
    -- not valid, and then it has no descriptor, every descriptor that is open was open before the
    -- call, and nothing has the name.
    pub construct-Creates :
        (w : World)
        → Creates name capacity w (construct p name capacity channels sample_rate true w)
    unfolding construct
    construct-Creates w = elim (Option-cases (p.shm_create name clean).0) [
      | inl fails ↦
          rw (fails, construct)
            (record {
              handle = failed;
              world = created;
              ran = refl;
              creator = refl;
              stored_name = refl;
              kept = begun;
              outcome = inl (record {
                unmapped = refl;
                closed = refl;
                released = λ other h. elim (made other h) [
                  | inl was ↦ was
                  | inr e ↦ absurd (not_both (sym e ∙ fails))
                ];
                gone = L.create_none name clean fails ∙ L.named-unlink name w;
              });
            })
      | inr (fd, opens) ↦ elim (Bool-cases (p.ftruncate fd size created).0) [
        | inl sized ↦
            let (s, bytes, full) = L.ftruncate_lem fd size created sized (omega arith) in
            rw (opens, construct, sized)
              (map_segment-Creates fd w (p.ftruncate fd size created).1 s (sized_too fd opens)
                (opened fd opens)
                (L.named-ftruncate name fd size created ∙ L.create_some name clean fd opens) bytes
                (omega (arith, full)))
        | inr fails ↦
            rw (opens, construct, fails)
              (record {
                handle = failed;
                world = p.shm_unlink name (p.close fd (p.ftruncate fd size created).1);
                ran = refl;
                creator = refl;
                stored_name = refl;
                kept = λ o t h.
                    L.contents-unlink o name _
                    ∙ L.contents-close o fd _
                    ∙ (sized_too fd opens o t h).0;
                outcome = inl (record {
                  unmapped = refl;
                  closed = refl;
                  released = λ other h.
                      closed_again fd w (p.ftruncate fd size created).1 (opened fd opens) other
                        (sym (L.open-unlink other name _) ∙ h);
                  gone = L.named-unlink name (p.close fd (p.ftruncate fd size created).1);
                });
              })
      ]
    ]
      where
        clean : World
        clean = p.shm_unlink name w

        created : World
        created = (p.shm_create name clean).1

        failed : Handle Fd Map
        failed = record {
          shm_ptr = none;
          shm_size = size;
          shm_fd = none;
          is_creator = true;
          shm_name = take 255 name;
        }

        made :
            (other : Fd)
            → is_open other created ≡ true
            → (is_open other w ≡ true) ⊎ ((p.shm_create name clean).0 ≡ some other)
        made other h = elim (L.open-create name clean other h) [
          | inl was ↦ inl (sym (L.open-unlink other name w) ∙ was)
          | inr e ↦ inr e
        ]

        opened :
            (fd : Fd)
            → (p.shm_create name clean).0 ≡ some fd
            → (other : Fd) → is_open other (p.ftruncate fd size created).1 ≡ true
            → (is_open other w ≡ true) ⊎ (other ≡ fd)
        opened fd opens other h =
            elim (made other (sym (L.open-ftruncate other fd size created) ∙ h)) [
              | inl was ↦ inl was
              | inr e ↦ inr (some-injective _ _ (sym e ∙ opens))
            ]

        begun : (o : O) (t : Segment F) → contents o w ≡ some t → contents o created ≡ some t
        begun o t h = L.contents-create o name clean t (L.contents-unlink o name w ∙ h)

        sized_too :
            (fd : Fd)
            → (p.shm_create name clean).0 ≡ some fd
            → (o : O) (t : Segment F) → contents o w ≡ some t
            → (contents o (p.ftruncate fd size created).1 ≡ some t) × (o ≢ of_fd fd)
        sized_too fd opens o t h =
            let fresh : contents (of_fd fd) w ≡ none =
              sym (L.contents-unlink (of_fd fd) name w)
              ∙ L.create_new name clean fd (L.named-unlink name w) opens in
            let other : o ≢ of_fd fd = λ e. not_both (sym h ∙ ap (λ o. contents o w) e ∙ fresh) in
            (L.contents-ftruncate o fd size created other ∙ begun o t h, other)
