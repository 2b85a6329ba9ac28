-- ===== src/Shared/Machine.antt =====
-- A small system to test the shared buffers on: names, and the objects in the order they were
-- made. It keeps what is documented of POSIX; mappings and descriptors are object numbers, and no
-- call fails.
use mathlib.Core.Option.{some-injective}
use noise_ai.Base.{
  ℕ, ◌+◌, ◌*◌, ◌-◌, ◌/◌, ◌≡◌, ◌≢◌, ◌⊎◌, inl, inr, ◌∙◌, refl, sym, ap, Bool, true, false, ◌&&◌,
  if◌then◌else◌, ◌==◌, Option, none, some, [], ◌∷◌, ◌++◌, arith, length, replicate,
  length-replicate,
}
use noise_ai.Shared.{Segment}
use noise_ai.Shared.Objects.{Objects, at, put, at-put, at-put_other, at-length, at-append}
use noise_ai.Shared.Lifetime.{not_both}
use noise_ai.Shared.Posix.{Posix, IsPosix, Name, header_size}
use noise_ai.Shared.Willing.{IsWilling}

pub record Machine (F : Type 0) : Type 0 where
  pub names : Name → Option ℕ
  pub objects : Objects F
  -- The open descriptors.
  pub opened : ℕ → Bool

abbrev pub blank : {F : Type 0} → Machine F
blank = record { names = λ n. none; objects = []; opened = λ o. false }

abbrev same : Name → Name → Bool
same [] [] = true
same (x ∷ xs) (y ∷ ys) = (x == y) && same xs ys
same _ _ = false

equals : (x : ℕ) → (x == x) ≡ true
equals x = ground arith

pub same_refl : (n : Name) → same n n ≡ true
same_refl [] = refl
same_refl (x ∷ xs) = rw (equals x) (same_refl xs)

abbrev bind : {F : Type 0} → Name → Option ℕ → Machine F → Machine F
bind n o w = record w { names = λ m. if same m n then o else w.names m }

abbrev edit : {F : Type 0} → ℕ → Segment F → Machine F → Machine F
edit o s w = record w { objects = put o s w.objects }

-- Descriptor `o` is open, or is not, from now on.
abbrev mark : {F : Type 0} → ℕ → Bool → Machine F → Machine F
mark o b w = record w { opened = λ k. if k == o then b else w.opened k }

abbrev hold : {F : Type 0} → Option ℕ → Machine F → Machine F
hold none w = w
hold (some o) w = mark o true w

-- An object of the given number of bytes, all zero.
abbrev zeros : {F : Type 0} → F → ℕ → Segment F
zeros silent k = record {
  write_pos = 0;
  read_pos = 0;
  capacity = 0;
  channels = 0;
  sample_rate = 0;
  active = 0;
  heartbeat = 0;
  samples = replicate ((k - header_size) / 4) silent;
}

abbrev create_at : {F : Type 0} → Option ℕ → Name → Machine F → Option ℕ × Machine F
create_at (some o) n w = (some o, mark o true w)
create_at none n w =
    let o = length w.objects in
    (some o, mark o true (bind n (some o) (record w { objects = w.objects ++ (none ∷ []) })))

abbrev create : {F : Type 0} → Name → Machine F → Option ℕ × Machine F
create n w = create_at (w.names n) n w

abbrev bytes : {F : Type 0} → Option (Segment F) → ℕ
bytes none = 0
bytes (some s) = header_size + length s.samples * 4

-- An object that `ftruncate` makes holds `silent`.
abbrev pub machine : {F : Type 0} → F → Posix F (Machine F) ℕ ℕ
machine silent = record {
  shm_unlink = λ n. bind n none;
  shm_create = create;
  shm_open = λ n w. (w.names n, hold (w.names n) w);
  ftruncate = λ o k w. (true, edit o (zeros silent k) w);
  fstat = λ o w. (some (bytes (at o w.objects)), w);
  mmap = λ k o w. (some o, w);
  munmap = λ o k w. w;
  close = λ o. mark o false;
  load = λ o w. at o w.objects;
  store = edit;
}

pub create_some :
    {F : Type 0} (known : Option ℕ) (n : Name) (w : Machine F) (o : ℕ)
    → w.names n ≡ known
    → (create_at known n w).0 ≡ some o
    → (create_at known n w).1.names n ≡ some o
create_some none n w o h made =
    ap (λ b. if b then some (length w.objects) else w.names n) (same_refl n) ∙ made
create_some (some k) n w o h made = h ∙ made

pub create_none :
    {F : Type 0} (known : Option ℕ) (n : Name) (w : Machine F)
    → (create_at known n w).0 ≡ none
    → (create_at known n w).1.names n ≡ w.names n
create_none none n w made = absurd (not_both made)
create_none (some k) n w made = refl

pub create_new :
    {F : Type 0} (n : Name) (w : Machine F) (o : ℕ)
    → w.names n ≡ none
    → (create n w).0 ≡ some o
    → at o w.objects ≡ none
create_new n w o free made =
    let made : (create_at none n w).0 ≡ some o = ap (λ k. (create_at k n w).0) (sym free) ∙ made in
    ap (λ k. at k w.objects) (sym (some-injective _ _ made)) ∙ at-length w.objects

pub at-create :
    {F : Type 0} (known : Option ℕ) (o : ℕ) (n : Name) (w : Machine F) (s : Segment F)
    → at o w.objects ≡ some s
    → at o (create_at known n w).1.objects ≡ some s
at-create none o n w s h = at-append o w.objects ∙ h
at-create (some k) o n w s h = h

pub names-hold : {F : Type 0} (o : Option ℕ) (w : Machine F) → (hold o w).names ≡ w.names
names-hold none w = refl
names-hold (some o) w = refl

pub objects-hold : {F : Type 0} (o : Option ℕ) (w : Machine F) → (hold o w).objects ≡ w.objects
objects-hold none w = refl
objects-hold (some o) w = refl

opened-mark :
    {F : Type 0} (fd o : ℕ) (b : Bool) (w : Machine F)
    → (mark o b w).opened fd ≡ true
    → ((fd ≡ o) × (b ≡ true)) ⊎ ((fd ≢ o) × (w.opened fd ≡ true))
opened-mark fd o b w h = ground arith

mark_self : {F : Type 0} (o : ℕ) (b : Bool) (w : Machine F) → (mark o b w).opened o ≡ b
mark_self o b w = ap (λ c. if c then b else w.opened o) (equals o)

opened-mark_set :
    {F : Type 0} (fd o : ℕ) (w : Machine F)
    → (mark o true w).opened fd ≡ true
    → (w.opened fd ≡ true) ⊎ (◌≡◌ {A = Option ℕ} (some o) (some fd))
opened-mark_set fd o w h = elim (opened-mark fd o true w h) [
  | inl (e, _) ↦ inr (ap some (sym e))
  | inr (_, was) ↦ inl was
]

pub opened-mark_cleared :
    {F : Type 0} (fd o : ℕ) (w : Machine F)
    → (mark o false w).opened fd ≡ true
    → (fd ≢ o) × (w.opened fd ≡ true)
opened-mark_cleared fd o w h = elim (opened-mark fd o false w h) [ inl (_, e) ↦ cc | inr was ↦ was ]

pub opened_created :
    {F : Type 0} (known : Option ℕ) (n : Name) (w : Machine F) (fd : ℕ)
    → (create_at known n w).0 ≡ some fd
    → (create_at known n w).1.opened fd ≡ true
opened_created none n w fd made =
    ap (λ k. if fd == k then true else w.opened fd) (some-injective _ _ made) ∙ mark_self fd true w
opened_created (some o) n w fd made =
    ap (λ k. if fd == k then true else w.opened fd) (some-injective _ _ made) ∙ mark_self fd true w

pub opened-create :
    {F : Type 0} (known : Option ℕ) (n : Name) (w : Machine F) (fd : ℕ)
    → (create_at known n w).1.opened fd ≡ true
    → (w.opened fd ≡ true) ⊎ ((create_at known n w).0 ≡ some fd)
opened-create none n w fd h = opened-mark_set fd (length w.objects) w h
opened-create (some o) n w fd h = opened-mark_set fd o w h

unfoldable pub machine-IsPosix : {F : Type 0} (silent : F) → IsPosix ℕ (machine silent)
machine-IsPosix silent = record {
  named = λ n w. w.names n;
  contents = λ o w. at o w.objects;
  of_fd = λ o. o;
  of_map = λ o. o;
  is_open = λ o w. w.opened o;
  open_created = λ n w. opened_created (w.names n) n w;
  open-create = λ n w. opened-create (w.names n) n w;
  open-close = opened-mark_cleared;
  open-unlink = λ fd n w. refl;
  open-ftruncate = λ fd o k w. refl;
  open-mmap = λ fd o k w. refl;
  named-unlink = λ n w. ap (λ b. if b then none else w.names n) (same_refl n);
  create_some = λ n w o. create_some (w.names n) n w o refl;
  create_none = λ n w. create_none (w.names n) n w;
  open_some = λ n w o h. h;
  named-open = λ n m w. ap (λ (names : Name → Option ℕ). names n) (names-hold (w.names m) w);
  named-fstat = λ n o w. refl;
  named-ftruncate = λ n o k w. refl;
  named-mmap = λ n k o w. refl;
  named-munmap = λ n o k w. refl;
  named-close = λ n o w. refl;
  named-store = λ n o s w. refl;
  create_new = create_new;
  contents-create = λ o n w. at-create (w.names n) o n w;
  contents-ftruncate = λ o fd k w h. at-put_other o fd _ w.objects h;
  contents-store = λ o m s w h. at-put_other o m s w.objects h;
  contents-open = λ o m w. ap (at o) (objects-hold (w.names m) w);
  contents-fstat = λ o fd w. refl;
  contents-mmap = λ o k fd w. refl;
  contents-munmap = λ o m k w. refl;
  contents-close = λ o fd w. refl;
  contents-unlink = λ o n w. refl;
  ftruncate_lem = λ o k w ok h. (
    zeros silent k,
    at-put o (zeros silent k) w.objects,
    length-replicate ((k - header_size) / 4) silent,
  );
  mmap_some = λ k o w m h. sym (some-injective _ _ h);
  load_lem = λ o w. refl;
  load-store = λ o s w. at-put o s w.objects;
}

create_willing :
    {F : Type 0} (known : Option ℕ) (n : Name) (w : Machine F)
    → (o : ℕ) × ((create_at known n w).0 ≡ some o)
create_willing none n w = (length w.objects, refl)
create_willing (some o) n w = (o, refl)

pub machine-IsWilling : {F : Type 0} (silent : F) → IsWilling (machine-IsPosix silent)
unfolding machine-IsPosix
machine-IsWilling silent = record {
  creates = λ n w. create_willing (w.names n) n w;
  opens = λ n w o known. (o, known);
  sizes = λ o k w. refl;
  knows = λ o w. (bytes (at o w.objects), refl);
  maps = λ k o w. (o, refl);
}
