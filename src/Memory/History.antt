-- ===== src/Memory/History.antt =====
-- Calls of `nc_mem_alloc` and `nc_mem_free` of src/nc_memory.c in any order, by a host that frees
-- only what it was given and has not freed yet.
use nanoc.Base.{
  ℕ, ◌+◌, ◌-◌, ◌*◌, ◌≤◌, ◌<◌, ◌≡◌, ◌≢◌, ◌⊎◌, inl, inr, sym, List, [], ◌∷◌, ◌++◌, arith, Bool-cases,
  ◌==◌, if◌then◌else◌, replicate, done, Returns, Returns-mono,
}
use mathlib.Core.List.{append_assoc}
use nanoc.Memory.{Mem, alloc, free, get_blocksize, num_blocks, num_words}
use nanoc.Memory.Layout.{Block, vacant, used, extent, Holds}
use nanoc.Memory.Alloc.{alloc-Allocated}
use nanoc.Memory.Free.{free-Freed, get_blocksize_lem}
use nanoc.Memory.Runs.{RunAt, RunAt-here, RunAt-claim, RunAt-release, RunAt-parts}

-- The heap, and the addresses in use with the bytes that were asked for.
pub record Heap : Type 0 where
  pub mem : Mem
  pub live : List (ℕ × ℕ)

abbrev pub In : ℕ → List (ℕ × ℕ) → Type 0
In a [] = ⊥
In a ((b, k) ∷ live) = (a ≡ b) ⊎ In a live

unfoldable pub without : ℕ → List (ℕ × ℕ) → List (ℕ × ℕ)
without a [] = []
without a ((b, k) ∷ live) = let rest = without a live in if a == b then rest else (b, k) ∷ rest

pub data Step : Heap → Heap → Type 0 where
  allocated :
      (h : Heap) (bytes a : ℕ) (m' : Mem)
      → bytes ≤ 512
      → alloc h.mem bytes ≡ done (a, m')
      → a ≢ 0
      → Step h (record { mem = m'; live = (a, bytes) ∷ h.live })
  refused :
      (h : Heap) (bytes : ℕ) (m' : Mem)
      → bytes ≤ 512
      → alloc h.mem bytes ≡ done (0, m')
      → Step h (record { mem = m'; live = h.live })
  freed :
      (h : Heap) (a : ℕ) (m' : Mem)
      → In a h.live
      → free h.mem a ≡ done m'
      → Step h (record { mem = m'; live = without a h.live })

pub data Reach (s : Heap) : Heap → Type 0 where
  here : Reach s s
  further : {h h' : Heap} → Reach s h → Step h h' → Reach s h'

-- An address in use is that of a run with room for the bytes.
abbrev Live : List Block → ℕ → ℕ → Type 0
Live bs a bytes =
    (e : ℕ) × (n : ℕ) × (w : ℕ) × (a ≡ 0x8000 + e + 2)
    × (0 < n)
    × (bytes ≤ w * 4 - 2)
    × RunAt e n w bs

abbrev AllLive : List Block → List (ℕ × ℕ) → Type 0
AllLive bs [] = Unit
AllLive bs ((a, bytes) ∷ live) = Live bs a bytes × AllLive bs live

abbrev pub Fresh : ℕ → List (ℕ × ℕ) → Type 0
Fresh a [] = Unit
Fresh a ((b, k) ∷ live) = (a ≢ b) × Fresh a live

abbrev pub AreDistinct : List (ℕ × ℕ) → Type 0
AreDistinct [] = Unit
AreDistinct ((a, k) ∷ live) = Fresh a live × AreDistinct live

claim-Live :
    (k v : ℕ) (xs ys : List Block) (live : List (ℕ × ℕ))
    → 0 < k
    → AllLive (xs ++ (replicate k vacant ++ ys)) live
    → AllLive (xs ++ (used k v ∷ ys)) live × Fresh (0x8000 + extent xs + 2) live
claim-Live k v xs ys [] pos h = (tt, tt)
claim-Live k v xs ys ((a, bytes) ∷ live) pos ((e, n, w, at, pos', room, run), h) =
    let (run', ne) = RunAt-claim n w e k v xs ys pos' pos run in
    let (all, fresh) = claim-Live k v xs ys live pos h in
    (((e, n, w, at, pos', room, run'), all), (λ eq. ne (omega arith), fresh))

release-Live :
    (k v : ℕ) (xs ys : List Block) (live : List (ℕ × ℕ))
    → AllLive (xs ++ (used k v ∷ ys)) live
    → AllLive (xs ++ (replicate k vacant ++ ys)) (without (0x8000 + extent xs + 2) live)
unfolding without
release-Live k v xs ys [] h = tt
release-Live k v xs ys ((a, bytes) ∷ live) ((e, n, w, at, pos, room, run), h) =
    let rest = release-Live k v xs ys live h in
    elim (Bool-cases (0x8000 + extent xs + 2 == a)) [
      | inl eq ↦ rw eq rest
      | inr eq ↦
          (let ne : e ≢ extent xs = λ same. absurd (ground (arith, same)) in
            rw eq ((e, n, w, at, pos, room, RunAt-release n w e k v xs ys ne run), rest))
    ]

without-Fresh : (a b : ℕ) (live : List (ℕ × ℕ)) → Fresh b live → Fresh b (without a live)
unfolding without
without-Fresh a b [] h = tt
without-Fresh a b ((c, k) ∷ live) (ne, h) = elim (Bool-cases (a == c)) [
  | inl eq ↦ rw eq (without-Fresh a b live h)
  | inr eq ↦ rw eq (ne, without-Fresh a b live h)
]

without-AreDistinct :
    (a : ℕ) (live : List (ℕ × ℕ)) → AreDistinct live → AreDistinct (without a live)
unfolding without
without-AreDistinct a [] h = tt
without-AreDistinct a ((c, k) ∷ live) (ne, h) = elim (Bool-cases (a == c)) [
  | inl eq ↦ rw eq (without-AreDistinct a live h)
  | inr eq ↦ rw eq (without-Fresh a c live ne, without-AreDistinct a live h)
]

In-Live :
    (a : ℕ) (bs : List Block) (live : List (ℕ × ℕ))
    → In a live
    → AllLive bs live
    → (bytes : ℕ) × Live bs a bytes
In-Live a bs [] i h = absurd i
In-Live a bs ((b, k) ∷ live) (inl e) (l, h) = (k, rw e l)
In-Live a bs ((b, k) ∷ live) (inr i) (l, h) = In-Live a bs live i h

-- The heap is a sequence of blocks, and the addresses in use are those of different runs.
record Kept (h : Heap) : Type 0 where
  before : List Block
  after : List Block
  holds : Holds h.mem before after
  all : AllLive (before ++ after) h.live
  distinct : AreDistinct h.live

allocated-Kept :
    (h : Heap) (bytes a : ℕ) (m' : Mem)
    → bytes ≤ 512
    → alloc h.mem bytes ≡ done (a, m')
    → a ≢ 0
    → Kept h
    → Kept (record { mem = m'; live = (a, bytes) ∷ h.live })
allocated-Kept h bytes a m' fits e got k =
    elim (rw e at (alloc-Allocated h.mem k.before k.after bytes k.holds fits)) [
      | inl (zero_addr, _, _, _) ↦ absurd (got zero_addr)
      | inr (x, y, split, at, holds') ↦
          (let n = num_blocks bytes in
            let w = num_words bytes in
            let whole : k.before ++ k.after ≡ (k.before ++ x) ++ (replicate n vacant ++ y) =
              rw split (sym (append_assoc k.before x (replicate n vacant ++ y))) in
            let (all, fresh) =
              claim-Live n w (k.before ++ x) y h.live (omega arith) (rw whole at k.all) in
            record {
              before = k.before ++ x;
              after = used n w ∷ y;
              holds = holds';
              all = (
                (
                  extent (k.before ++ x),
                  n,
                  w,
                  at,
                  omega arith,
                  omega arith,
                  RunAt-here (k.before ++ x) y n w,
                ),
                all,
              );
              distinct = (rw at fresh, k.distinct);
            })
    ]

refused-Kept :
    (h : Heap) (bytes : ℕ) (m' : Mem)
    → bytes ≤ 512
    → alloc h.mem bytes ≡ done (0, m')
    → Kept h
    → Kept (record { mem = m'; live = h.live })
refused-Kept h bytes m' fits e k =
    elim (rw e at (alloc-Allocated h.mem k.before k.after bytes k.holds fits)) [
      | inl (_, _, _, (x, y, split, holds')) ↦
          (let whole : k.before ++ k.after ≡ (k.before ++ x) ++ y =
              rw split (sym (append_assoc k.before x y)) in
            record {
              before = k.before ++ x;
              after = y;
              holds = holds';
              all = rw whole at k.all;
              distinct = k.distinct;
            })
      | inr (x, y, _, at, _) ↦ absurd (omega arith)
    ]

-- The run of an address in use, with what nc_mem_free does to it.
free_live :
    (h : Heap) (k : Kept h) (a bytes : ℕ)
    → Live (k.before ++ k.after) a bytes
    → Returns (free h.mem a) (λ m'. Kept (record { mem = m'; live = without a h.live }))
      × Returns (get_blocksize h.mem a) (λ size. bytes ≤ size)
free_live h k a bytes (e, n, w, at, pos, room, run) =
    let (xs, ys, same, here_it) = RunAt-parts n w e (k.before ++ k.after) run in
    let addr : a ≡ 0x8000 + extent xs + 2 = omega arith in
    rw addr (
      Returns-mono (free h.mem (0x8000 + extent xs + 2))
          (λ m' f.
            let (_, (b, c, blocks, holds')) = f in
            record {
              before = b;
              after = c;
              holds = holds';
              all = rw blocks (release-Live n w xs ys h.live (rw same at k.all));
              distinct = without-AreDistinct (0x8000 + extent xs + 2) h.live k.distinct;
            })
          (free-Freed h.mem k.before k.after xs ys n w k.holds same),
      rw (get_blocksize_lem h.mem k.before k.after xs ys n w k.holds same) room,
    )

Step-Kept : {h h' : Heap} → Step h h' → Kept h → Kept h'
Step-Kept (allocated h bytes a m' fits e got) k = allocated-Kept h bytes a m' fits e got k
Step-Kept (refused h bytes m' fits e) k = refused-Kept h bytes m' fits e k
Step-Kept (freed h a m' i e) k =
    let (bytes, l) = In-Live a (k.before ++ k.after) h.live i k.all in
    rw e at ((free_live h k a bytes l).0)

Reach-Kept : {s h : Heap} → Kept s → Reach s h → Kept h
Reach-Kept k here = k
Reach-Kept k (further r st) = Step-Kept st (Reach-Kept k r)

-- For each address in use: the size of its block, and that it can be freed.
abbrev pub AreServed : Mem → List (ℕ × ℕ) → Type 0
AreServed m [] = Unit
AreServed m ((a, bytes) ∷ live) =
    (Returns (get_blocksize m a) (λ size. bytes ≤ size) × Returns (free m a) (λ m'. Unit {0}))
    × AreServed m live

all_served :
    (h : Heap) (k : Kept h) (live : List (ℕ × ℕ))
    → AllLive (k.before ++ k.after) live
    → AreServed h.mem live
all_served h k [] all = tt
all_served h k ((a, bytes) ∷ live) (l, all) =
    let (gone, size) = free_live h k a bytes l in
    ((size, Returns-mono (free h.mem a) (λ m' _. tt) gone), all_served h k live all)

-- Start from a heap that is a sequence of blocks, with no address in use, and make any sequence of
-- calls of nc_mem_alloc of at most 512 bytes and of nc_mem_free of an address in use; an address
-- other than 0 that nc_mem_alloc returned is in use until it is freed. Then, in every heap so
-- reached, the addresses in use are distinct, nc_mem_get_blocksize of each returns at least the
-- bytes that were asked for, nc_mem_free of each returns, and so does nc_mem_alloc of at most 512
-- bytes.
pub Reach-AreServed :
    (m : Mem) (before after : List Block) (h : Heap) (bytes : ℕ)
    → Holds m before after
    → Reach (record { mem = m; live = [] }) h
    → bytes ≤ 512
    → AreDistinct h.live × AreServed h.mem h.live × Returns (alloc h.mem bytes) (λ r. Unit {0})
Reach-AreServed m before after h bytes holds r fits =
    let k =
      Reach-Kept (record { before = before; after = after; holds = holds; all = tt; distinct = tt })
        r in
    (
      k.distinct,
      all_served h k h.live k.all,
      Returns-mono (alloc h.mem bytes) (λ a _. tt)
          (alloc-Allocated h.mem k.before k.after bytes k.holds fits),
    )
