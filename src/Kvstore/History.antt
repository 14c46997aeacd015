-- ===== src/Kvstore/History.antt =====
-- Calls of the interface of src/nc_kvstore.c in any order, on a store that `kvs_create` has made.
use nanoc.Base.{
  ℕ, ◌≤◌, ◌<◌, ◌≡◌, ap, refl, Bool, true, false, Option, none, some, List, [], ◌∷◌, length, arith,
  Run, done, fault, Returns, ◌>>=◌,
}
use nanoc.Base.Word.{IsWord}
use nanoc.Kvstore
use nanoc.Kvstore.{
  Entry, Store, Status, create, put, kvs_set, kvs_get, kvs_exists, kvs_count, kvs_clear, kvs_delete,
}
use nanoc.Kvstore.Search.{IsValid}
use nanoc.Kvstore.Valid.{create-IsValid}
use nanoc.Kvstore.Map.{Binds, Binds-Reports}
use nanoc.Kvstore.FiniteMap.{
  FiniteMap, empty, map_set, map_delete, map_clear, Refines, put-Refines, delete-Refines,
  clear-Refines,
}

pub data Call : Type 0 where
  set : ℕ → ℕ → Call
  get exists delete : ℕ → Call
  count clear : Call

-- What a call returns to the host.
pub data Answer : Type 0 where
  status : Status → Answer
  value number : ℕ → Answer
  flag : Bool → Answer
  nothing : Answer

abbrev pub call : Call → Option Store → Run (Answer × Option Store)
call (set key val) p = kvs_set p key val >>= λ r. done (status r.0, r.1)
call (get key) p = kvs_get p key >>= λ v. done (value v, p)
call (exists key) p = kvs_exists p key >>= λ b. done (flag b, p)
call (delete key) p = kvs_delete p key >>= λ r. done (status r.0, r.1)
call count p = done (number (kvs_count p), p)
call clear p = done (nothing, kvs_clear p)

-- The answers to a sequence of calls.
unfoldable pub calls : List Call → Option Store → Run (List Answer)
calls [] p = done []
calls (c ∷ cs) p = call c p >>= λ r. calls cs r.1 >>= λ rest. done (r.0 ∷ rest)

-- What the map answers.
abbrev bound_or : ℕ → Option ℕ → ℕ
bound_or d none = d
bound_or d (some v) = v

abbrev is_bound : Option ℕ → Bool
is_bound none = false
is_bound (some v) = true

abbrev pub map_call : Call → FiniteMap → Answer × FiniteMap
map_call (set key val) m = (status (map_set key val m).0, (map_set key val m).1)
map_call (get key) m = (value (bound_or m.default_val (m.bound key)), m)
map_call (exists key) m = (flag (is_bound (m.bound key)), m)
map_call (delete key) m = (status (map_delete key m).0, (map_delete key m).1)
map_call count m = (number m.size, m)
map_call clear m = (nothing, map_clear m)

unfoldable pub map_calls : List Call → FiniteMap → List Answer
map_calls [] m = []
map_calls (c ∷ cs) m = (map_call c m).0 ∷ map_calls cs (map_call c m).1

-- The key of the call is a 32-bit number.
abbrev pub IsCall : Call → Type 0
IsCall (set key val) = IsWord key
IsCall (get key) = IsWord key
IsCall (exists key) = IsWord key
IsCall (delete key) = IsWord key
IsCall count = Unit {0}
IsCall clear = Unit {0}

abbrev pub AreCalls : List Call → Type 0
AreCalls [] = Unit {0}
AreCalls (c ∷ cs) = IsCall c × AreCalls cs

-- The call gives the answer of the map, and a store that stands for the map that it leaves.
abbrev Agrees : Answer × FiniteMap → Answer × Option Store → Type 0
Agrees (a, m) (b, none) = ⊥
Agrees (a, m) (b, some s) = (b ≡ a) × Refines s m

abbrev keep : Status × Store → Run (Status × Option Store)
keep a = done (a.0, some a.1)

Agrees-status :
    (r : Run (Status × Store)) (q : Status × FiniteMap)
    → Returns r (λ a. (a.0 ≡ q.0) × Refines a.1 q.1)
    → Returns (r >>= keep >>= λ a. done (status a.0, a.1)) (Agrees (status q.0, q.1))
Agrees-status (done a) q (e, h) = (ap status e, h)
Agrees-status fault q h = h

get_lem :
    (s : Store) (v : IsValid s) (key : ℕ) (word : IsWord key) (o : Option ℕ)
    → Binds s key o
    → Kvstore.get s key ≡ done (bound_or s.default_val o)
get_lem s v key word none b = (Binds-Reports s v key word none b).1
get_lem s v key word (some x) b = (Binds-Reports s v key word (some x) b).1

exists_lem :
    (s : Store) (v : IsValid s) (key : ℕ) (word : IsWord key) (o : Option ℕ)
    → Binds s key o
    → Kvstore.exists s key ≡ done (is_bound o)
exists_lem s v key word none b = (Binds-Reports s v key word none b).0
exists_lem s v key word (some x) b = (Binds-Reports s v key word (some x) b).0

call-Agrees :
    (c : Call) (s : Store) (m : FiniteMap)
    → IsCall c
    → Refines s m
    → Returns (call c (some s)) (Agrees (map_call c m))
unfolding kvs_set kvs_get kvs_exists kvs_count kvs_clear kvs_delete
call-Agrees (set key val) s m word h =
    Agrees-status (put s key val) (map_set key val m) (put-Refines s m h key val word)
call-Agrees (get key) s m word h =
    let e = get_lem s h.valid key word (m.bound key) (h.binds key) in
    rw e (ap (λ d. value (bound_or d (m.bound key))) h.default_val, h)
call-Agrees (exists key) s m word h =
    rw (exists_lem s h.valid key word (m.bound key) (h.binds key)) (refl, h)
call-Agrees (delete key) s m word h =
    Agrees-status (Kvstore.delete s key) (map_delete key m) (delete-Refines s m h key word)
call-Agrees count s m word h = (ap number h.size, h)
call-Agrees clear s m word h = (refl, clear-Refines s m h)

after-Agrees :
    (cs : List Call) (r : Run (Answer × Option Store)) (q : Answer × FiniteMap)
    → Returns r (Agrees q)
    → ((s : Store) → Refines s q.1 → calls cs (some s) ≡ done (map_calls cs q.1))
    → (r >>= λ a. calls cs a.1 >>= λ rest. done (a.0 ∷ rest)) ≡ done (q.0 ∷ map_calls cs q.1)
after-Agrees cs (done (b, some s)) q (e, h) rest = rw (rest s h, e) refl
after-Agrees cs (done (b, none)) q h rest = absurd h
after-Agrees cs fault q h rest = absurd h

calls-Agrees :
    (cs : List Call) (s : Store) (m : FiniteMap)
    → AreCalls cs
    → Refines s m
    → calls cs (some s) ≡ done (map_calls cs m)
unfolding calls map_calls
calls-Agrees [] s m words h = refl
calls-Agrees (c ∷ cs) s m (word, words) h =
    after-Agrees cs (call c (some s)) (map_call c m) (call-Agrees c s m word h)
      (λ s' h'. calls-Agrees cs s' (map_call c m).1 words h')

create_default :
    (mem : List Entry) (num_elem default_val : ℕ) {s : Store}
    → create (some mem) num_elem default_val ≡ some s
    → s.default_val ≡ default_val
unfolding create
create_default mem num_elem default_val {s} e = grind arith

create-Refines :
    (mem : List Entry) (num_elem default_val : ℕ) {s : Store}
    → num_elem ≤ length mem
    → num_elem < 65536
    → create (some mem) num_elem default_val ≡ some s
    → Refines s (empty num_elem default_val)
create-Refines mem num_elem default_val fits small e =
    let (v, none_live, room) = create-IsValid mem num_elem default_val fits small e in
    record {
      valid = v;
      binds = λ j i lt. absurd (omega arith);
      size = none_live;
      capacity = room;
      default_val = create_default mem num_elem default_val e;
    }

-- Let kvs_create on memory for at least its 16-bit number of elements give a store. Then any
-- sequence of calls of kvs_set, kvs_get, kvs_exists, kvs_count, kvs_delete and kvs_clear with
-- 32-bit keys on it returns, and gives the answers of a finite map with that capacity and default
-- value: kvs_set fails just when its key is unbound and the map is full, kvs_delete just when its
-- key is unbound, and kvs_get of an unbound key gives the default value.
pub calls-map_calls :
    (cs : List Call) (mem : List Entry) (num_elem default_val : ℕ) {s : Store}
    → AreCalls cs
    → num_elem ≤ length mem
    → num_elem < 65536
    → create (some mem) num_elem default_val ≡ some s
    → calls cs (some s) ≡ done (map_calls cs (empty num_elem default_val))
calls-map_calls cs mem num_elem default_val {s} words fits small e =
    calls-Agrees cs s (empty num_elem default_val) words
      (create-Refines mem num_elem default_val fits small e)
