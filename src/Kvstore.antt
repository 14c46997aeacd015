-- ===== src/Kvstore.antt =====
-- src/nc_kvstore.c: a store of `int32_t` keys and values in a sorted array with binary search.
-- A store pointer is an option (`none` is NULL); a function that changes `*store` returns the new
-- store beside its result. The flexible array `entries` is the list of all the elements that the
-- caller's memory holds, so an access past it is a `fault`.
pub mod Search
pub mod Shift
pub mod Valid
pub mod Map
pub mod FiniteMap
pub mod History
mod Tests
use nanoc.Base.{
  ℕ, zero, suc, ◌+◌, ◌-◌, ◌*◌, ◌/◌, Bool, true, false, Option, none, some, List, ltb, leb, ◌==◌,
  if◌then◌else◌, length, get_elem?, set, move, Run, done, fault, ◌>>=◌, checked,
}
use nanoc.Base.Word.{u16, u32, slt}

pub record Entry : Type 0 where
  pub key : ℕ
  pub value : ℕ

pub record Store : Type 0 where
  pub count : ℕ
  pub capacity : ℕ
  pub default_val : ℕ
  pub entries : List Entry

-- `*p_idx` beside the returned flag.
pub data Place : Type 0 where
  found absent : ℕ → Place

-- The `int` results 0 and -1.
pub data Status : Type 0 where
  success failure : Status

-- `sizeof(kvs_store_t)` is 8, and so is `sizeof(kvs_entry_t)`.
unfoldable pub size : ℕ → ℕ
size num_elem = u32 (8 + num_elem * 8)

-- The loop of `kvs_bsearch`, over the range left..right.
unfoldable pub bsearch_loop : ℕ → List Entry → ℕ → ℕ → ℕ → Run Place
bsearch_loop zero entries key left right = fault
bsearch_loop (suc fuel) entries key left right =
    let mid = u16 (left + (right - left) / 2) in
    let upper = bsearch_loop fuel entries key (u16 (mid + 1)) right in
    let lower = bsearch_loop fuel entries key left mid in
    let round : Run Place = checked (get_elem? entries mid) >>= λ e.
    if e.key == key then done (found mid) else if slt e.key key then upper else lower in
    if ltb left right then round else done (absent left)

-- Each round shrinks the range, so `count + 1` rounds are enough.
unfoldable pub bsearch : Store → ℕ → Run Place
bsearch store key =
    if store.count == 0
    then done (absent 0)
    else bsearch_loop (suc store.count) store.entries key 0 store.count

-- `p_mem` is the caller's memory, seen as entries.
unfoldable pub create : Option (List Entry) → ℕ → ℕ → Option Store
create none num_elem default_val = none
create (some mem) num_elem default_val =
    if num_elem == 0
    then none
    else some (record { count = 0; capacity = num_elem; default_val = default_val; entries = mem })

-- The insertion at `idx`: `memmove` if entries follow, the new entry, `count++`.
unfoldable pub insert_at : Store → ℕ → Entry → Run Store
insert_at store idx e =
    let moved =
      if ltb idx store.count
      then move store.entries (idx + 1) idx (store.count - idx)
      else store.entries in
    if ltb store.count (length store.entries)
    then done (record store { count = u16 (store.count + 1); entries = set moved idx e })
    else fault

unfoldable pub set_value : Store → ℕ → ℕ → ℕ → Run (Status × Store)
set_value store idx key value = checked (get_elem? store.entries idx) >>= λ e. done (
  success,
  record store { entries = set store.entries idx (record { key = e.key; value = value }) },
)

abbrev pub add_pair : Store → ℕ → ℕ → ℕ → Run (Status × Store)
add_pair store idx key value =
    if leb store.capacity store.count
    then done (failure, store)
    else insert_at store idx (record { key = key; value = value }) >>= λ s. done (success, s)

unfoldable pub put : Store → ℕ → ℕ → Run (Status × Store)
put store key value = bsearch store key >>= λ r. elim r [
  | found idx ↦ set_value store idx key value
  | absent idx ↦ add_pair store idx key value
]

unfoldable pub get : Store → ℕ → Run ℕ
get store key = bsearch store key >>= λ r. elim r [
  | found idx ↦ checked (get_elem? store.entries idx) >>= λ e. done e.value
  | absent idx ↦ done store.default_val
]

unfoldable pub exists : Store → ℕ → Run Bool
exists store key =
    bsearch store key >>= λ r. elim r [ found idx ↦ done true | absent idx ↦ done false ]

unfoldable pub clear : Store → Store
clear store = record store { count = 0 }

-- The removal at `idx`: `memmove` if entries follow, `count--`. It runs only at `count` above 0.
unfoldable pub remove_at : Store → ℕ → Store
remove_at store idx =
    let moved =
      if ltb idx (store.count - 1)
      then move store.entries idx (idx + 1) (store.count - idx - 1)
      else store.entries in
    record store { count = store.count - 1; entries = moved }

unfoldable pub delete : Store → ℕ → Run (Status × Store)
delete store key = bsearch store key >>= λ r. elim r [
  | found idx ↦ done (success, remove_at store idx)
  | absent idx ↦ done (failure, store)
]

-- The functions of the interface: each checks its pointer first.
unfoldable pub kvs_set : Option Store → ℕ → ℕ → Run (Status × Option Store)
kvs_set none key value = done (failure, none)
kvs_set (some store) key value = put store key value >>= λ r. done (r.0, some r.1)

unfoldable pub kvs_get : Option Store → ℕ → Run ℕ
kvs_get none key = done 0
kvs_get (some store) key = get store key

unfoldable pub kvs_exists : Option Store → ℕ → Run Bool
kvs_exists none key = done false
kvs_exists (some store) key = exists store key

unfoldable pub kvs_count : Option Store → ℕ
kvs_count none = 0
kvs_count (some store) = store.count

unfoldable pub kvs_clear : Option Store → Option Store
kvs_clear none = none
kvs_clear (some store) = some (clear store)

unfoldable pub kvs_delete : Option Store → ℕ → Run (Status × Option Store)
kvs_delete none key = done (failure, none)
kvs_delete (some store) key = delete store key >>= λ r. done (r.0, some r.1)
