-- ===== src/Kvstore/Tests.antt =====
-- A store of src/nc_kvstore.c with the keys -6 and 5 and room for a third.
use nanoc.Base.{ℕ, zero, suc, ◌<◌, ◌≡◌, refl, some, List, [], ◌∷◌, arith, true, done, Returns}
use nanoc.Base.Word.{IsWord, bias}
use nanoc.Kvstore.{Entry, Store, success, create, bsearch, failure, put, delete}
use nanoc.Kvstore.Search.{IsValid, Locates, bsearch-Locates, key_at}
use nanoc.Kvstore.Valid.{put-IsValid, delete-IsValid}
use nanoc.Kvstore.Map.{
  Binds, Reports, Binds-Reports, PutResult, put-PutResult, DeleteResult, delete-DeleteResult,
}
use nanoc.Kvstore.History.{
  Call, set, get, exists, count, clear, Answer, status, value, number, flag, nothing, calls,
  map_calls, calls-map_calls,
}

abbrev three_entries : List Entry
three_entries =
    record { key = 4294967290; value = 1 }
    ∷ record { key = 5; value = 50 }
    ∷ record { key = 0; value = 0 }
    ∷ []

abbrev two_keys : Store
two_keys = record { count = 2; capacity = 3; default_val = 99; entries = three_entries }

two_keys-IsWord : (i : ℕ) → i < 2 → IsWord (key_at three_entries i)
two_keys-IsWord zero h = omega arith
two_keys-IsWord (suc zero) h = omega arith
two_keys-IsWord (suc (suc i)) h = absurd (omega arith)

two_keys-sorted :
    (i j : ℕ) → i < j → j < 2 → bias (key_at three_entries i) < bias (key_at three_entries j)
two_keys-sorted zero zero h k = absurd (omega arith)
two_keys-sorted zero (suc zero) h k = omega arith
two_keys-sorted zero (suc (suc j)) h k = absurd (omega arith)
two_keys-sorted (suc i) j h k = absurd (omega arith)

two_keys-IsValid : IsValid two_keys
two_keys-IsValid = record {
  fits = omega arith;
  allocated = omega arith;
  small = omega arith;
  words = two_keys-IsWord;
  sorted = two_keys-sorted;
}

-- The key 5 is bound to 50, and the key 7 to nothing.
Binds-five : Binds two_keys 5 (some 50)
Binds-five = (1, omega arith, refl, refl)

bsearch-Locates_example : Returns (bsearch two_keys 5) (Locates three_entries 2 5)
bsearch-Locates_example = bsearch-Locates two_keys 5 two_keys-IsValid (omega arith)

put-PutResult_example : Returns (put two_keys 3 30) (PutResult two_keys 3 30 5 (some 50))
put-PutResult_example =
    put-PutResult two_keys two_keys-IsValid 3 30 (omega arith) 5 (some 50) Binds-five

delete-DeleteResult_example : Returns (delete two_keys 5) (DeleteResult two_keys 5 5 (some 50))
delete-DeleteResult_example =
    delete-DeleteResult two_keys two_keys-IsValid 5 (omega arith) 5 (some 50) Binds-five

Binds-Reports_example : Reports two_keys 5 (some 50)
Binds-Reports_example = Binds-Reports two_keys two_keys-IsValid 5 (omega arith) (some 50) Binds-five

put-IsValid_example : Returns (put two_keys 3 30) (λ r. IsValid r.1)
put-IsValid_example = put-IsValid two_keys two_keys-IsValid 3 30 (omega arith)

delete-IsValid_example : Returns (delete two_keys 5) (λ r. IsValid r.1)
delete-IsValid_example = delete-IsValid two_keys two_keys-IsValid 5 (omega arith)

abbrev new_store : Store
new_store = record { count = 0; capacity = 3; default_val = 99; entries = three_entries }

creates : create (some three_entries) 3 99 ≡ some new_store
unfolding create
creates = refl

-- Some of the calls that a host can make.
abbrev some_calls : List Call
some_calls =
    set 5 50
    ∷ set 4294967290 1
    ∷ get 4294967290
    ∷ set 5 51
    ∷ set 0 2
    ∷ set 9 90
    ∷ count
    ∷ Call.delete 5
    ∷ Call.delete 5
    ∷ get 5
    ∷ exists 0
    ∷ clear
    ∷ get 0
    ∷ []

abbrev answers : List Answer
answers =
    status success
    ∷ status success
    ∷ value 1
    ∷ status success
    ∷ status success
    ∷ status failure
    ∷ number 3
    ∷ status success
    ∷ status failure
    ∷ value 99
    ∷ flag true
    ∷ nothing
    ∷ value 99
    ∷ []

calls-map_calls_example : calls some_calls (some new_store) ≡ done answers
unfolding map_calls
calls-map_calls_example =
    calls-map_calls some_calls three_entries 3 99
      (
        omega arith,
        (
          omega arith,
          (
            omega arith,
            (
              omega arith,
              (
                omega arith,
                (
                  omega arith,
                  (
                    tt,
                    (
                      omega arith,
                      (omega arith, (omega arith, (omega arith, (tt, (omega arith, tt))))),
                    ),
                  ),
                ),
              ),
            ),
          ),
        ),
      )
      (omega arith) (omega arith) creates
