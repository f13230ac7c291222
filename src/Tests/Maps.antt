-- ===== src/Tests/Maps.antt =====
-- The bitmap, the hash map and the call sites at concrete inputs: include/bitmap.hh,
-- include/hashmap.hh and include/callsite.hh.
use double_take.Prelude.{
  ℕ, zero, suc, ◌^◌, ◌<◌, ◌≡◌, ◌≢◌, refl, ◌⊎◌, true, false, Option, none, some, [], ◌∷◌, replicate,
  get_or, arith, ok, fault, timeout, bit,
}
use double_take.Bitmap.{Bitmap, get_last_bit, has_bit_set, clear_bits}
use double_take.Bitmap.Inv
use double_take.Bitmap.Inv.{member, Puts}
use double_take.Bitmap.Last.{IsLast, get_last_bit-IsLast}
use double_take.Bitmap.Range.{has_bit_set_empty_word, has_bit_set_stuck, clear_bits-fault}
use double_take.HashMap.{Entry, HashMap, erase, find, put_bucket, same_key}
use double_take.HashMap.Chain.{first_match}
use double_take.HashMap.Laws
use double_take.HashMap.Laws.{
  lookup, lookup-insert_if_absent, initialize-IsValid, put_bucket-IsValid,
}
use double_take.HashMap.Erase.{entries_of, lookup-erase, erase_absent_hides_last}
use double_take.CallSite.{CallSite}
use double_take.Tests.Data.{two_items, two_items-IsValid, table, table-IsValid, table-IsLawful}

get_last_bit-IsLast_example :
    (r : Option ℕ) × (get_last_bit two_items 70 ≡ ok r) × IsLast (member two_items) 70 r
get_last_bit-IsLast_example = get_last_bit-IsLast two_items two_items-IsValid 70 (omega arith)

-- Only item 128.
abbrev third_word : Bitmap
third_word = record { start = 0 ∷ 0 ∷ 1 ∷ []; elements = 192; words = 24 }

third_word-IsValid : Inv.IsValid third_word
third_word-IsValid = record {
  backed = omega arith;
  counted = omega arith;
  short = omega arith;
  fits = fits;
}
  where
    fits : (i : ℕ) → get_or third_word.start i 0 < 2 ^ 64
    fits zero = omega arith
    fits (suc zero) = omega arith
    fits (suc (suc zero)) = omega arith
    fits (suc (suc (suc i))) = omega arith

has_bit_set_empty_word_example : has_bit_set 5 third_word 10 60 ≡ ok true
has_bit_set_empty_word_example =
    has_bit_set_empty_word third_word third_word-IsValid 5 10 60 (omega arith)
      (λ e. absurd (omega (arith, e))) refl

-- Only item 0.
abbrev first_item : Bitmap
first_item = record { start = 1 ∷ 0 ∷ 0 ∷ []; elements = 192; words = 24 }

first_item-IsValid : Inv.IsValid first_item
first_item-IsValid = record {
  backed = omega arith;
  counted = omega arith;
  short = omega arith;
  fits = fits;
}
  where
    fits : (i : ℕ) → get_or first_item.start i 0 < 2 ^ 64
    fits zero = omega arith
    fits (suc zero) = omega arith
    fits (suc (suc zero)) = omega arith
    fits (suc (suc (suc i))) = omega arith

bit_there : bit 0 1 ≡ 1
unfolding bit
bit_there = refl

has_bit_set_stuck_example : has_bit_set 9 first_item 1 130 ≡ timeout
has_bit_set_stuck_example =
    has_bit_set_stuck first_item first_item-IsValid 9 1 130 (omega arith) (omega arith) 0
      (omega arith) bit_there refl

abbrev sixteen_words : Bitmap
sixteen_words = record { start = replicate 16 1; elements = 1024; words = 128 }

sixteen_words-IsValid : Inv.IsValid sixteen_words
sixteen_words-IsValid = record {
  backed = omega arith;
  counted = omega arith;
  short = omega arith;
  fits = λ i. small 16 i;
}
  where
    small : (n i : ℕ) → get_or {A = ℕ} (replicate n 1) i 0 < 2 ^ 64
    small zero i = omega arith
    small (suc n) zero = omega arith
    small (suc n) (suc i) = small n i

clear_bits-fault_example : clear_bits two_items 64 64 ≡ fault
clear_bits-fault_example =
    clear_bits-fault two_items two_items-IsValid 64 64 refl refl (omega arith) (omega arith)
      (omega arith)

abbrev with_nine : HashMap ℕ ℕ
with_nine =
    put_bucket table 1
      (record { list = record { key = 9; keylen = 8; value = 30 } ∷ []; count = 1 })

with_nine-IsValid : Laws.IsValid 1 with_nine
with_nine-IsValid =
    put_bucket-IsValid table 1
      (record { list = record { key = 9; keylen = 8; value = 30 } ∷ []; count = 1 }) table-IsValid
      (omega arith) refl (omega arith)

nine_there : lookup with_nine 9 8 ≡ some 30
unfolding lookup first_match same_key
nine_there = refl

lookup-erase_example :
    (m : HashMap ℕ ℕ) × (erase with_nine 9 8 ≡ ok (true, m))
    × Laws.IsValid 1 m
    × ((e : Entry ℕ ℕ) × (e.value ≡ 30) × (entries_of with_nine 9 8 ≡ e ∷ entries_of m 9 8))
    × ((k : ℕ) (l : ℕ) → (9 ≢ k) ⊎ (8 ≢ l) → lookup m k l ≡ lookup with_nine k l)
lookup-erase_example =
    lookup-erase with_nine 1 with_nine-IsValid (omega arith) 9 8 30 nine_there table-IsLawful

five_absent : lookup with_nine 5 8 ≡ none
unfolding lookup first_match same_key
five_absent = refl

none_before : first_match with_nine [] 9 8 ≡ none
unfolding first_match
none_before = refl

erase_absent_hides_last_example :
    (m : HashMap ℕ ℕ) × (erase with_nine 5 8 ≡ ok (false, m)) × (find m 9 8 ≡ ok none)
erase_absent_hides_last_example =
    erase_absent_hides_last with_nine 1 with_nine-IsValid (omega arith) 5 8 []
      (record { key = 9; keylen = 8; value = 30 }) five_absent refl none_before refl

abbrev three_calls : CallSite
three_calls = record { depth = 1; callsite = 7 ∷ 9 ∷ 4 ∷ [] }
