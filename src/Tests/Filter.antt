-- ===== src/Tests/Filter.antt =====
-- A filter of 128 bits and three rounds, as bloom.go builds it.
use go.Common.{◌≡◌, refl, true, some, [], ◌∷◌, Bytes, arith, contains, bytes_beq}
use go.Bloom.{BloomFilter, new, add_all, may_contain}
use go.Bloom.Membership.{IsValid, new-IsValid, contains-add_all}

abbrev filter : BloomFilter
filter = new 128 3

abbrev apple : Bytes
apple = b'a' ∷ []

abbrev pear : Bytes
pear = b'p' ∷ []

filter-IsValid : IsValid filter
filter-IsValid = new-IsValid 128 3 (omega arith) (omega arith)

contains-add_all_example :
    (bf' : BloomFilter) × (add_all (apple ∷ pear ∷ []) filter ≡ some bf')
    × (may_contain pear bf' ≡ some true)
unfolding contains bytes_beq
contains-add_all_example = contains-add_all (apple ∷ pear ∷ []) pear filter filter-IsValid refl
