-- ===== src/Str/Utf8.antt =====
-- `String::from_utf8`: which byte sequences are well-formed UTF-8 (RFC 3629).
use focal_vector.Base.{
  ℕ, zero, suc, Bool, true, false, ◌&&◌, List, [], ◌∷◌, leb, ◌==◌, if◌then◌else◌,
}

abbrev in_range : ℕ → ℕ → ℕ → Bool
in_range lo hi b = leb lo b && leb b hi

-- How many continuation bytes follow a lead byte, with the range of the first of them.

pub data Lead : Type 0 where
  ascii : Lead
  follow : ℕ → ℕ → ℕ → Lead
  invalid : Lead

lead : ℕ → Lead
lead b =
    if leb b 0x7f
    then ascii
    else if in_range 0xc2 0xdf b
    then follow 0x80 0xbf 0
    else if b == 0xe0
    then follow 0xa0 0xbf 1
    else if b == 0xed
    then follow 0x80 0x9f 1
    else if in_range 0xe1 0xef b
    then follow 0x80 0xbf 1
    else if b == 0xf0
    then follow 0x90 0xbf 2
    else if in_range 0xf1 0xf3 b
    then follow 0x80 0xbf 2
    else if b == 0xf4
    then follow 0x80 0x8f 2
    else invalid

-- What the next byte must be.
pub data Expect : Type 0 where
  start : Expect
  within : ℕ → ℕ → ℕ → Expect

after_lead : Lead → Expect
after_lead ascii = start
after_lead (follow lo hi more) = within lo hi more
after_lead invalid = start

is_valid_lead : Lead → Bool
is_valid_lead ascii = true
is_valid_lead (follow lo hi more) = true
is_valid_lead invalid = false

more_expected : ℕ → Expect
more_expected zero = start
more_expected (suc n) = within 0x80 0xbf n

scan : Expect → List ℕ → Bool
scan start [] = true
scan (within lo hi more) [] = false
scan start (b ∷ rest) = is_valid_lead (lead b) && scan (after_lead (lead b)) rest
scan (within lo hi more) (b ∷ rest) = in_range lo hi b && scan (more_expected more) rest

unfoldable pub is_utf8 : List ℕ → Bool
unfolding scan lead after_lead is_valid_lead more_expected
is_utf8 bytes = scan start bytes
