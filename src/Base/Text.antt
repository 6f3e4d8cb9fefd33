-- ===== src/Base/Text.antt =====
-- The text functions of JavaScript that the program calls: `toString`, `padStart`, `join`, `sort`
-- (by UTF-16 code units), `lastIndexOf` and `slice` (by characters: every index that the program
-- slices at is that of a full stop, so the code units in front of it do not matter), and
-- `Date.prototype.toISOString` from the epoch to the last date that it accepts.
pub mod Avoids
pub mod Sorted
pub mod Uri
use Prim.Native.Char.{Char, code}
use Prim.Native.Nat.{ℕ, zero, suc, ◌+◌, ◌-◌, ◌*◌, ◌/◌, ◌%◌}
use Prim.Native.String.{String, count, ◌++◌ as ◌<>◌}
use mathlib.Core.Bool.{Bool, true, false}
use mathlib.Core.Option.{Option, none, some}
use mathlib.Core.List.{List, [], ◌∷◌, ◌++◌}
use file_space.Base.Equality.{ltb, leb, ◌==◌, nat_eq, if◌then◌else◌}
use file_space.Base.Effect.{Result, ok, err, error}

module _ {ℓ} {A : Type ℓ} where
  abbrev pub get_or : List A → ℕ → A → A
  get_or [] i d = d
  get_or (x ∷ xs) zero d = x
  get_or (x ∷ xs) (suc i) d = get_or xs i d

abbrev digits : List String
digits =
    "0" ∷ "1" ∷ "2" ∷ "3" ∷ "4" ∷ "5" ∷ "6" ∷ "7" ∷ "8" ∷ "9" ∷ "a" ∷ "b" ∷ "c" ∷ "d" ∷ "e" ∷ "f"
    ∷ []

digit : ℕ → String
digit n = get_or digits n ""

-- One digit is written in a round, so a number has more fuel than digits.
to_string_from : ℕ → ℕ → ℕ → String → String
to_string_from base zero n out = out
to_string_from base (suc fuel) n out =
    let rest = to_string_from base fuel (n / base) (digit (n % base) <> out) in
    if ltb n base then digit n <> out else rest

-- `n.toString(base)`
unfoldable pub to_string : ℕ → ℕ → String
unfolding to_string_from digit
to_string base n = to_string_from base (suc n) n ""

abbrev repeat : ℕ → String → String
repeat zero fill = ""
repeat (suc n) fill = fill <> repeat n fill

-- `s.padStart(width, fill)` for a fill of one character
unfoldable pub pad_start : ℕ → String → String → String
pad_start width fill s = repeat (width - count s) fill <> s

-- `parts.join(sep)`
unfoldable pub join : String → List String → String
join sep [] = ""
join sep (s ∷ []) = s
join sep (s ∷ t ∷ r) = s <> (sep <> join sep (t ∷ r))

abbrev pub units : Char → List ℕ
units c =
    let n = code c in
    if ltb n 0x10000
    then n ∷ []
    else (0xd800 + (n - 0x10000) / 0x400) ∷ (0xdc00 + (n - 0x10000) % 0x400) ∷ []

abbrev pub utf16 : String → List ℕ
utf16 String.[] = []
utf16 (String.◌∷◌ c s) = units c ++ utf16 s

pub comes_before : List ℕ → List ℕ → Bool
comes_before s [] = false
comes_before [] (b ∷ t) = true
comes_before (a ∷ s) (b ∷ t) = let rest = comes_before s t in if a == b then rest else ltb a b

-- behind the texts that are not greater
insert_sorted : String → List String → List String
insert_sorted s [] = s ∷ []
insert_sorted s (t ∷ r) =
    let later = t ∷ insert_sorted s r in
    if comes_before (utf16 s) (utf16 t) then s ∷ t ∷ r else later

sort_onto : List String → List String → List String
sort_onto sorted [] = sorted
sort_onto sorted (s ∷ r) = sort_onto (insert_sorted s sorted) r

-- `names.sort()`
unfoldable pub sort : List String → List String
unfolding sort_onto insert_sorted comes_before nat_eq
sort names = sort_onto [] names

-- `s.lastIndexOf(c)`, with `none` for -1
unfoldable pub last_index_of : ℕ → String → Option ℕ
unfolding nat_eq
last_index_of c String.[] = none
last_index_of c (String.◌∷◌ d s) = elim (last_index_of c s) [
  | some i ↦ some (suc i)
  | none ↦ if code d == c then some 0 else none
]

-- `s.slice(0, n)`
unfoldable pub slice_to : ℕ → String → String
slice_to zero s = ""
slice_to (suc n) String.[] = ""
slice_to (suc n) (String.◌∷◌ c s) = String.◌∷◌ c (slice_to n s)

-- `s.slice(n)`
unfoldable pub slice_from : ℕ → String → String
slice_from zero s = s
slice_from (suc n) String.[] = ""
slice_from (suc n) (String.◌∷◌ c s) = slice_from n s

abbrev padded : ℕ → ℕ → String
padded width n = pad_start width "0" (to_string 10 n)

-- Year, month and day of a day counted from 1970-01-01, in the Gregorian calendar.
civil : ℕ → ℕ × ℕ × ℕ
civil days =
    let z = days + 719468 in
    let era = z / 146097 in
    let doe = z % 146097 in
    let yoe = (doe + doe / 36524 - doe / 1460 - doe / 146096) / 365 in
    let doy = doe + yoe / 100 - (365 * yoe + yoe / 4) in
    let mp = (5 * doy + 2) / 153 in
    let day = doy + 1 - (153 * mp + 2) / 5 in
    let month = (if ltb mp 10 then mp + 3 else mp - 9) in
    (yoe + era * 400 + (if leb month 2 then 1 else 0), month, day)

show_year : ℕ → String
show_year y = if leb y 9999 then padded 4 y else "+" <> padded 6 y

format_iso : ℕ → String
format_iso ms =
    let (year, month, day) = civil (ms / 86400000) in
    show_year year
    <> ("-"
        <> (padded 2 month
            <> ("-"
                <> (padded 2 day
                    <> ("T"
                        <> (padded 2 (ms / 3600000 % 24)
                            <> (":"
                                <> (padded 2 (ms / 60000 % 60)
                                    <> (":"
                                        <> (padded 2 (ms / 1000 % 60)
                                            <> ("." <> (padded 3 (ms % 1000) <> "Z"))))))))))))

-- `new Date(ms).toISOString()`, which throws past the last date
unfoldable pub to_iso_string : ℕ → Result String
unfolding format_iso civil show_year pad_start to_string
to_iso_string ms =
    if leb ms 8640000000000000 then ok (format_iso ms) else err (error "Invalid time value")
